-- ===== src/Waste/CrossRows.antt =====
-- The rows of the report over several sessions, as sums over the reports of the sessions.
use agentprof.Base.{ℕ, ◌+◌, ◌≡◌, List, [], ◌∷◌, map, arith, refl, ◌∙◌}
use agentprof.Base.Sort.{sum_by, sum_by-sort_by}
use agentprof.Order.{Text, text_ord}
use agentprof.Map.{BTreeMap, upsert, sum_entries, sum_entries-upsert, IsOrdered, upsert-IsOrdered}
use agentprof.Waste.Report.{
  McpToolWaste, McpServerWaste, WasteReport, McpToolUsageAcrossSessions, McpServerCrossWaste,
}
use agentprof.Waste.Across.{
  ToolAcc, ServerAcc, no_calls, no_sessions, add_tool, add_tools, add_server, add_servers,
  add_sessions, usage_row, by_tool_name, cross_row, cross_le, aggregate_waste,
}

-- A number of the servers' entries, which may depend on their names, after some servers are added.
add_servers-sum :
    (f : Text → ServerAcc → ℕ) (g : McpServerWaste → ℕ) (sws : List McpServerWaste)
    (acc : BTreeMap Text ServerAcc)
    → ((server : Text) → f server no_sessions ≡ 0)
    → ((sw : McpServerWaste) (a : ServerAcc) → f sw.server (add_server sw a) ≡ f sw.server a + g sw)
    → sum_entries f (add_servers sws acc) ≡ sum_entries f acc + sum_by g sws
unfolding add_servers
add_servers-sum f g [] acc z h = omega arith
add_servers-sum f g (sw ∷ sws) acc z h = omega (
  arith,
  add_servers-sum f g sws (upsert sw.server no_sessions (add_server sw) acc) z h,
  sum_entries-upsert f (g sw) sw.server no_sessions (add_server sw) acc (z sw.server) (h sw),
)

add_sessions-sum :
    (f : Text → ServerAcc → ℕ) (g : McpServerWaste → ℕ) (rs : List WasteReport)
    (acc : BTreeMap Text ServerAcc)
    → ((server : Text) → f server no_sessions ≡ 0)
    → ((sw : McpServerWaste) (a : ServerAcc) → f sw.server (add_server sw a) ≡ f sw.server a + g sw)
    → sum_entries f (add_sessions rs acc)
      ≡ sum_entries f acc + sum_by (λ r. sum_by g r.server_waste) rs
unfolding add_sessions
add_sessions-sum f g [] acc z h = omega arith
add_sessions-sum f g (r ∷ rs) acc z h = omega (
  arith,
  add_sessions-sum f g rs (add_servers r.server_waste acc) z h,
  add_servers-sum f g r.server_waste acc z h,
)

-- A number of the tools' entries after some tools are added.
add_tools-sum :
    (f : Text → ToolAcc → ℕ) (g : McpToolWaste → ℕ) (ts : List McpToolWaste)
    (acc : BTreeMap Text ToolAcc)
    → ((name : Text) → f name no_calls ≡ 0)
    → ((t : McpToolWaste) (a : ToolAcc) → f t.tool_name (add_tool t a) ≡ f t.tool_name a + g t)
    → sum_entries f (add_tools ts acc) ≡ sum_entries f acc + sum_by g ts
unfolding add_tools
add_tools-sum f g [] acc z h = omega arith
add_tools-sum f g (t ∷ ts) acc z h = omega (
  arith,
  add_tools-sum f g ts (upsert t.tool_name no_calls (add_tool t) acc) z h,
  sum_entries-upsert f (g t) t.tool_name no_calls (add_tool t) acc (z t.tool_name) (h t),
)

cross_rows-sum :
    (h : McpServerCrossWaste → ℕ) (f : Text → ServerAcc → ℕ) (acc : BTreeMap Text ServerAcc)
    → ((server : Text) (a : ServerAcc) → h (cross_row (server, a)) ≡ f server a)
    → sum_by h (map cross_row acc) ≡ sum_entries f acc
cross_rows-sum h f [] e = refl
cross_rows-sum h f ((server, a) ∷ acc) e = omega (arith, e server a, cross_rows-sum h f acc e)

zero_add : (n : ℕ) → 0 + n ≡ n
zero_add n = omega arith

-- A number of the rows of the servers, from the entries they are made of.
pub per_server-entries :
    (h : McpServerCrossWaste → ℕ) (f : Text → ServerAcc → ℕ) (rs : List WasteReport)
    → ((server : Text) (a : ServerAcc) → h (cross_row (server, a)) ≡ f server a)
    → sum_by h (aggregate_waste rs).per_server ≡ sum_entries f (add_sessions rs [])
unfolding aggregate_waste
per_server-entries h f rs e =
    sum_by-sort_by cross_le h (map cross_row (add_sessions rs []))
    ∙ cross_rows-sum h f (add_sessions rs []) e

-- The same from the reports of the sessions.
pub per_server-sum :
    (h : McpServerCrossWaste → ℕ) (f : Text → ServerAcc → ℕ) (g : McpServerWaste → ℕ)
    (rs : List WasteReport)
    → ((server : Text) (a : ServerAcc) → h (cross_row (server, a)) ≡ f server a)
    → ((server : Text) → f server no_sessions ≡ 0)
    → ((sw : McpServerWaste) (a : ServerAcc) → f sw.server (add_server sw a) ≡ f sw.server a + g sw)
    → sum_by h (aggregate_waste rs).per_server ≡ sum_by (λ r. sum_by g r.server_waste) rs
per_server-sum h f g rs e z adds =
    per_server-entries h f rs e ∙ (add_sessions-sum f g rs [] z adds ∙ zero_add _)

usage_rows-sum :
    (h : McpToolUsageAcrossSessions → ℕ) (f : Text → ToolAcc → ℕ) (tools : BTreeMap Text ToolAcc)
    → ((name : Text) (a : ToolAcc) → h (usage_row (name, a)) ≡ f name a)
    → sum_by h (map usage_row tools) ≡ sum_entries f tools
usage_rows-sum h f [] e = refl
usage_rows-sum h f ((name, a) ∷ tools) e = omega (arith, e name a, usage_rows-sum h f tools e)

-- A number of the tools' rows of one server.
pub cross_row-usage :
    (h : McpToolUsageAcrossSessions → ℕ) (f : Text → ToolAcc → ℕ) (server : Text) (a : ServerAcc)
    → ((name : Text) (t : ToolAcc) → h (usage_row (name, t)) ≡ f name t)
    → sum_by h (cross_row (server, a)).tool_usage ≡ sum_entries f a.tools
unfolding cross_row
cross_row-usage h f server a e =
    sum_by-sort_by by_tool_name h (map usage_row a.tools) ∙ usage_rows-sum h f a.tools e

-- What one more session adds to a number of the tools of a server.
pub add_server-tools :
    (f : Text → ToolAcc → ℕ) (g : McpToolWaste → ℕ) (sw : McpServerWaste) (a : ServerAcc)
    → ((name : Text) → f name no_calls ≡ 0)
    → ((t : McpToolWaste) (b : ToolAcc) → f t.tool_name (add_tool t b) ≡ f t.tool_name b + g t)
    → sum_entries f (add_server sw a).tools ≡ sum_entries f a.tools + sum_by g sw.tools
unfolding add_server
add_server-tools f g sw a z h = add_tools-sum f g sw.tools a.tools z h

add_servers-IsOrdered :
    (sws : List McpServerWaste) (acc : BTreeMap Text ServerAcc)
    → IsOrdered acc
    → IsOrdered (add_servers sws acc)
unfolding add_servers
add_servers-IsOrdered [] acc h = h
add_servers-IsOrdered (sw ∷ sws) acc h =
    add_servers-IsOrdered sws _ (upsert-IsOrdered sw.server no_sessions (add_server sw) acc h)

pub add_sessions-IsOrdered :
    (rs : List WasteReport) (acc : BTreeMap Text ServerAcc)
    → IsOrdered acc
    → IsOrdered (add_sessions rs acc)
unfolding add_sessions
add_sessions-IsOrdered [] acc h = h
add_sessions-IsOrdered (r ∷ rs) acc h =
    add_sessions-IsOrdered rs _ (add_servers-IsOrdered r.server_waste acc h)
