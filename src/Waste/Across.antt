-- ===== src/Waste/Across.antt =====
-- crates/agentprof-core/src/analyzer/waste.rs: `aggregate_waste`, over the reports of several
-- sessions, whose references it does not read.
use Prim.Native.Nat.{compare, Ordering}
use agentprof.Base.{
  ℕ, ◌+◌, Bool, true, false, ◌&&◌, List, [], ◌∷◌, ◌++◌, map, length, ltb, ◌==◌, if◌then◌else◌,
}
use agentprof.Base.Sort.{sort_by, sum_by}
use agentprof.Order.{Text, text_ord, text_cmp, eqb}
use agentprof.Map.{BTreeMap, upsert}
use agentprof.Waste.Report.{
  McpToolWaste, McpServerWaste, WasteReport, McpToolUsageAcrossSessions, McpServerCrossWaste,
  AggregateWasteReport,
}
use agentprof.Waste.Servers.{is_called, not_gt}

pub record ToolAcc : Type 0 where
  pub sessions_loaded : ℕ
  pub sessions_called : ℕ
  pub total_call_count : ℕ

pub record ServerAcc : Type 0 where
  pub sessions_loaded : ℕ
  pub sessions_with_zero_calls : ℕ
  pub total_unused_tokens : ℕ
  pub tools : BTreeMap Text ToolAcc

abbrev pub no_calls : ToolAcc
no_calls = record { sessions_loaded = 0; sessions_called = 0; total_call_count = 0 }

abbrev pub no_sessions : ServerAcc
no_sessions = record {
  sessions_loaded = 0;
  sessions_with_zero_calls = 0;
  total_unused_tokens = 0;
  tools = [];
}

unfoldable pub add_tool : McpToolWaste → ToolAcc → ToolAcc
add_tool t a = record {
  sessions_loaded = a.sessions_loaded + 1;
  sessions_called = if is_called t then a.sessions_called + 1 else a.sessions_called;
  total_call_count = a.total_call_count + t.call_count;
}

unfoldable pub add_tools : List McpToolWaste → BTreeMap Text ToolAcc → BTreeMap Text ToolAcc
unfolding add_tool
add_tools [] acc = acc
add_tools (t ∷ ts) acc = add_tools ts (upsert t.tool_name no_calls (add_tool t) acc)

unfoldable pub add_server : McpServerWaste → ServerAcc → ServerAcc
unfolding add_tools
add_server sw a = record {
  sessions_loaded = a.sessions_loaded + 1;
  sessions_with_zero_calls =
      if sw.is_fully_unused then a.sessions_with_zero_calls + 1 else a.sessions_with_zero_calls;
  total_unused_tokens = a.total_unused_tokens + sw.unused_tokens;
  tools = add_tools sw.tools a.tools;
}

unfoldable pub add_servers : List McpServerWaste → BTreeMap Text ServerAcc → BTreeMap Text ServerAcc
unfolding add_server
add_servers [] acc = acc
add_servers (sw ∷ sws) acc = add_servers sws (upsert sw.server no_sessions (add_server sw) acc)

unfoldable pub add_sessions : List WasteReport → BTreeMap Text ServerAcc → BTreeMap Text ServerAcc
unfolding add_servers
add_sessions [] acc = acc
add_sessions (r ∷ rs) acc = add_sessions rs (add_servers r.server_waste acc)

abbrev pub usage_row : Text × ToolAcc → McpToolUsageAcrossSessions
usage_row (tool_name, a) = record {
  tool_name = tool_name;
  sessions_loaded = a.sessions_loaded;
  sessions_called = a.sessions_called;
  total_call_count = a.total_call_count;
}

abbrev pub by_tool_name : McpToolUsageAcrossSessions → McpToolUsageAcrossSessions → Bool
by_tool_name a b = not_gt (text_cmp a.tool_name b.tool_name)

unfoldable pub cross_row : Text × ServerAcc → McpServerCrossWaste
cross_row (server, a) = record {
  server = server;
  sessions_loaded = a.sessions_loaded;
  sessions_with_zero_calls = a.sessions_with_zero_calls;
  tool_usage = sort_by by_tool_name (map usage_row a.tools);
  total_unused_tokens = a.total_unused_tokens;
}

unfoldable pub never_called : BTreeMap Text ToolAcc → List Text
never_called [] = []
never_called ((tool_name, a) ∷ tools) =
    let rest = never_called tools in
    if a.sessions_called == 0 && ltb 0 a.sessions_loaded then tool_name ∷ rest else rest

unfoldable pub never_called_in : BTreeMap Text ServerAcc → List Text
unfolding never_called
never_called_in [] = []
never_called_in ((server, a) ∷ acc) = never_called a.tools ++ never_called_in acc

-- More sessions without calls first, then by the name of the server.
unfoldable pub cross_le : McpServerCrossWaste → McpServerCrossWaste → Bool
cross_le a b = elim (compare b.sessions_with_zero_calls a.sessions_with_zero_calls) [
  | Ordering.lt ↦ true
  | Ordering.gt ↦ false
  | Ordering.eq ↦ not_gt (text_cmp a.server b.server)
]

abbrev pub text_le : Text → Text → Bool
text_le a b = not_gt (text_cmp a b)

-- `Vec::dedup`: an element is dropped if the one before it, which is kept, is equal.
unfoldable pub dedup_behind : Text → List Text → List Text
dedup_behind x [] = []
dedup_behind x (y ∷ ys) = let rest = dedup_behind y ys in if eqb y x then rest else y ∷ rest

unfoldable pub dedup : List Text → List Text
unfolding dedup_behind
dedup [] = []
dedup (x ∷ xs) = x ∷ dedup_behind x xs

unfoldable pub aggregate_waste : List WasteReport → AggregateWasteReport
unfolding add_sessions cross_row cross_le never_called_in dedup
aggregate_waste per_session =
    let acc = add_sessions per_session [] in
    let per_server = sort_by cross_le (map cross_row acc) in
    record {
      sessions = length per_session;
      per_server = per_server;
      never_called_tools = dedup (sort_by text_le (never_called_in acc));
      total_unused_tokens = sum_by (λ s. s.total_unused_tokens) per_server;
    }
