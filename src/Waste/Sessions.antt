-- ===== src/Waste/Sessions.antt =====
-- The report over several sessions adds up those of the sessions.
use agentprof.Base.{
  ℕ, ◌+◌, ◌≡◌, ◌≤◌, ◌⊎◌, true, List, [], ◌∷◌, map, length, if◌then◌else◌, arith, refl, ◌∙◌, ltb,
}
use agentprof.Base.Sort.{sum_by-one, sum_by, IsSortedBy, IsPreorder, sort_by-IsSortedBy}
use agentprof.Order.{Text, text_ord, text_cmp_eq, text_cmp_swap, text_cmp_trans, eqb}
use agentprof.Map.{sum_entries, IsOrdered-one_entry}
use agentprof.Waste.Report.{
  McpToolWaste, McpServerWaste, WasteReport, McpToolUsageAcrossSessions, McpServerCrossWaste,
  AggregateWasteReport,
}
use agentprof.Waste.Across.{
  ToolAcc, ServerAcc, no_sessions, add_tool, add_server, add_sessions, usage_row, cross_row,
  cross_le, aggregate_waste,
}
use agentprof.Waste.CrossRows.{
  per_server-entries, per_server-sum, cross_row-usage, add_server-tools, add_sessions-IsOrdered,
}

cross_le_total : (a b : McpServerCrossWaste) → (cross_le a b ≡ true) ⊎ (cross_le b a ≡ true)
unfolding cross_le
cross_le_total a b =
    ground (arith, text_cmp_swap a.server b.server, text_cmp_swap b.server a.server)

cross_le_trans :
    (a b c : McpServerCrossWaste) → cross_le a b ≡ true → cross_le b c ≡ true → cross_le a c ≡ true
unfolding cross_le
cross_le_trans a b c h k = grind (
  arith,
  text_cmp_eq a.server b.server,
  text_cmp_eq b.server c.server,
  text_cmp_eq a.server c.server,
  text_cmp_trans a.server b.server c.server,
)

cross_le-IsPreorder : IsPreorder cross_le
cross_le-IsPreorder = record { total = cross_le_total; trans = cross_le_trans }

-- A number of the rows of one server.
abbrev pub of_server : Text → (McpServerCrossWaste → ℕ) → List McpServerCrossWaste → ℕ
of_server server h = sum_by (λ s. if eqb s.server server then h s else 0)

-- A number of a server in the reports of the sessions.
abbrev pub in_sessions : Text → (McpServerWaste → ℕ) → List WasteReport → ℕ
in_sessions server g =
    sum_by (λ r. sum_by (λ sw. if eqb sw.server server then g sw else 0) r.server_waste)

-- A number of the rows of one tool, and of the tool in one session.
abbrev pub of_tool : Text → (McpToolUsageAcrossSessions → ℕ) → List McpToolUsageAcrossSessions → ℕ
of_tool tool h = sum_by (λ u. if eqb u.tool_name tool then h u else 0)

abbrev pub in_session : Text → (McpToolWaste → ℕ) → List McpToolWaste → ℕ
in_session tool g = sum_by (λ t. if eqb t.tool_name tool then g t else 0)

-- A number of a server's row is the sum of the server's numbers in the sessions.
of_server-in_sessions :
    (server : Text) (h : McpServerCrossWaste → ℕ) (f : ServerAcc → ℕ) (g : McpServerWaste → ℕ)
    (rs : List WasteReport)
    → ((name : Text) (a : ServerAcc) → h (cross_row (name, a)) ≡ f a)
    → f no_sessions ≡ 0
    → ((sw : McpServerWaste) (a : ServerAcc) → f (add_server sw a) ≡ f a + g sw)
    → of_server server h (aggregate_waste rs).per_server ≡ in_sessions server g rs
unfolding cross_row
of_server-in_sessions server h f g rs e z adds =
    per_server-sum (λ s. if eqb s.server server then h s else 0)
      (λ name a. if eqb name server then f a else 0)
      (λ sw. if eqb sw.server server then g sw else 0) rs (λ name a. ground (arith, e name a))
      (λ name. ground (arith, z)) (λ sw a. ground (arith, adds sw a))

-- The same of a tool of the server.
of_tool-in_sessions :
    (server tool : Text) (h : McpToolUsageAcrossSessions → ℕ) (f : ToolAcc → ℕ)
    (g : McpToolWaste → ℕ) (rs : List WasteReport)
    → ((name : Text) (a : ToolAcc) → h (usage_row (name, a)) ≡ f a)
    → f (record { sessions_loaded = 0; sessions_called = 0; total_call_count = 0 }) ≡ 0
    → ((t : McpToolWaste) (a : ToolAcc) → f (add_tool t a) ≡ f a + g t)
    → of_server server (λ s. of_tool tool h s.tool_usage) (aggregate_waste rs).per_server
      ≡ in_sessions server (λ sw. in_session tool g sw.tools) rs
of_tool-in_sessions server tool h f g rs e z adds =
    let pick : Text → ToolAcc → ℕ = λ name a. if eqb name tool then f a else 0 in
    of_server-in_sessions server (λ s. of_tool tool h s.tool_usage) (λ a. sum_entries pick a.tools)
      (λ sw. in_session tool g sw.tools) rs
      (λ name a.
        cross_row-usage (λ u. if eqb u.tool_name tool then h u else 0) pick name a
          (λ own t. ground (arith, e own t)))
      refl
      (λ sw a.
        add_server-tools pick (λ t. if eqb t.tool_name tool then g t else 0) sw a
          (λ own. ground (arith, z)) (λ t b. ground (arith, adds t b)))

-- The numbers of one server: it has at most one row, and each number of the row is the sum of
-- those of the server in the sessions, and so for each of its tools.
pub record IsServerSum (server : Text) (rs : List WasteReport) (rows : List McpServerCrossWaste)
    : Type 0 where
  pub one_row : of_server server (λ s. 1) rows ≤ 1
  pub loaded : of_server server (λ s. s.sessions_loaded) rows ≡ in_sessions server (λ sw. 1) rs
  pub zero_calls :
      of_server server (λ s. s.sessions_with_zero_calls) rows
      ≡ in_sessions server (λ sw. if sw.is_fully_unused then 1 else 0) rs
  pub tokens :
      of_server server (λ s. s.total_unused_tokens) rows
      ≡ in_sessions server (λ sw. sw.unused_tokens) rs
  pub tool_loaded :
      (tool : Text)
      → of_server server (λ s. of_tool tool (λ u. u.sessions_loaded) s.tool_usage) rows
        ≡ in_sessions server (λ sw. in_session tool (λ t. 1) sw.tools) rs
  pub tool_called :
      (tool : Text)
      → of_server server (λ s. of_tool tool (λ u. u.sessions_called) s.tool_usage) rows
        ≡ in_sessions server
            (λ sw. in_session tool (λ t. if ltb 0 t.call_count then 1 else 0) sw.tools)
            rs
  pub tool_calls :
      (tool : Text)
      → of_server server (λ s. of_tool tool (λ u. u.total_call_count) s.tool_usage) rows
        ≡ in_sessions server (λ sw. in_session tool (λ t. t.call_count) sw.tools) rs

-- The numbers of a report over sessions are the sums of those of the sessions, in total and for
-- each server and tool.
pub record IsAggregated (rs : List WasteReport) (w : AggregateWasteReport) : Type 0 where
  pub sessions : w.sessions ≡ length rs
  pub servers : (server : Text) → IsServerSum server rs w.per_server
  pub loaded : sum_by (λ s. s.sessions_loaded) w.per_server ≡ sum_by (λ r. length r.server_waste) rs
  pub zero_calls :
      sum_by (λ s. s.sessions_with_zero_calls) w.per_server
      ≡ sum_by (λ r. sum_by (λ sw. if sw.is_fully_unused then 1 else 0) r.server_waste) rs
  pub calls :
      sum_by (λ s. sum_by (λ u. u.total_call_count) s.tool_usage) w.per_server
      ≡ sum_by (λ r. sum_by (λ sw. sum_by (λ t. t.call_count) sw.tools) r.server_waste) rs
  pub tokens :
      w.total_unused_tokens ≡ sum_by (λ r. sum_by (λ sw. sw.unused_tokens) r.server_waste) rs
  pub sorted : IsSortedBy cross_le w.per_server

sum_by_lengths :
    (rs : List WasteReport)
    → sum_by (λ r. sum_by (λ s. 1) r.server_waste) rs ≡ sum_by (λ r. length r.server_waste) rs
sum_by_lengths [] = refl
sum_by_lengths (r ∷ rs) = omega (arith, sum_by-one r.server_waste, sum_by_lengths rs)

aggregate_waste-IsServerSum :
    (server : Text) (rs : List WasteReport) → IsServerSum server rs (aggregate_waste rs).per_server
unfolding add_server cross_row add_tool
aggregate_waste-IsServerSum server rs = record {
  one_row = omega (
    arith,
    per_server-entries (λ s. if eqb s.server server then 1 else 0)
        (λ name a. if eqb name server then 1 else 0) rs (λ name a. refl),
    IsOrdered-one_entry server (add_sessions rs []) (add_sessions-IsOrdered rs [] tt),
  );
  loaded =
      of_server-in_sessions server (λ s. s.sessions_loaded) (λ a. a.sessions_loaded) (λ sw. 1) rs
        (λ name a. refl) refl (λ sw a. refl);
  zero_calls =
      of_server-in_sessions server (λ s. s.sessions_with_zero_calls)
        (λ a. a.sessions_with_zero_calls) (λ sw. if sw.is_fully_unused then 1 else 0) rs
        (λ name a. refl) refl (λ sw a. ground arith);
  tokens =
      of_server-in_sessions server (λ s. s.total_unused_tokens) (λ a. a.total_unused_tokens)
        (λ sw. sw.unused_tokens) rs (λ name a. refl) refl (λ sw a. refl);
  tool_loaded = λ tool.
      of_tool-in_sessions server tool (λ u. u.sessions_loaded) (λ a. a.sessions_loaded) (λ t. 1) rs
        (λ name a. refl) refl (λ t a. refl);
  tool_called = λ tool.
      of_tool-in_sessions server tool (λ u. u.sessions_called) (λ a. a.sessions_called)
        (λ t. if ltb 0 t.call_count then 1 else 0) rs (λ name a. refl) refl (λ t a. ground arith);
  tool_calls = λ tool.
      of_tool-in_sessions server tool (λ u. u.total_call_count) (λ a. a.total_call_count)
        (λ t. t.call_count) rs (λ name a. refl) refl (λ t a. refl);
}

-- Over any sessions a server has at most one row, and the numbers of the row are the sums of the
-- server's numbers in the sessions: in how many it was loaded, in how many it was not called, its
-- unused tokens, and for each tool in how many sessions it was loaded, in how many it was called,
-- and its calls. No session, call or unused token is left out of the totals, and the servers
-- with more sessions without calls go first, then the names in order.
pub aggregate_waste-IsAggregated : (rs : List WasteReport) → IsAggregated rs (aggregate_waste rs)
unfolding add_server cross_row aggregate_waste
aggregate_waste-IsAggregated rs = record {
  sessions = refl;
  servers = λ server. aggregate_waste-IsServerSum server rs;
  loaded =
      per_server-sum (λ s. s.sessions_loaded) (λ name a. a.sessions_loaded) (λ sw. 1) rs
        (λ name a. refl) (λ name. refl) (λ sw a. refl)
      ∙ sum_by_lengths rs;
  zero_calls =
      per_server-sum (λ s. s.sessions_with_zero_calls) (λ name a. a.sessions_with_zero_calls)
        (λ sw. if sw.is_fully_unused then 1 else 0) rs (λ name a. refl) (λ name. refl)
        (λ sw a. ground arith);
  calls =
      let calls_of : Text → ToolAcc → ℕ = λ name a. a.total_call_count in
      per_server-sum (λ s. sum_by (λ u. u.total_call_count) s.tool_usage)
        (λ name a. sum_entries calls_of a.tools) (λ sw. sum_by (λ t. t.call_count) sw.tools) rs
        (λ name a. cross_row-usage (λ u. u.total_call_count) calls_of name a (λ own t. refl))
        (λ name. refl)
        (λ sw a. add_server-tools calls_of (λ t. t.call_count) sw a (λ own. refl) (λ t b. refl));
  tokens =
      per_server-sum (λ s. s.total_unused_tokens) (λ name a. a.total_unused_tokens)
        (λ sw. sw.unused_tokens) rs (λ name a. refl) (λ name. refl) (λ sw a. refl);
  sorted = sort_by-IsSortedBy cross_le cross_le-IsPreorder (map cross_row (add_sessions rs []));
}
