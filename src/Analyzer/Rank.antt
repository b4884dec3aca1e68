-- ===== src/Analyzer/Rank.antt =====
-- analyzer/tool_rank.rs and analyzer/hook_rank.rs: one row for each tool and for each hook.
use agentprof.Base.{ℕ, Bool, true, false, not, List, [], ◌∷◌, map, count, filter, any, length, ltb}
use agentprof.Base.Int.{ℤ, leb_ℤ}
use agentprof.Base.Sort.{sort_by}
use agentprof.Order.{Text, text, text_ord, eqb}
use agentprof.Map.{BTreeMap}
use agentprof.Model.ToolSource.{ToolSource}
use agentprof.Episode.{
  span_duration, ToolCallStatus, success, failure, orphan_synthesized_start, open_at_end_of_session,
  ToolEpisode, HookEpisode, Episodes,
}
use agentprof.Analyzer.Stats.{percentile_nearest_rank, sorted_durations, last_or_zero}

abbrev pub user_blocking_tools : List Text
user_blocking_tools = text "ask_user" ∷ []

-- `USER_BLOCKING_TOOLS.contains(..)`
unfoldable pub is_user_blocking_tool : Text → Bool
is_user_blocking_tool name = any (eqb name) user_blocking_tools

abbrev pub succeeded : ToolCallStatus → Bool
succeeded success = true
succeeded _ = false

abbrev pub failed : ToolCallStatus → Bool
failed (failure message) = true
failed _ = false

abbrev pub unpaired : ToolCallStatus → Bool
unpaired orphan_synthesized_start = true
unpaired open_at_end_of_session = true
unpaired _ = false

pub record ToolRankRow : Type 0 where
  pub name : Text
  pub source : ToolSource
  pub call_count : ℕ
  pub success_count : ℕ
  pub failure_count : ℕ
  pub orphan_count : ℕ
  pub user_requested_count : ℕ
  pub total_duration : ℤ
  pub p50_duration : ℤ
  pub p95_duration : ℤ
  pub max_duration : ℤ
  pub is_user_blocking : Bool

pub record HookRankRow : Type 0 where
  pub name : Text
  pub call_count : ℕ
  pub success_count : ℕ
  pub failure_count : ℕ
  pub synthesized_start_count : ℕ
  pub total_duration : ℤ
  pub p50_duration : ℤ
  pub p95_duration : ℤ

-- Rows with a longer total duration go first.
abbrev pub longer_tool : ToolRankRow → ToolRankRow → Bool
longer_tool a b = leb_ℤ b.total_duration a.total_duration

abbrev pub longer_hook : HookRankRow → HookRankRow → Bool
longer_hook a b = leb_ℤ b.total_duration a.total_duration

module _ {J : Type 0} where
  unfoldable pub tool_row : Text → ToolEpisode J → ToolRankRow
  tool_row name ep =
      let durations = sorted_durations (map (λ c. span_duration c.span) ep.calls) in
      record {
        name = name;
        source = ep.source;
        call_count = length ep.calls;
        success_count = count (λ c. succeeded c.status) ep.calls;
        failure_count = count (λ c. failed c.status) ep.calls;
        orphan_count = count (λ c. unpaired c.status) ep.calls;
        user_requested_count = count (λ c. c.user_requested) ep.calls;
        total_duration = ep.total_duration;
        p50_duration = percentile_nearest_rank durations 50;
        p95_duration = percentile_nearest_rank durations 95;
        max_duration = last_or_zero durations;
        is_user_blocking = is_user_blocking_tool name;
      }

  -- The rows before they are sorted; names without calls have none.
  unfoldable pub tool_rows : BTreeMap Text (ToolEpisode J) → List ToolRankRow
  tool_rows tools = map (λ e. tool_row e.0 e.1) (filter (λ e. ltb 0 (length e.1.calls)) tools)

  unfoldable pub tool_rank : Episodes J → List ToolRankRow
  unfolding tool_rows tool_row
  tool_rank e = sort_by longer_tool (tool_rows e.tools)

unfoldable pub hook_row : Text → HookEpisode → HookRankRow
hook_row name ep =
    let durations = sorted_durations (map (λ c. span_duration c.span) ep.calls) in
    record {
      name = name;
      call_count = length ep.calls;
      success_count = count (λ c. c.success) ep.calls;
      failure_count = count (λ c. not c.success) ep.calls;
      synthesized_start_count = count (λ c. c.synthesized_start) ep.calls;
      total_duration = ep.total_duration;
      p50_duration = percentile_nearest_rank durations 50;
      p95_duration = percentile_nearest_rank durations 95;
    }

unfoldable pub hook_rows : BTreeMap Text HookEpisode → List HookRankRow
hook_rows hooks = map (λ e. hook_row e.0 e.1) (filter (λ e. ltb 0 (length e.1.calls)) hooks)

unfoldable pub hook_rank : {J : Type 0} → Episodes J → List HookRankRow
hook_rank e = sort_by longer_hook (hook_rows e.hooks)
