-- ===== src/Analyzer/Examples.antt =====
-- Runs of the analyzer on small sessions, and the theorems at such sessions.
use agentprof.Base.{ℕ, ◌≡◌, none, some, List, [], ◌∷◌, true, arith, refl, map}
use agentprof.Base.Int.{ℤ, pos, leb_ℤ, ◌≤ℤ◌, sub_ℕ}
use agentprof.Base.Sort.{IsSortedBy, sort_by, insert_by}
use agentprof.Order.{Text, text, text_ord, text_cmp}
use agentprof.Event.{Event, EventKind}
use agentprof.Model.ToolSource.{builtin}
use agentprof.Episode.{
  Episodes, ToolEpisode, ToolCall, ToolCallStatus, success, failure, open_at_end_of_session,
  HookEpisode, span_duration,
}
use agentprof.Derive.{derive_episodes}
use agentprof.Analyzer.Stats.{percentile_nearest_rank, rank_index, sorted_durations}
use agentprof.Analyzer.Rank.{tool_rank, tool_rows, tool_row, hook_rank, is_user_blocking_tool}
use agentprof.Analyzer.Pending.{
  pending_calls, is_pending, pending_of_calls, pending_of_tools, pending_le, by_blocking, by_name,
  threshold_for,
}
use agentprof.Analyzer.Summary.{SessionMeta, copilot, analyze}
use agentprof.Analyzer.Percentiles.{percentile_nearest_rank_mono}
use agentprof.Analyzer.Ranking.{RanksTools, tool_rank-Ranks, RanksHooks, hook_rank-Ranks}
use agentprof.Analyzer.Waiting.{ListsPending, pending_calls-Lists}
use agentprof.Analyzer.Reports.{ShowsAll, analyze-ShowsAll}

abbrev durations : List ℤ
durations = pos 1 ∷ pos 2 ∷ pos 3 ∷ pos 4 ∷ []

durations-IsSorted : IsSortedBy leb_ℤ durations
durations-IsSorted = ((refl, (refl, (refl, tt))), ((refl, (refl, tt)), ((refl, tt), (tt, tt))))

-- The median of the doc test.
upper_midpoint : percentile_nearest_rank durations 50 ≡ pos 3
unfolding percentile_nearest_rank rank_index
upper_midpoint = refl

percentile_nearest_rank_mono_example :
    (percentile_nearest_rank durations 50 ≤ℤ percentile_nearest_rank durations 95)
    × (percentile_nearest_rank durations 95 ≤ℤ pos 4)
percentile_nearest_rank_mono_example =
    percentile_nearest_rank_mono durations 50 95 durations-IsSorted (omega arith)

abbrev call_at : ℕ → ℕ → ToolCallStatus → ToolCall ℕ
call_at from to status = record {
  span = record { started_at = from; ended_at = to };
  turn_id = none;
  status = status;
  user_requested = true;
  arguments = none;
}

abbrev ask_user : ToolEpisode ℕ
ask_user = record {
  name = text "ask_user";
  source = builtin;
  calls = call_at 5 6 open_at_end_of_session ∷ [];
  total_duration = pos 1;
  fail_count = 0;
}

abbrev bash : ToolEpisode ℕ
bash = record {
  name = text "bash";
  source = builtin;
  calls =
      call_at 1 4 success
      ∷ call_at 2 6 (failure none)
      ∷ call_at 3 6 open_at_end_of_session
      ∷ call_at 4 6 open_at_end_of_session
      ∷ [];
  total_duration = pos 12;
  fail_count = 1;
}

abbrev pre_tool_use : HookEpisode
pre_tool_use = record {
  name = text "PreToolUse";
  calls =
      record {
        span = record { started_at = 1; ended_at = 3 };
        turn_id = none;
        success = true;
        synthesized_start = true;
      }
      ∷ [];
  total_duration = pos 2;
  failure_count = 0;
}

abbrev episodes : Episodes ℕ
episodes = record {
  turns = [];
  tools = (text "ask_user", ask_user) ∷ (text "bash", bash) ∷ [];
  hooks = (text "PreToolUse", pre_tool_use) ∷ [];
  skills = [];
  mode_segments = [];
  aborts = [];
  warnings = [];
  model_metrics = none;
  loaded_mcp_tools = [];
}

-- Bash has the longer total.
longest_first :
    map {B = ℕ × ℤ} (λ r. (r.call_count, r.p50_duration)) (tool_rank episodes)
    ≡ (4, pos 3) ∷ (1, pos 1) ∷ []
unfolding tool_rank tool_rows tool_row sort_by insert_by percentile_nearest_rank rank_index
    sorted_durations span_duration sub_ℕ is_user_blocking_tool text_cmp
longest_first = refl

tool_rank-Ranks_example : RanksTools episodes (tool_rank episodes)
tool_rank-Ranks_example = tool_rank-Ranks episodes

hook_rank-Ranks_example : RanksHooks episodes (hook_rank episodes)
hook_rank-Ranks_example = hook_rank-Ranks episodes

-- Six minutes on, in nanoseconds.
abbrev later : ℕ
later = 360000000000

all_pending :
    map {B = Text × ℕ} (λ p. (p.tool_name, p.started_at)) (pending_calls episodes later)
    ≡ (text "ask_user", 5) ∷ (text "bash", 3) ∷ (text "bash", 4) ∷ []
unfolding pending_calls pending_of_tools pending_of_calls is_pending threshold_for sort_by insert_by
    pending_le by_blocking by_name sub_ℕ is_user_blocking_tool text_cmp
all_pending = refl

pending_calls-Lists_example : ListsPending later episodes (pending_calls episodes later)
pending_calls-Lists_example = pending_calls-Lists episodes later

abbrev start_event : EventKind → Text → ℕ → Text → Event ℕ
start_event kind id timestamp name = record {
  id = id;
  kind = kind;
  timestamp = timestamp;
  parent_id = none;
  payload_name = some name;
  payload_model = none;
  payload_output_tokens = none;
  payload_mode = none;
  payload_tool_requests = [];
  payload_success = none;
  payload_error_message = none;
  tool_call_id = none;
  payload_model_metrics = none;
  payload_loaded_mcp_tools = [];
}

-- A turn, a tool and a hook whose ends are out of order.
abbrev events : List (Event ℕ)
events =
    start_event EventKind.tool_exec_complete (text "e1") 1 (text "bash")
    ∷ start_event EventKind.turn_start (text "e2") 2 (text "t")
    ∷ start_event EventKind.tool_exec_start (text "e3") 3 (text "bash")
    ∷ start_event EventKind.hook_start (text "e4") 3 (text "PreToolUse")
    ∷ []

abbrev meta : SessionMeta
meta = record {
  id = text "s";
  agent = copilot;
  producer = none;
  agent_version = none;
  started_at = 0;
  cwd = none;
  repository = none;
  branch = none;
  is_live = true;
}

analyze-ShowsAll_example : ShowsAll events (analyze (derive_episodes events 0) meta [])
analyze-ShowsAll_example = analyze-ShowsAll events 0 meta []
