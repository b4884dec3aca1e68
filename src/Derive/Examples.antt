-- ===== src/Derive/Examples.antt =====
-- Runs of the derivation on small sessions, and the theorems at such sessions.
use agentprof.Base.{ℕ, ◌<◌, ◌≡◌, none, some, List, [], ◌∷◌, arith, refl, length, All, count}
use agentprof.Order.{Text, text, text_ord, text_cmp}
use agentprof.Map.{get, upsert, insert, adjust, remove, insert_elem, extend}
use agentprof.Event.{Event, EventKind}
use agentprof.Model.ToolSource.{infer}
use agentprof.Base.Int.{◌+ℤ◌}
use agentprof.Episode.{Episodes, new_span, instant_span, span_duration, mode_from_wire}
use agentprof.Derive.{
  DeriveState, shrink_windows, new_state, collect_args, collect_requests, run, step, dispatch,
  derive_episodes, finalize, close_all, close_tools, close_tool, close_hooks, close_hook_call,
  finish_segment, observe_timestamp, accumulate_loaded_mcp_tools, on_turn_start, on_turn_end,
  on_assistant_message, on_tool_start, on_tool_complete, on_tool_user_requested, on_hook_start,
  on_hook_end, on_skill_invoked, on_mode_event, on_abort, on_session_shutdown, bump_skill_windows,
  commit_tool_call, commit_hook_call, attribute_to_skills, mark_requested,
}
use agentprof.Derive.Totals.{IsAccounted, derive_episodes-IsAccounted}
use agentprof.Derive.References.Valid.{AreValid}
use agentprof.Derive.References.Kept.{derive_episodes-AreValid}
use agentprof.Derive.Ledger.{IsLedgered, derive_episodes-IsLedgered}
use agentprof.Derive.TurnOrder.{IsSettled, IsLast, run-IsLast, derive_episodes-IsSettled}
use agentprof.Derive.Streams.{Follows, derive_episodes-Follows, is_back}
use agentprof.Derive.Modes.{IsContiguous, StartsAt, derive_episodes-IsContiguous}
use agentprof.Derive.Windows.{Extends, age, run-Extends}
use agentprof.Derive.Invoked.{IsInvoked, invoke-window}
use agentprof.Derive.Requests.{get-collect_args, first_value, all_requests, user_requested_comm}
use agentprof.Derive.Aborts.{Aborts, on_abort-Aborts}

-- An event with nothing but its kind, id and timestamp.
abbrev plain : EventKind → Text → ℕ → Event ℕ
plain kind id timestamp = record {
  id = id;
  kind = kind;
  timestamp = timestamp;
  parent_id = none;
  payload_name = none;
  payload_model = none;
  payload_output_tokens = none;
  payload_mode = none;
  payload_tool_requests = [];
  payload_success = none;
  payload_error_message = none;
  tool_call_id = none;
  payload_model_metrics = none;
  payload_loaded_mcp_tools = [];
}

abbrev named : EventKind → Text → ℕ → Text → Event ℕ
named kind id timestamp name = record (plain kind id timestamp) { payload_name = some name }

abbrev call_event : EventKind → Text → ℕ → Text → Event ℕ
call_event kind id timestamp call_id = record (plain kind id timestamp) {
  payload_name = some (text "bash");
  tool_call_id = some call_id;
}

abbrev message : Event ℕ
message = record (plain EventKind.assistant_message (text "m1") 2) {
  payload_model = some (text "gpt");
  payload_output_tokens = some 40;
  payload_tool_requests = (text "c1", 7) ∷ (text "c1", 8) ∷ [];
}

abbrev to_plan : Event ℕ
to_plan = record (plain EventKind.mode_changed (text "p") 8) { payload_mode = some (text "plan") }

-- A turn with a tool call, a hook and a skill; an orphan completion; a timestamp that goes back.
abbrev session : List (Event ℕ)
session =
    plain EventKind.turn_start (text "t1") 1
    ∷ message
    ∷ named EventKind.skill_invoked (text "s1") 3 (text "brainstorm")
    ∷ call_event EventKind.tool_user_requested (text "u1") 3 (text "c1")
    ∷ call_event EventKind.tool_exec_start (text "b1") 4 (text "c1")
    ∷ named EventKind.hook_start (text "h1") 5 (text "PreToolUse")
    ∷ named EventKind.hook_end (text "h2") 6 (text "PreToolUse")
    ∷ call_event EventKind.tool_exec_complete (text "b2") 7 (text "c1")
    ∷ call_event EventKind.tool_exec_complete (text "b3") 7 (text "c2")
    ∷ to_plan
    ∷ plain EventKind.turn_end (text "t2") 5
    ∷ plain EventKind.abort (text "a1") 9
    ∷ named EventKind.tool_exec_start (text "b4") 10 (text "ask_user")
    ∷ []

derivation : Unit {0}
unfolding derive_episodes finalize close_all close_tools close_tool close_hooks close_hook_call
    finish_segment new_state collect_args collect_requests run step dispatch observe_timestamp
    accumulate_loaded_mcp_tools on_turn_start on_turn_end on_assistant_message on_tool_start
    on_tool_complete on_tool_user_requested on_hook_start on_hook_end on_skill_invoked on_mode_event
    on_abort on_session_shutdown bump_skill_windows commit_tool_call commit_hook_call
    attribute_to_skills mark_requested shrink_windows get upsert insert adjust remove insert_elem
    extend text_cmp infer ◌+ℤ◌ new_span instant_span span_duration mode_from_wire
derivation = tt

abbrev result : Episodes ℕ
result = derive_episodes session 0

session_counts :
    (length result.turns ≡ 1)
    × (length result.tools ≡ 3)
    × (length result.hooks ≡ 1)
    × (length result.skills ≡ 1)
    × (length result.mode_segments ≡ 2)
    × (length result.aborts ≡ 1)
    × (length result.warnings ≡ 4)
    × (count is_back result.warnings ≡ 1)
unfolding derivation
session_counts = (refl, refl, refl, refl, refl, refl, refl, refl)

first_arguments_win : get (text "c1") (collect_args session []) ≡ some 7
unfolding derivation
first_arguments_win = refl

derive_episodes-IsAccounted_example : IsAccounted session (derive_episodes session 0)
derive_episodes-IsAccounted_example = derive_episodes-IsAccounted session 0

derive_episodes-AreValid_example : AreValid result.turns result.tools result.hooks result.skills
derive_episodes-AreValid_example = derive_episodes-AreValid session 0

derive_episodes-IsLedgered_example : IsLedgered result.tools result.hooks
derive_episodes-IsLedgered_example = derive_episodes-IsLedgered session 0

derive_episodes-IsSettled_example : All IsSettled result.turns
derive_episodes-IsSettled_example = derive_episodes-IsSettled session 0

derive_episodes-Follows_example : Follows session result
derive_episodes-Follows_example = derive_episodes-Follows session 0

derive_episodes-IsContiguous_example :
    IsContiguous result.mode_segments × StartsAt 0 result.mode_segments
derive_episodes-IsContiguous_example = derive_episodes-IsContiguous session 0

-- The state behind the first five events: a turn, a tool call and a window are open.
abbrev early : List (Event ℕ)
early =
    plain EventKind.turn_start (text "t1") 1
    ∷ named EventKind.skill_invoked (text "s1") 3 (text "brainstorm")
    ∷ call_event EventKind.tool_exec_start (text "b1") 4 (text "c1")
    ∷ []

abbrev midway : DeriveState ℕ
midway = run (new_state 0 (collect_args early [])) early

run-IsLast_example : IsLast midway.open_turn_idx (length midway.turns)
run-IsLast_example = run-IsLast early 0

midway_windows : All (λ o. 0 < o.window_remaining) midway.open_skills
unfolding derivation
midway_windows = omega arith

run-Extends_example : Extends (age 13 midway.open_skills) (run midway session).open_skills
run-Extends_example = run-Extends midway session midway_windows

abbrev to_plan_again : Event ℕ
to_plan_again = named EventKind.skill_invoked (text "s2") 9 (text "plan")

invoke-window_example :
    IsInvoked
      (text "plan")
      9
      (shrink_windows midway.open_skills)
      49
      midway
      (step midway to_plan_again)
invoke-window_example = invoke-window to_plan_again midway refl

get-collect_args_example :
    get (text "c1") (collect_args session []) ≡ first_value (text "c1") (all_requests session)
get-collect_args_example = get-collect_args (text "c1") session

midway_fresh : mark_requested (text "c9") midway.open_tool_calls ≡ none
unfolding derivation
midway_fresh = refl

midway_unmarked : get (text "c9") midway.pending_user_requested_tool_call_ids ≡ none
unfolding derivation
midway_unmarked = refl

user_requested_comm_example :
    on_tool_start (call_event EventKind.tool_exec_start (text "b9") 5 (text "c9")) (
      on_tool_user_requested
        (call_event EventKind.tool_user_requested (text "u9") 5 (text "c9"))
        midway)
    ≡ on_tool_user_requested
        (call_event EventKind.tool_user_requested (text "u9") 5 (text "c9"))
        (on_tool_start (call_event EventKind.tool_exec_start (text "b9") 5 (text "c9")) midway)
user_requested_comm_example =
    user_requested_comm (call_event EventKind.tool_user_requested (text "u9") 5 (text "c9"))
      (call_event EventKind.tool_exec_start (text "b9") 5 (text "c9")) midway (text "c9") refl refl
      midway_fresh midway_unmarked

on_abort-Aborts_example :
    Aborts
      (plain EventKind.abort (text "a9") 9)
      midway
      (on_abort (plain EventKind.abort (text "a9") 9) midway)
on_abort-Aborts_example = on_abort-Aborts (plain EventKind.abort (text "a9") 9) midway
