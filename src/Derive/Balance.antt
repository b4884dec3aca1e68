-- ===== src/Derive/Balance.antt =====
-- Each start, and each end that had no start, yields exactly one turn, call or invocation.
use agentprof.Base.{
  if◌then◌else◌, Bool, true, false, ℕ, ◌+◌, ◌≡◌, Option, none, some, List, [], ◌∷◌, ◌++◌, arith,
  length, count, length-append, count-append, length-modify_at, Option-cases, inl, inr,
}
use agentprof.Order.{Text, text_ord}
use agentprof.Event.{Event, EventKind}
use agentprof.Derive.{
  DeriveState, OpenToolCall, commit_tool_call, commit_hook_call, observe_timestamp,
  accumulate_loaded_mcp_tools, bump_skill_windows, dispatch, step, on_turn_start, on_turn_end,
  on_assistant_message, on_tool_start, on_tool_complete, on_tool_user_requested, on_hook_start,
  on_hook_end, on_skill_invoked, on_mode_event, on_abort, on_session_shutdown, mark_requested,
  mark_top,
}
use agentprof.Derive.Counts.{
  turn_orphan, tool_orphan, hook_orphan, tool_call_count, hook_call_count, invocation_count,
  tool_call_count-upsert, hook_call_count-upsert, invocation_count-upsert,
  invocation_count-attribute, length-push_tool_ref, length-push_hook_ref, length-push_skill_ref,
}

-- How many starts of each sort a list of events has.
pub ruleset counts = (
  arith, length-append, count-append, length-modify_at, tool_call_count-upsert,
  hook_call_count-upsert, invocation_count-upsert, invocation_count-attribute, length-push_tool_ref,
  length-push_hook_ref, length-push_skill_ref,
)

pub record Starts : Type 0 where
  pub turns : ℕ
  pub tools : ℕ
  pub hooks : ℕ
  pub skills : ℕ

-- The turns, calls and invocations of a state, open ones included, are the starts so far and the
-- ends that had none.
pub record IsBalanced {J : Type 0} (n : Starts) (s : DeriveState J) : Type 0 where
  pub turns : length s.turns ≡ n.turns + count turn_orphan s.warnings
  pub tools :
      tool_call_count s.tools + length s.open_tool_calls ≡ n.tools + count tool_orphan s.warnings
  pub hooks :
      hook_call_count s.hooks + length s.open_hook_calls ≡ n.hooks + count hook_orphan s.warnings
  pub skills : invocation_count s.skills ≡ n.skills

abbrev pub is_turn_start : EventKind → Bool
is_turn_start EventKind.turn_start = true
is_turn_start _ = false

abbrev pub is_tool_start : EventKind → Bool
is_tool_start EventKind.tool_exec_start = true
is_tool_start _ = false

abbrev pub is_hook_start : EventKind → Bool
is_hook_start EventKind.hook_start = true
is_hook_start _ = false

abbrev pub is_skill_invoked : EventKind → Bool
is_skill_invoked EventKind.skill_invoked = true
is_skill_invoked _ = false

abbrev pub see : EventKind → Starts → Starts
see kind n = record {
  turns = n.turns + (if is_turn_start kind then 1 else 0);
  tools = n.tools + (if is_tool_start kind then 1 else 0);
  hooks = n.hooks + (if is_hook_start kind then 1 else 0);
  skills = n.skills + (if is_skill_invoked kind then 1 else 0);
}

pub length-mark_requested :
    (id : Text) (os os' : List OpenToolCall)
    → mark_requested id os ≡ some os'
    → length os' ≡ length os
unfolding mark_requested
length-mark_requested id [] os' e = ground arith
length-mark_requested id (o ∷ os) os' e = elim (Option-cases (mark_requested id os)) [
  | inl absent ↦ ground arith
  | inr (marked, found) ↦ ground (arith, length-mark_requested id os marked found)
]

pub length-mark_top : (os : List OpenToolCall) → length (mark_top os) ≡ length os
length-mark_top [] = omega arith
length-mark_top (o ∷ os) = omega arith

module _ {J : Type 0} (n : Starts) (ev : Event J) (s : DeriveState J) (h : IsBalanced n s) where
  on_turn_start-IsBalanced : IsBalanced (see EventKind.turn_start n) (on_turn_start ev s)
  unfolding on_turn_start
  on_turn_start-IsBalanced = omega (arith, length-append {0})

  on_turn_end-IsBalanced : IsBalanced n (on_turn_end ev s)
  unfolding on_turn_end
  on_turn_end-IsBalanced = grind counts

  on_assistant_message-IsBalanced : IsBalanced n (on_assistant_message ev s)
  unfolding on_assistant_message
  on_assistant_message-IsBalanced = grind counts

  on_tool_start-IsBalanced : IsBalanced (see EventKind.tool_exec_start n) (on_tool_start ev s)
  unfolding on_tool_start
  on_tool_start-IsBalanced = grind counts

  on_tool_complete-IsBalanced : IsBalanced n (on_tool_complete ev s)
  unfolding on_tool_complete commit_tool_call
  on_tool_complete-IsBalanced = grind counts

  on_hook_start-IsBalanced : IsBalanced (see EventKind.hook_start n) (on_hook_start ev s)
  unfolding on_hook_start
  on_hook_start-IsBalanced = grind counts

  on_hook_end-IsBalanced : IsBalanced n (on_hook_end ev s)
  unfolding on_hook_end commit_hook_call
  on_hook_end-IsBalanced = grind counts

  on_skill_invoked-IsBalanced : IsBalanced (see EventKind.skill_invoked n) (on_skill_invoked ev s)
  unfolding on_skill_invoked
  on_skill_invoked-IsBalanced = grind counts

  on_mode_event-IsBalanced : IsBalanced n (on_mode_event ev s)
  unfolding on_mode_event
  on_mode_event-IsBalanced = grind counts

  on_abort-IsBalanced : IsBalanced n (on_abort ev s)
  unfolding on_abort commit_tool_call commit_hook_call
  on_abort-IsBalanced = grind counts

  on_session_shutdown-IsBalanced : IsBalanced n (on_session_shutdown ev s)
  unfolding on_session_shutdown
  on_session_shutdown-IsBalanced = grind counts

  observe_timestamp-IsBalanced : IsBalanced n (observe_timestamp ev s)
  unfolding observe_timestamp
  observe_timestamp-IsBalanced = grind counts

  on_tool_user_requested-IsBalanced : IsBalanced n (on_tool_user_requested ev s)
  unfolding on_tool_user_requested
  on_tool_user_requested-IsBalanced = grind (counts, length-mark_requested, length-mark_top)

  accumulate-IsBalanced : IsBalanced n (accumulate_loaded_mcp_tools ev s)
  unfolding accumulate_loaded_mcp_tools
  accumulate-IsBalanced = grind counts

  bump-IsBalanced : IsBalanced n (bump_skill_windows s)
  unfolding bump_skill_windows
  bump-IsBalanced = grind counts

module _ {J : Type 0} where
  -- An event that starts nothing adds nothing.
  same :
      {n : Starts} {s : DeriveState J}
      → IsBalanced n s
      → IsBalanced
          (record {
            turns = n.turns + 0;
            tools = n.tools + 0;
            hooks = n.hooks + 0;
            skills = n.skills + 0;
          })
          s
  same h = omega arith

  dispatch-IsBalanced :
      (kind : EventKind) (n : Starts) (ev : Event J) (s : DeriveState J)
      → IsBalanced n s
      → IsBalanced (see kind n) (dispatch kind ev s)
  unfolding dispatch
  dispatch-IsBalanced EventKind.turn_start n ev s h = on_turn_start-IsBalanced n ev s h
  dispatch-IsBalanced EventKind.turn_end n ev s h = on_turn_end-IsBalanced _ ev s (same h)
  dispatch-IsBalanced EventKind.tool_exec_start n ev s h = on_tool_start-IsBalanced n ev s h
  dispatch-IsBalanced EventKind.tool_exec_complete n ev s h =
      on_tool_complete-IsBalanced _ ev s (same h)
  dispatch-IsBalanced EventKind.tool_user_requested n ev s h =
      on_tool_user_requested-IsBalanced _ ev s (same h)
  dispatch-IsBalanced EventKind.hook_start n ev s h = on_hook_start-IsBalanced n ev s h
  dispatch-IsBalanced EventKind.hook_end n ev s h = on_hook_end-IsBalanced _ ev s (same h)
  dispatch-IsBalanced EventKind.skill_invoked n ev s h = on_skill_invoked-IsBalanced n ev s h
  dispatch-IsBalanced EventKind.assistant_message n ev s h =
      on_assistant_message-IsBalanced _ ev s (same h)
  dispatch-IsBalanced EventKind.mode_changed n ev s h = on_mode_event-IsBalanced _ ev s (same h)
  dispatch-IsBalanced EventKind.model_change n ev s h = on_mode_event-IsBalanced _ ev s (same h)
  dispatch-IsBalanced EventKind.abort n ev s h = on_abort-IsBalanced _ ev s (same h)
  dispatch-IsBalanced EventKind.shutdown n ev s h = on_session_shutdown-IsBalanced _ ev s (same h)
  dispatch-IsBalanced _ n ev s h = same h

  pub step-IsBalanced :
      (n : Starts) (ev : Event J) (s : DeriveState J)
      → IsBalanced n s
      → IsBalanced (see ev.kind n) (step s ev)
  unfolding step
  step-IsBalanced n ev s h = bump-IsBalanced _ ev _ (
      dispatch-IsBalanced ev.kind n ev _
        (accumulate-IsBalanced n ev _ (observe_timestamp-IsBalanced n ev s h)))
