-- ===== src/Derive/Orphans.antt =====
-- The ends that come without a start, counted from the kinds of the events alone.
use agentprof.Base.{
  if◌then◌else◌, Bool, true, false, ℕ, ◌+◌, ◌-◌, ◌≡◌, ◌&&◌, ◌==◌, not, List, [], ◌∷◌, length, count,
  is_some,
}
use agentprof.Event.{Event, EventKind}
use agentprof.Derive.{
  DeriveState, commit_tool_call, commit_hook_call, observe_timestamp, accumulate_loaded_mcp_tools,
  bump_skill_windows, dispatch, step, run, on_turn_start, on_turn_end, on_assistant_message,
  on_tool_start, on_tool_complete, on_tool_user_requested, on_hook_start, on_hook_end,
  on_skill_invoked, on_mode_event, on_abort, on_session_shutdown,
}
use agentprof.Derive.Counts.{turn_orphan, tool_orphan, hook_orphan}
use agentprof.Derive.Balance.{counts, length-mark_requested, length-mark_top}

-- What is open after some events, and how many of their ends found nothing open.
pub record Tally : Type 0 where
  pub turn : Bool
  pub tools : ℕ
  pub hooks : ℕ
  pub turn_ends : ℕ
  pub tool_ends : ℕ
  pub hook_ends : ℕ

-- A start opens, an end closes or is one without a start, and an abort closes a tool call, else a
-- hook call, else the turn.
abbrev pub tally : EventKind → Tally → Tally
tally EventKind.turn_start t = record t { turn = true }
tally EventKind.turn_end t = record t {
  turn = false;
  turn_ends = t.turn_ends + (if t.turn then 0 else 1);
}
tally EventKind.tool_exec_start t = record t { tools = t.tools + 1 }
tally EventKind.tool_exec_complete t = record t {
  tools = t.tools - 1;
  tool_ends = t.tool_ends + (if t.tools == 0 then 1 else 0);
}
tally EventKind.hook_start t = record t { hooks = t.hooks + 1 }
tally EventKind.hook_end t = record t {
  hooks = t.hooks - 1;
  hook_ends = t.hook_ends + (if t.hooks == 0 then 1 else 0);
}
tally EventKind.abort t = record t {
  tools = t.tools - 1;
  hooks = t.hooks - (if t.tools == 0 then 1 else 0);
  turn = t.turn && not (t.tools == 0 && t.hooks == 0);
}
tally _ t = t

-- A state has open what the tally has, and its warnings of a missing start are the ends without one.
pub record IsTallied {J : Type 0} (t : Tally) (s : DeriveState J) : Type 0 where
  pub turn : is_some s.open_turn_idx ≡ t.turn
  pub tools : length s.open_tool_calls ≡ t.tools
  pub hooks : length s.open_hook_calls ≡ t.hooks
  pub turn_ends : count turn_orphan s.warnings ≡ t.turn_ends
  pub tool_ends : count tool_orphan s.warnings ≡ t.tool_ends
  pub hook_ends : count hook_orphan s.warnings ≡ t.hook_ends

module _ {J : Type 0} (t : Tally) (ev : Event J) (s : DeriveState J) (h : IsTallied t s) where
  on_turn_start-IsTallied : IsTallied (tally EventKind.turn_start t) (on_turn_start ev s)
  unfolding on_turn_start
  on_turn_start-IsTallied = grind counts

  on_turn_end-IsTallied : IsTallied (tally EventKind.turn_end t) (on_turn_end ev s)
  unfolding on_turn_end
  on_turn_end-IsTallied = grind counts

  on_assistant_message-IsTallied : IsTallied t (on_assistant_message ev s)
  unfolding on_assistant_message
  on_assistant_message-IsTallied = grind counts

  on_tool_start-IsTallied : IsTallied (tally EventKind.tool_exec_start t) (on_tool_start ev s)
  unfolding on_tool_start
  on_tool_start-IsTallied = grind counts

  on_tool_complete-IsTallied :
      IsTallied (tally EventKind.tool_exec_complete t) (on_tool_complete ev s)
  unfolding on_tool_complete commit_tool_call
  on_tool_complete-IsTallied = grind counts

  on_hook_start-IsTallied : IsTallied (tally EventKind.hook_start t) (on_hook_start ev s)
  unfolding on_hook_start
  on_hook_start-IsTallied = grind counts

  on_hook_end-IsTallied : IsTallied (tally EventKind.hook_end t) (on_hook_end ev s)
  unfolding on_hook_end commit_hook_call
  on_hook_end-IsTallied = grind counts

  on_skill_invoked-IsTallied : IsTallied t (on_skill_invoked ev s)
  unfolding on_skill_invoked
  on_skill_invoked-IsTallied = grind counts

  on_mode_event-IsTallied : IsTallied t (on_mode_event ev s)
  unfolding on_mode_event
  on_mode_event-IsTallied = grind counts

  on_abort-IsTallied : IsTallied (tally EventKind.abort t) (on_abort ev s)
  unfolding on_abort commit_tool_call commit_hook_call
  on_abort-IsTallied = grind counts

  on_session_shutdown-IsTallied : IsTallied t (on_session_shutdown ev s)
  unfolding on_session_shutdown
  on_session_shutdown-IsTallied = grind counts

  on_tool_user_requested-IsTallied : IsTallied t (on_tool_user_requested ev s)
  unfolding on_tool_user_requested
  on_tool_user_requested-IsTallied = grind (counts, length-mark_requested, length-mark_top)

  observe-IsTallied : IsTallied t (observe_timestamp ev s)
  unfolding observe_timestamp
  observe-IsTallied = grind counts

  accumulate-IsTallied : IsTallied t (accumulate_loaded_mcp_tools ev s)
  unfolding accumulate_loaded_mcp_tools
  accumulate-IsTallied = grind counts

  bump-IsTallied : IsTallied t (bump_skill_windows s)
  unfolding bump_skill_windows
  bump-IsTallied = grind counts

module _ {J : Type 0} where
  dispatch-IsTallied :
      (kind : EventKind) (t : Tally) (ev : Event J) (s : DeriveState J)
      → IsTallied t s
      → IsTallied (tally kind t) (dispatch kind ev s)
  unfolding dispatch
  dispatch-IsTallied EventKind.turn_start = on_turn_start-IsTallied
  dispatch-IsTallied EventKind.turn_end = on_turn_end-IsTallied
  dispatch-IsTallied EventKind.tool_exec_start = on_tool_start-IsTallied
  dispatch-IsTallied EventKind.tool_exec_complete = on_tool_complete-IsTallied
  dispatch-IsTallied EventKind.tool_user_requested = on_tool_user_requested-IsTallied
  dispatch-IsTallied EventKind.hook_start = on_hook_start-IsTallied
  dispatch-IsTallied EventKind.hook_end = on_hook_end-IsTallied
  dispatch-IsTallied EventKind.skill_invoked = on_skill_invoked-IsTallied
  dispatch-IsTallied EventKind.assistant_message = on_assistant_message-IsTallied
  dispatch-IsTallied EventKind.mode_changed = on_mode_event-IsTallied
  dispatch-IsTallied EventKind.model_change = on_mode_event-IsTallied
  dispatch-IsTallied EventKind.abort = on_abort-IsTallied
  dispatch-IsTallied EventKind.shutdown = on_session_shutdown-IsTallied
  dispatch-IsTallied _ = λ t ev s h. h

  step-IsTallied :
      (t : Tally) (ev : Event J) (s : DeriveState J)
      → IsTallied t s
      → IsTallied (tally ev.kind t) (step s ev)
  unfolding step
  step-IsTallied t ev s h =
      bump-IsTallied _ ev _ (
        dispatch-IsTallied ev.kind t ev _
          (accumulate-IsTallied t ev _ (observe-IsTallied t ev s h)))

  -- The tally behind a list of events.
  abbrev pub tally_all : Tally → List (Event J) → Tally
  tally_all t [] = t
  tally_all t (ev ∷ events) = tally_all (tally ev.kind t) events

  pub run-IsTallied :
      (t : Tally) (s : DeriveState J) (events : List (Event J))
      → IsTallied t s
      → IsTallied (tally_all t events) (run s events)
  unfolding run
  run-IsTallied t s [] h = h
  run-IsTallied t s (ev ∷ events) h =
      run-IsTallied (tally ev.kind t) (step s ev) events (step-IsTallied t ev s h)
