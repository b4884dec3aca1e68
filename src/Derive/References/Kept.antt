-- ===== src/Derive/References/Kept.antt =====
-- The references stay valid over the whole derivation.
use agentprof.Base.{
  ℕ, ◌-◌, Option, List, [], ◌∷◌, ◌++◌, arith, All, All-append, All-modify_at, modify_at, ltb,
  Bool-cases, inl, inr,
}
use agentprof.Order.{Text}
use agentprof.Event.{Event, Instant}
use agentprof.Episode.{Turn}
use agentprof.Derive.{
  DeriveState, OpenSkill, OpenToolCall, OpenHookCall, new_state, collect_args, derive_episodes,
  finalize, close_all, close_tools, close_tool, close_hooks, close_hook_call, shrink_windows,
  observe_timestamp, accumulate_loaded_mcp_tools, bump_skill_windows, on_turn_start, on_turn_end,
  on_assistant_message, on_tool_start, on_tool_complete, on_tool_user_requested, on_hook_start,
  on_hook_end, on_skill_invoked, on_mode_event, on_abort, on_session_shutdown,
}
use agentprof.Derive.Keeps.{Preserves, Keeps, run-Preserves}
use agentprof.Derive.References.Valid.{
  TurnRefs, AreValid, WindowsBelow, RefInv, commit_tool_call-RefInv, commit_hook_call-RefInv,
  invoke-RefInv,
}

module _ (f g h : Text → ℕ) where
  snoc-TurnRefs :
      (turns : List Turn) (t : Turn)
      → TurnRefs f g h t
      → All (TurnRefs f g h) turns
      → All (TurnRefs f g h) (turns ++ t ∷ [])
  snoc-TurnRefs turns t new v = All-append _ turns (t ∷ []) v (new, tt)

  modify-TurnRefs :
      (i : ℕ) (change : Turn → Turn) (turns : List Turn)
      → ((t : Turn) → TurnRefs f g h t → TurnRefs f g h (change t))
      → All (TurnRefs f g h) turns
      → All (TurnRefs f g h) (modify_at i change turns)
  modify-TurnRefs i change turns keep v = All-modify_at _ i change turns keep v

shrink-WindowsBelow :
    (f : Text → ℕ) (os : List OpenSkill) → WindowsBelow f os → WindowsBelow f (shrink_windows os)
unfolding shrink_windows
shrink-WindowsBelow f [] v = tt
shrink-WindowsBelow f (o ∷ os) v = elim (Bool-cases (ltb 0 (o.window_remaining - 1))) [
  | inl e ↦ rw e (v.0, shrink-WindowsBelow f os v.1)
  | inr e ↦ rw e (shrink-WindowsBelow f os v.1)
]

ruleset refs = (
  arith, snoc-TurnRefs, modify-TurnRefs, commit_tool_call-RefInv, commit_hook_call-RefInv,
  invoke-RefInv, shrink-WindowsBelow,
)

module _ {J : Type 0} where
  observe_timestamp-RefInv : Preserves (RefInv {J = J}) observe_timestamp
  unfolding observe_timestamp
  observe_timestamp-RefInv ev s v = grind refs

  accumulate_loaded_mcp_tools-RefInv : Preserves (RefInv {J = J}) accumulate_loaded_mcp_tools
  unfolding accumulate_loaded_mcp_tools
  accumulate_loaded_mcp_tools-RefInv ev s v = grind refs

  on_turn_start-RefInv : Preserves (RefInv {J = J}) on_turn_start
  unfolding on_turn_start
  on_turn_start-RefInv ev s v = grind refs

  on_turn_end-RefInv : Preserves (RefInv {J = J}) on_turn_end
  unfolding on_turn_end
  on_turn_end-RefInv ev s v = grind refs

  on_assistant_message-RefInv : Preserves (RefInv {J = J}) on_assistant_message
  unfolding on_assistant_message
  on_assistant_message-RefInv ev s v = grind refs

  on_tool_start-RefInv : Preserves (RefInv {J = J}) on_tool_start
  unfolding on_tool_start
  on_tool_start-RefInv ev s v = grind refs

  on_tool_complete-RefInv : Preserves (RefInv {J = J}) on_tool_complete
  unfolding on_tool_complete
  on_tool_complete-RefInv ev s v = grind refs

  on_tool_user_requested-RefInv : Preserves (RefInv {J = J}) on_tool_user_requested
  unfolding on_tool_user_requested
  on_tool_user_requested-RefInv ev s v = grind refs

  on_hook_start-RefInv : Preserves (RefInv {J = J}) on_hook_start
  unfolding on_hook_start
  on_hook_start-RefInv ev s v = grind refs

  on_hook_end-RefInv : Preserves (RefInv {J = J}) on_hook_end
  unfolding on_hook_end
  on_hook_end-RefInv ev s v = grind refs

  on_skill_invoked-RefInv : Preserves (RefInv {J = J}) on_skill_invoked
  unfolding on_skill_invoked
  on_skill_invoked-RefInv ev s v = grind refs

  on_mode_event-RefInv : Preserves (RefInv {J = J}) on_mode_event
  unfolding on_mode_event
  on_mode_event-RefInv ev s v = grind refs

  on_abort-RefInv : Preserves (RefInv {J = J}) on_abort
  unfolding on_abort
  on_abort-RefInv ev s v = grind refs

  on_session_shutdown-RefInv : Preserves (RefInv {J = J}) on_session_shutdown
  unfolding on_session_shutdown
  on_session_shutdown-RefInv ev s v = grind refs

  bump-RefInv : Preserves (RefInv {J = J}) (λ ev. bump_skill_windows)
  unfolding bump_skill_windows
  bump-RefInv ev s v = record {
    valid = v.valid;
    windows = shrink-WindowsBelow _ s.open_skills v.windows;
  }

  Keeps-RefInv : Keeps (RefInv {J = J})
  Keeps-RefInv = record {
    observe = observe_timestamp-RefInv;
    loaded = accumulate_loaded_mcp_tools-RefInv;
    turn_start = on_turn_start-RefInv;
    turn_end = on_turn_end-RefInv;
    message = on_assistant_message-RefInv;
    tool_start = on_tool_start-RefInv;
    tool_complete = on_tool_complete-RefInv;
    user_requested = on_tool_user_requested-RefInv;
    hook_start = on_hook_start-RefInv;
    hook_end = on_hook_end-RefInv;
    skill = on_skill_invoked-RefInv;
    mode = on_mode_event-RefInv;
    abort = on_abort-RefInv;
    shutdown = on_session_shutdown-RefInv;
  }

  close_tools-RefInv :
      (last_ts : Option Instant) (os : List OpenToolCall) (s : DeriveState J)
      → RefInv s
      → RefInv (close_tools last_ts os s)
  unfolding close_tools close_tool
  close_tools-RefInv last_ts [] s v = v
  close_tools-RefInv last_ts (o ∷ os) s v =
      let c = commit_tool_call-RefInv o.name o.source _ s v in
      close_tools-RefInv last_ts os _ (record { valid = c.valid; windows = c.windows })

  close_hooks-RefInv :
      (last_ts : Option Instant) (os : List OpenHookCall) (s : DeriveState J)
      → RefInv s
      → RefInv (close_hooks last_ts os s)
  unfolding close_hooks close_hook_call
  close_hooks-RefInv last_ts [] s v = v
  close_hooks-RefInv last_ts (o ∷ os) s v =
      let c = commit_hook_call-RefInv o.name _ s v in
      close_hooks-RefInv last_ts os _ (record { valid = c.valid; windows = c.windows })

  -- Every reference in what is derived points to a call that is there: those from a turn to its
  -- tool calls, hook calls and skill invocations, and those from an invocation to the tool calls
  -- that count as triggered by it.
  pub derive_episodes-AreValid :
      (events : List (Event J)) (started_at : Instant)
      → let e = derive_episodes events started_at in AreValid e.turns e.tools e.hooks e.skills
  unfolding derive_episodes finalize close_all new_state
  derive_episodes-AreValid events started_at =
      let start : DeriveState J = new_state started_at (collect_args events []) in
      let before : RefInv start = record {
        valid = record { of_turns = tt; of_skills = tt };
        windows = tt;
      } in
      let after = run-Preserves Keeps-RefInv bump-RefInv start events before in
      let tools_done =
        close_tools-RefInv _ _ _ (record { valid = after.valid; windows = after.windows }) in
      (close_hooks-RefInv _ _ _
        (record { valid = tools_done.valid; windows = tools_done.windows })).valid
