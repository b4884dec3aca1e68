-- ===== src/Derive/Keeps.antt =====
-- A proof rule for invariants of the loop of `derive_episodes`: one case for each handler.
use agentprof.Base.{List, [], ◌∷◌}
use agentprof.Event.{Event, EventKind}
use agentprof.Derive.{
  DeriveState, observe_timestamp, accumulate_loaded_mcp_tools, bump_skill_windows, dispatch, step,
  run, on_turn_start, on_turn_end, on_assistant_message, on_tool_start, on_tool_complete,
  on_tool_user_requested, on_hook_start, on_hook_end, on_skill_invoked, on_mode_event, on_abort,
  on_session_shutdown,
}

module _ {J : Type 0} where
  -- A function of an event and a state keeps a property of states.
  abbrev pub Preserves :
      (DeriveState J → Type 0) → (Event J → DeriveState J → DeriveState J) → Type 0
  Preserves P f = (ev : Event J) (s : DeriveState J) → P s → P (f ev s)

  pub record Keeps (P : DeriveState J → Type 0) : Type 0 where
    pub observe : Preserves P observe_timestamp
    pub loaded : Preserves P accumulate_loaded_mcp_tools
    pub turn_start : Preserves P on_turn_start
    pub turn_end : Preserves P on_turn_end
    pub message : Preserves P on_assistant_message
    pub tool_start : Preserves P on_tool_start
    pub tool_complete : Preserves P on_tool_complete
    pub user_requested : Preserves P on_tool_user_requested
    pub hook_start : Preserves P on_hook_start
    pub hook_end : Preserves P on_hook_end
    pub skill : Preserves P on_skill_invoked
    pub mode : Preserves P on_mode_event
    pub abort : Preserves P on_abort
    pub shutdown : Preserves P on_session_shutdown

  module _ {P : DeriveState J → Type 0} (k : Keeps P) where
    pub dispatch-Preserves : (kind : EventKind) → Preserves P (dispatch kind)
    unfolding dispatch
    dispatch-Preserves EventKind.turn_start = k.turn_start
    dispatch-Preserves EventKind.turn_end = k.turn_end
    dispatch-Preserves EventKind.tool_exec_start = k.tool_start
    dispatch-Preserves EventKind.tool_exec_complete = k.tool_complete
    dispatch-Preserves EventKind.tool_user_requested = k.user_requested
    dispatch-Preserves EventKind.hook_start = k.hook_start
    dispatch-Preserves EventKind.hook_end = k.hook_end
    dispatch-Preserves EventKind.skill_invoked = k.skill
    dispatch-Preserves EventKind.assistant_message = k.message
    dispatch-Preserves EventKind.mode_changed = k.mode
    dispatch-Preserves EventKind.model_change = k.mode
    dispatch-Preserves EventKind.abort = k.abort
    dispatch-Preserves EventKind.shutdown = k.shutdown
    dispatch-Preserves _ = λ ev s h. h

    -- All that the loop does with an event before the windows of the skills shrink.
    pub handle-Preserves :
        Preserves P
          (λ ev s. dispatch ev.kind ev (accumulate_loaded_mcp_tools ev (observe_timestamp ev s)))
    handle-Preserves ev s h = dispatch-Preserves ev.kind ev _ (k.loaded ev _ (k.observe ev s h))

    module _ (bump : Preserves P (λ ev. bump_skill_windows)) where
      step-Preserves : Preserves P (λ ev s. step s ev)
      unfolding step
      step-Preserves ev s h = bump ev _ (handle-Preserves ev s h)

      pub run-Preserves : (s : DeriveState J) (events : List (Event J)) → P s → P (run s events)
      unfolding run
      run-Preserves s [] h = h
      run-Preserves s (ev ∷ events) h = run-Preserves (step s ev) events (step-Preserves ev s h)
