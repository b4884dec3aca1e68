-- ===== src/Derive/Session.antt =====
-- derive.rs: the handlers of modes, of aborts and of the session's end.
use agentprof.Base.{ℕ, false, Option, none, some, List, [], ◌∷◌, ◌++◌, modify_at, modify_last}
use agentprof.Order.{Text, text}
use agentprof.Event.{Event, Instant}
use agentprof.Episode.{
  ModeSegment, new_mode_segment, mode_from_wire, AbortInfo, aborted, failure,
  abort_without_open_element,
}
use agentprof.Derive.State.{DeriveState, OpenToolCall, OpenHookCall, warn}
use agentprof.Derive.Tools.{commit_tool_call, close_call, args_of}
use agentprof.Derive.Hooks.{commit_hook_call, close_hook}

abbrev pub end_segment : Instant → ModeSegment → ModeSegment
end_segment ts seg = record seg { ended_at = some ts }

abbrev pub abort_info : Instant → AbortInfo
abort_info at = record { reason = text "abort"; at = at }

module _ {J : Type 0} where
  unfoldable pub open_segment : Option Text → Instant → DeriveState J → DeriveState J
  open_segment none ts s = s
  open_segment (some wire) ts s =
      let new_mode = mode_from_wire wire in
      record s {
        current_mode = some new_mode;
        mode_segments = s.mode_segments ++ new_mode_segment new_mode ts ∷ [];
      }

  unfoldable pub on_mode_event : Event J → DeriveState J → DeriveState J
  unfolding open_segment
  on_mode_event ev s =
      open_segment ev.payload_mode ev.timestamp
        (record s { mode_segments = modify_last (end_segment ev.timestamp) s.mode_segments })

  -- Nothing is open: the abort is recorded, with a warning.
  unfoldable pub abort_turn : Option ℕ → Event J → DeriveState J → DeriveState J
  abort_turn (some idx) ev s = record s {
    turns =
        modify_at idx
          (λ turn. record turn {
            status = aborted (abort_info ev.timestamp);
            ended_at = some ev.timestamp;
          })
          s.turns;
    open_turn_idx = none;
  }
  abort_turn none ev s =
      warn (abort_without_open_element (text "abort") ev.timestamp)
        (record s { aborts = s.aborts ++ abort_info ev.timestamp ∷ [] })

  unfoldable pub abort_hook : List OpenHookCall → Event J → DeriveState J → DeriveState J
  abort_hook (o ∷ os) ev s =
      commit_hook_call o.name (close_hook o ev.timestamp false) (record s { open_hook_calls = os })
  abort_hook [] ev s = abort_turn s.open_turn_idx ev s

  unfoldable pub abort_tool : List OpenToolCall → Event J → DeriveState J → DeriveState J
  abort_tool (o ∷ os) ev s =
      commit_tool_call o.name o.source
        (close_call o ev.timestamp (failure (some (text "aborted"))) (args_of o.tool_call_id s))
        (record s { open_tool_calls = os })
  abort_tool [] ev s = abort_hook s.open_hook_calls ev s

  -- The most specific open element is closed: a tool, else a hook, else the turn.
  unfoldable pub on_abort : Event J → DeriveState J → DeriveState J
  unfolding abort_turn abort_hook abort_tool
  on_abort ev s = abort_tool s.open_tool_calls ev s

  unfoldable pub on_session_shutdown : Event J → DeriveState J → DeriveState J
  on_session_shutdown ev s = elim ev.payload_model_metrics [
    | none ↦ s
    | some metrics ↦ record s { model_metrics = some metrics }
  ]
