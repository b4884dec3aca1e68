-- ===== src/Derive/Loop.antt =====
-- derive.rs: `derive_episodes`, its loop over the events, and `finalize`.
use agentprof.Base.{true, Option, none, some, List, [], ◌∷◌, ◌++◌, modify_last, reverse}
use agentprof.Order.{text}
use agentprof.Map.{or_default}
use agentprof.Event.{Event, EventKind, Instant}
use agentprof.Episode.{ModeSegment, open_at_end_of_session, ToolCallStatus, Episodes}
use agentprof.Derive.State.{
  DeriveState, OpenToolCall, OpenHookCall, new_state, warn, observe_timestamp,
  accumulate_loaded_mcp_tools, collect_args,
}
use agentprof.Derive.Turns.{on_turn_start, on_turn_end, on_assistant_message}
use agentprof.Derive.Skills.{on_skill_invoked, bump_skill_windows}
use agentprof.Derive.Tools.{
  on_tool_start, on_tool_complete, on_tool_user_requested, commit_tool_call, close_call, args_of,
}
use agentprof.Derive.Hooks.{on_hook_start, on_hook_end, commit_hook_call, close_hook}
use agentprof.Derive.Session.{on_mode_event, on_abort, on_session_shutdown}

-- A segment that has no end yet ends with the last event.
unfoldable pub finish_segment : Option Instant → ModeSegment → ModeSegment
finish_segment last_ts seg = elim seg.ended_at [
  | none ↦ record seg { ended_at = last_ts }
  | some ts ↦ seg
]

module _ {J : Type 0} where
  -- The `match` of the loop. The other kinds are metadata.
  unfoldable pub dispatch : EventKind → Event J → DeriveState J → DeriveState J
  dispatch EventKind.turn_start ev s = on_turn_start ev s
  dispatch EventKind.turn_end ev s = on_turn_end ev s
  dispatch EventKind.tool_exec_start ev s = on_tool_start ev s
  dispatch EventKind.tool_exec_complete ev s = on_tool_complete ev s
  dispatch EventKind.tool_user_requested ev s = on_tool_user_requested ev s
  dispatch EventKind.hook_start ev s = on_hook_start ev s
  dispatch EventKind.hook_end ev s = on_hook_end ev s
  dispatch EventKind.skill_invoked ev s = on_skill_invoked ev s
  dispatch EventKind.assistant_message ev s = on_assistant_message ev s
  dispatch EventKind.mode_changed ev s = on_mode_event ev s
  dispatch EventKind.model_change ev s = on_mode_event ev s
  dispatch EventKind.abort ev s = on_abort ev s
  dispatch EventKind.shutdown ev s = on_session_shutdown ev s
  dispatch _ ev s = s

  -- What the loop does with one event.
  unfoldable pub step : DeriveState J → Event J → DeriveState J
  step s ev =
      bump_skill_windows
        (dispatch ev.kind ev (accumulate_loaded_mcp_tools ev (observe_timestamp ev s)))

  unfoldable pub run : DeriveState J → List (Event J) → DeriveState J
  run s [] = s
  run s (ev ∷ events) = run (step s ev) events

  -- A call that no event has closed ends with the last event.
  unfoldable pub close_tool : Option Instant → OpenToolCall → DeriveState J → DeriveState J
  close_tool last_ts o s =
      warn (open_at_end_of_session EventKind.tool_exec_start (text "open-tool-" ++ o.name)) (
        commit_tool_call o.name o.source
          (close_call o (or_default o.started_at last_ts) ToolCallStatus.open_at_end_of_session
            (args_of o.tool_call_id s))
          s)

  unfoldable pub close_tools : Option Instant → List OpenToolCall → DeriveState J → DeriveState J
  close_tools last_ts [] s = s
  close_tools last_ts (o ∷ os) s = close_tools last_ts os (close_tool last_ts o s)

  unfoldable pub close_hook_call : Option Instant → OpenHookCall → DeriveState J → DeriveState J
  close_hook_call last_ts o s =
      warn (open_at_end_of_session EventKind.hook_start (text "open-hook-" ++ o.name))
        (commit_hook_call o.name (close_hook o (or_default o.started_at last_ts) true) s)

  unfoldable pub close_hooks : Option Instant → List OpenHookCall → DeriveState J → DeriveState J
  close_hooks last_ts [] s = s
  close_hooks last_ts (o ∷ os) s = close_hooks last_ts os (close_hook_call last_ts o s)

  -- `finalize` up to the choice of the fields that are returned.
  unfoldable pub close_all : DeriveState J → DeriveState J
  close_all s =
      let released = record s { open_turn_idx = none; open_tool_calls = [] } in
      let tools_done = close_tools s.last_event_ts (reverse s.open_tool_calls) released in
      let hooks_done =
        close_hooks s.last_event_ts (reverse tools_done.open_hook_calls)
          (record tools_done { open_hook_calls = [] }) in
      record hooks_done {
        mode_segments = modify_last (finish_segment s.last_event_ts) hooks_done.mode_segments;
      }

  abbrev pub episodes_of : DeriveState J → Episodes J
  episodes_of s = record {
    turns = s.turns;
    tools = s.tools;
    hooks = s.hooks;
    skills = s.skills;
    mode_segments = s.mode_segments;
    aborts = s.aborts;
    warnings = s.warnings;
    model_metrics = s.model_metrics;
    loaded_mcp_tools = s.loaded_mcp_tools;
  }

  unfoldable pub finalize : DeriveState J → Episodes J
  finalize s = episodes_of (close_all s)

  -- `started_at` is the start of the session, from its metadata.
  unfoldable pub derive_episodes : List (Event J) → Instant → Episodes J
  derive_episodes events started_at =
      finalize (run (new_state started_at (collect_args events [])) events)
