-- ===== src/Derive/Streams.antt =====
-- What the events say one by one: their timestamps, the MCP tools that they announce, the metrics
-- of their models.
use agentprof.Base.{
  ◌++◌, append-nil, append_assoc, sym, ◌≡◌, Bool, true, false, Option, none, some, List, [], ◌∷◌,
  arith, ltb, if◌then◌else◌, or_else, reverse, refl, ◌∙◌,
}
use agentprof.Order.{Text, text_ord}
use agentprof.Map.{BTreeMap, contains_key, contains-extend, get, extend, has_key}
use agentprof.Event.{Event, EventKind, ModelUsage, Instant}
use agentprof.Episode.{DeriveWarning, non_monotonic_timestamp, Episodes}
use agentprof.Derive.{
  DeriveState, OpenToolCall, OpenHookCall, new_state, collect_args, run, step, dispatch,
  derive_episodes, finalize, close_all, close_tools, close_tool, close_hooks, close_hook_call,
  commit_tool_call, commit_hook_call, observe_timestamp, accumulate_loaded_mcp_tools,
  bump_skill_windows, on_turn_start, on_turn_end, on_assistant_message, on_tool_start,
  on_tool_complete, on_tool_user_requested, on_hook_start, on_hook_end, on_skill_invoked,
  on_mode_event, on_abort, on_session_shutdown,
}

abbrev pub is_back : DeriveWarning → Bool
is_back (non_monotonic_timestamp id prev this) = true
is_back _ = false

-- The warnings of a timestamp.
abbrev pub backs : List DeriveWarning → List DeriveWarning
backs [] = []
backs (w ∷ ws) = if is_back w then w ∷ backs ws else backs ws

backs-append : (xs ys : List DeriveWarning) → backs (xs ++ ys) ≡ backs xs ++ backs ys
backs-append [] ys = refl
backs-append (x ∷ xs) ys = let rest = backs-append xs ys in ground arith

abbrev pub is_shutdown : EventKind → Bool
is_shutdown EventKind.shutdown = true
is_shutdown _ = false

module _ {J : Type 0} where
  -- What a handler leaves alone.
  record SameFrame (s s' : DeriveState J) : Type 0 where
    prev : s'.prev_ts ≡ s.prev_ts
    loaded : s'.loaded_mcp_tools ≡ s.loaded_mcp_tools
    back : backs s'.warnings ≡ backs s.warnings
    metrics : s'.model_metrics ≡ s.model_metrics

  on_turn_start-SameFrame : (ev : Event J) (s : DeriveState J) → SameFrame s (on_turn_start ev s)
  unfolding on_turn_start
  on_turn_start-SameFrame ev s = grind (arith, backs-append, append-nil)

  on_turn_end-SameFrame : (ev : Event J) (s : DeriveState J) → SameFrame s (on_turn_end ev s)
  unfolding on_turn_end
  on_turn_end-SameFrame ev s = grind (arith, backs-append, append-nil)

  on_assistant_message-SameFrame :
      (ev : Event J) (s : DeriveState J) → SameFrame s (on_assistant_message ev s)
  unfolding on_assistant_message
  on_assistant_message-SameFrame ev s = grind (arith, backs-append, append-nil)

  on_tool_start-SameFrame : (ev : Event J) (s : DeriveState J) → SameFrame s (on_tool_start ev s)
  unfolding on_tool_start
  on_tool_start-SameFrame ev s = grind (arith, backs-append, append-nil)

  on_tool_complete-SameFrame :
      (ev : Event J) (s : DeriveState J) → SameFrame s (on_tool_complete ev s)
  unfolding on_tool_complete commit_tool_call
  on_tool_complete-SameFrame ev s = grind (arith, backs-append, append-nil)

  on_tool_user_requested-SameFrame :
      (ev : Event J) (s : DeriveState J) → SameFrame s (on_tool_user_requested ev s)
  unfolding on_tool_user_requested
  on_tool_user_requested-SameFrame ev s = grind (arith, backs-append, append-nil)

  on_hook_start-SameFrame : (ev : Event J) (s : DeriveState J) → SameFrame s (on_hook_start ev s)
  unfolding on_hook_start
  on_hook_start-SameFrame ev s = grind (arith, backs-append, append-nil)

  on_hook_end-SameFrame : (ev : Event J) (s : DeriveState J) → SameFrame s (on_hook_end ev s)
  unfolding on_hook_end commit_hook_call
  on_hook_end-SameFrame ev s = grind (arith, backs-append, append-nil)

  on_skill_invoked-SameFrame :
      (ev : Event J) (s : DeriveState J) → SameFrame s (on_skill_invoked ev s)
  unfolding on_skill_invoked
  on_skill_invoked-SameFrame ev s = grind (arith, backs-append, append-nil)

  on_mode_event-SameFrame : (ev : Event J) (s : DeriveState J) → SameFrame s (on_mode_event ev s)
  unfolding on_mode_event
  on_mode_event-SameFrame ev s = grind (arith, backs-append, append-nil)

  on_abort-SameFrame : (ev : Event J) (s : DeriveState J) → SameFrame s (on_abort ev s)
  unfolding on_abort commit_tool_call commit_hook_call
  on_abort-SameFrame ev s = grind (arith, backs-append, append-nil)

  abbrev report :
      EventKind → Event J → Option (BTreeMap Text ModelUsage) → Option (BTreeMap Text ModelUsage)
  report kind ev metrics =
      if is_shutdown kind then or_else ev.payload_model_metrics metrics else metrics

  record Frame (kind : EventKind) (ev : Event J) (s s' : DeriveState J) : Type 0 where
    prev : s'.prev_ts ≡ s.prev_ts
    loaded : s'.loaded_mcp_tools ≡ s.loaded_mcp_tools
    back : backs s'.warnings ≡ backs s.warnings
    metrics : s'.model_metrics ≡ report kind ev s.model_metrics

  other :
      (kind : EventKind) {ev : Event J} {s s' : DeriveState J}
      → is_shutdown kind ≡ false
      → SameFrame s s'
      → Frame kind ev s s'
  other kind e h = record {
    prev = h.prev;
    loaded = h.loaded;
    back = h.back;
    metrics = rw e h.metrics;
  }

  dispatch-Frame :
      (kind : EventKind) (ev : Event J) (s : DeriveState J) → Frame kind ev s (dispatch kind ev s)
  unfolding dispatch on_session_shutdown
  dispatch-Frame EventKind.shutdown ev s = ground arith
  dispatch-Frame EventKind.turn_start ev s =
      other EventKind.turn_start refl (on_turn_start-SameFrame ev s)
  dispatch-Frame EventKind.turn_end ev s =
      other EventKind.turn_end refl (on_turn_end-SameFrame ev s)
  dispatch-Frame EventKind.tool_exec_start ev s =
      other EventKind.tool_exec_start refl (on_tool_start-SameFrame ev s)
  dispatch-Frame EventKind.tool_exec_complete ev s =
      other EventKind.tool_exec_complete refl (on_tool_complete-SameFrame ev s)
  dispatch-Frame EventKind.tool_user_requested ev s =
      other EventKind.tool_user_requested refl (on_tool_user_requested-SameFrame ev s)
  dispatch-Frame EventKind.hook_start ev s =
      other EventKind.hook_start refl (on_hook_start-SameFrame ev s)
  dispatch-Frame EventKind.hook_end ev s =
      other EventKind.hook_end refl (on_hook_end-SameFrame ev s)
  dispatch-Frame EventKind.skill_invoked ev s =
      other EventKind.skill_invoked refl (on_skill_invoked-SameFrame ev s)
  dispatch-Frame EventKind.assistant_message ev s =
      other EventKind.assistant_message refl (on_assistant_message-SameFrame ev s)
  dispatch-Frame EventKind.mode_changed ev s =
      other EventKind.mode_changed refl (on_mode_event-SameFrame ev s)
  dispatch-Frame EventKind.model_change ev s =
      other EventKind.model_change refl (on_mode_event-SameFrame ev s)
  dispatch-Frame EventKind.abort ev s = other EventKind.abort refl (on_abort-SameFrame ev s)
  dispatch-Frame _ ev s = ground arith

  -- The warning about an event with a smaller timestamp than the one before it.
  abbrev pub back_warning : Option Instant → Event J → List DeriveWarning
  back_warning none ev = []
  back_warning (some prev) ev =
      if ltb ev.timestamp prev then non_monotonic_timestamp ev.id prev ev.timestamp ∷ [] else []

  -- These warnings of a list of events, in order.
  abbrev pub back_warnings : Option Instant → List (Event J) → List DeriveWarning
  back_warnings prev [] = []
  back_warnings prev (ev ∷ events) =
      back_warning prev ev ++ back_warnings (some ev.timestamp) events

  -- Whether one of the events announces a tool.
  abbrev pub announces : Text → List (Event J) → Bool
  announces tool [] = false
  announces tool (ev ∷ events) =
      if has_key tool ev.payload_loaded_mcp_tools then true else announces tool events

  -- The metrics of the last shutdown event that has some.
  abbrev pub last_report : List (Event J) → Option (BTreeMap Text ModelUsage)
  last_report [] = none
  last_report (ev ∷ events) =
      or_else (last_report events) (if is_shutdown ev.kind then ev.payload_model_metrics else none)

  record StepFrame (ev : Event J) (s s' : DeriveState J) : Type 0 where
    prev : s'.prev_ts ≡ some ev.timestamp
    loaded : s'.loaded_mcp_tools ≡ extend s.loaded_mcp_tools ev.payload_loaded_mcp_tools
    back : backs s'.warnings ≡ backs s.warnings ++ back_warning s.prev_ts ev
    metrics : s'.model_metrics ≡ report ev.kind ev s.model_metrics

  step-StepFrame : (ev : Event J) (s : DeriveState J) → StepFrame ev s (step s ev)
  unfolding step observe_timestamp accumulate_loaded_mcp_tools bump_skill_windows
  step-StepFrame ev s =
      let s₁ = accumulate_loaded_mcp_tools ev (observe_timestamp ev s) in
      let f = dispatch-Frame ev.kind ev s₁ in grind (arith, backs-append, append-nil)

  run-back :
      (s : DeriveState J) (events : List (Event J))
      → backs (run s events).warnings ≡ backs s.warnings ++ back_warnings s.prev_ts events
  unfolding run
  run-back s [] = sym (append-nil (backs s.warnings))
  run-back s (ev ∷ events) =
      let f = step-StepFrame ev s in
      rw (run-back (step s ev) events, f.prev, f.back)
        (append_assoc (backs s.warnings) (back_warning s.prev_ts ev)
          (back_warnings (some ev.timestamp) events))

  run-loaded :
      (tool : Text) (s : DeriveState J) (events : List (Event J))
      → contains_key tool (run s events).loaded_mcp_tools
        ≡ (if contains_key tool s.loaded_mcp_tools then true else announces tool events)
  unfolding run
  run-loaded tool s [] = ground arith
  run-loaded tool s (ev ∷ events) =
      let f = step-StepFrame ev s in
      rw (run-loaded tool (step s ev) events, f.loaded)
        (ground (arith, contains-extend tool s.loaded_mcp_tools ev.payload_loaded_mcp_tools))

  run-metrics :
      (s : DeriveState J) (events : List (Event J))
      → (run s events).model_metrics ≡ or_else (last_report events) s.model_metrics
  unfolding run
  run-metrics s [] = refl
  run-metrics s (ev ∷ events) =
      let f = step-StepFrame ev s in rw (run-metrics (step s ev) events, f.metrics) (ground arith)

  -- What `finalize` leaves alone.
  record Finished (s s' : DeriveState J) : Type 0 where
    loaded : s'.loaded_mcp_tools ≡ s.loaded_mcp_tools
    back : backs s'.warnings ≡ backs s.warnings
    metrics : s'.model_metrics ≡ s.model_metrics

  close_tools-Finished :
      (last_ts : Option Instant) (os : List OpenToolCall) (s : DeriveState J)
      → Finished s (close_tools last_ts os s)
  unfolding close_tools close_tool commit_tool_call
  close_tools-Finished last_ts [] s = ground arith
  close_tools-Finished last_ts (o ∷ os) s =
      let rest = close_tools-Finished last_ts os (close_tool last_ts o s) in
      grind (arith, backs-append, append-nil)

  close_hooks-Finished :
      (last_ts : Option Instant) (os : List OpenHookCall) (s : DeriveState J)
      → Finished s (close_hooks last_ts os s)
  unfolding close_hooks close_hook_call commit_hook_call
  close_hooks-Finished last_ts [] s = ground arith
  close_hooks-Finished last_ts (o ∷ os) s =
      let rest = close_hooks-Finished last_ts os (close_hook_call last_ts o s) in
      grind (arith, backs-append, append-nil)

  close_all-Finished : (s : DeriveState J) → Finished s (close_all s)
  unfolding close_all
  close_all-Finished s =
      let s₁ : DeriveState J = record s { open_turn_idx = none; open_tool_calls = [] } in
      let s₂ = close_tools s.last_event_ts (reverse s.open_tool_calls) s₁ in
      let s₃ : DeriveState J = record s₂ { open_hook_calls = [] } in
      let first = close_tools-Finished s.last_event_ts (reverse s.open_tool_calls) s₁ in
      let rest = close_hooks-Finished s.last_event_ts (reverse s₂.open_hook_calls) s₃ in
      ground arith

  -- The warnings of a non-monotonic timestamp are those of the events with a smaller timestamp than
  -- the event before, with both timestamps, in order; the loaded tools are exactly those that some event announces;
  -- and the metrics are those of the last shutdown event that reports any.
  pub record Follows (events : List (Event J)) (e : Episodes J) : Type 0 where
    pub back : backs e.warnings ≡ back_warnings none events
    pub loaded : (tool : Text) → contains_key tool e.loaded_mcp_tools ≡ announces tool events
    pub metrics : e.model_metrics ≡ last_report events

  -- A derivation warns, in order, of each event whose timestamp is smaller than that of the event
  -- before it, with the event's id and both timestamps, and of no other; it holds exactly the MCP tools that some event announces, and reports the metrics of
  -- the last shutdown event that has some.
  pub derive_episodes-Follows :
      (events : List (Event J)) (started_at : Instant)
      → Follows events (derive_episodes events started_at)
  unfolding derive_episodes finalize new_state get
  derive_episodes-Follows events started_at =
      let start : DeriveState J = new_state started_at (collect_args events []) in
      let f = close_all-Finished (run start events) in
      record {
        back = f.back ∙ run-back start events;
        loaded = λ tool. rw f.loaded (run-loaded tool start events);
        metrics = f.metrics ∙ run-metrics start events ∙ ground arith;
      }
