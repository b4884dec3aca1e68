-- ===== src/Derive/Modes.antt =====
-- The mode segments of a derivation lie end to end.
use agentprof.Base.{◌≡◌, Option, none, some, List, [], ◌∷◌, ◌++◌, arith, modify_last, refl, ap, sym}
use agentprof.Order.{Text}
use agentprof.Event.{Event, Instant}
use agentprof.Episode.{ModeSegment, new_mode_segment, Mode}
use agentprof.Derive.{
  DeriveState, OpenToolCall, OpenHookCall, new_state, collect_args, run, derive_episodes, finalize,
  close_all, close_tools, close_tool, close_hooks, close_hook_call, finish_segment, end_segment,
  commit_tool_call, commit_hook_call, observe_timestamp, accumulate_loaded_mcp_tools,
  bump_skill_windows, on_turn_start, on_turn_end, on_assistant_message, on_tool_start,
  on_tool_complete, on_tool_user_requested, on_hook_start, on_hook_end, on_skill_invoked,
  on_mode_event, on_abort, on_session_shutdown, open_segment,
}
use agentprof.Derive.Keeps.{Preserves, Keeps, run-Preserves}

-- Each segment but the last ends where the next one starts.
abbrev pub IsContiguous : List ModeSegment → Type 0
IsContiguous [] = Unit
IsContiguous (x ∷ []) = Unit
IsContiguous (x ∷ y ∷ segs) = (x.ended_at ≡ some y.started_at) × IsContiguous (y ∷ segs)

-- The first segment starts at an instant.
abbrev pub StartsAt : Instant → List ModeSegment → Type 0
StartsAt at [] = ⊥
StartsAt at (x ∷ segs) = x.started_at ≡ at

-- The mode of the last segment.
abbrev pub last_mode : List ModeSegment → Option Mode
last_mode [] = none
last_mode (x ∷ []) = some x.mode
last_mode (x ∷ y ∷ segs) = last_mode (y ∷ segs)

-- Ending the last segment, or giving it an end, moves no start.
IsContiguous-modify_last :
    (f : ModeSegment → ModeSegment) (segs : List ModeSegment)
    → ((seg : ModeSegment) → (f seg).started_at ≡ seg.started_at)
    → IsContiguous segs
    → IsContiguous (modify_last f segs)
IsContiguous-modify_last f [] keep h = tt
IsContiguous-modify_last f (x ∷ []) keep h = tt
IsContiguous-modify_last f (x ∷ y ∷ []) keep h = (rw (keep y) h.0, tt)
IsContiguous-modify_last f (x ∷ y ∷ z ∷ segs) keep h =
    (h.0, IsContiguous-modify_last f (y ∷ z ∷ segs) keep h.1)

-- A new segment starts where the last one has just ended.
IsContiguous-open :
    (ts : Instant) (mode : Mode) (segs : List ModeSegment)
    → IsContiguous segs
    → IsContiguous (modify_last (end_segment ts) segs ++ new_mode_segment mode ts ∷ [])
IsContiguous-open ts mode [] h = tt
IsContiguous-open ts mode (x ∷ []) h = (refl, tt)
IsContiguous-open ts mode (x ∷ y ∷ []) h = (h.0, (refl, tt))
IsContiguous-open ts mode (x ∷ y ∷ z ∷ segs) h = (h.0, IsContiguous-open ts mode (y ∷ z ∷ segs) h.1)

StartsAt-modify_last :
    (at : Instant) (f : ModeSegment → ModeSegment) (segs : List ModeSegment)
    → ((seg : ModeSegment) → (f seg).started_at ≡ seg.started_at)
    → StartsAt at segs
    → StartsAt at (modify_last f segs)
StartsAt-modify_last at f [] keep h = h
StartsAt-modify_last at f (x ∷ []) keep h = rw (keep x) h
StartsAt-modify_last at f (x ∷ y ∷ segs) keep h = h

StartsAt-append :
    (at : Instant) (segs more : List ModeSegment) → StartsAt at segs → StartsAt at (segs ++ more)
StartsAt-append at [] more h = absurd h
StartsAt-append at (x ∷ segs) more h = h

last_mode-modify_last :
    (f : ModeSegment → ModeSegment) (segs : List ModeSegment)
    → ((seg : ModeSegment) → (f seg).mode ≡ seg.mode)
    → last_mode (modify_last f segs) ≡ last_mode segs
last_mode-modify_last f [] keep = refl
last_mode-modify_last f (x ∷ []) keep = ap some (keep x)
last_mode-modify_last f (x ∷ y ∷ []) keep = ap some (keep y)
last_mode-modify_last f (x ∷ y ∷ z ∷ segs) keep = last_mode-modify_last f (y ∷ z ∷ segs) keep

last_mode-append :
    (segs : List ModeSegment) (seg : ModeSegment) → last_mode (segs ++ seg ∷ []) ≡ some seg.mode
last_mode-append [] seg = refl
last_mode-append (x ∷ []) seg = refl
last_mode-append (x ∷ y ∷ segs) seg = last_mode-append (y ∷ segs) seg

finish_segment-start :
    (ts : Option Instant) (seg : ModeSegment) → (finish_segment ts seg).started_at ≡ seg.started_at
unfolding finish_segment
finish_segment-start ts seg = ground arith

record ModeInv {J : Type 0} (at : Instant) (s : DeriveState J) : Type 0 where
  contiguous : IsContiguous s.mode_segments
  starts : StartsAt at s.mode_segments
  current : s.current_mode ≡ last_mode s.mode_segments

module _ {J : Type 0} (at : Instant) where
  open_segment-ModeInv :
      (wire : Option Text) (ts : Instant) (s : DeriveState J)
      → ModeInv at s
      → ModeInv at (
          open_segment wire ts
            (record s { mode_segments = modify_last (end_segment ts) s.mode_segments }))
  unfolding open_segment
  open_segment-ModeInv none ts s h = record {
    contiguous = IsContiguous-modify_last _ s.mode_segments (λ seg. refl) h.contiguous;
    starts = StartsAt-modify_last at _ s.mode_segments (λ seg. refl) h.starts;
    current = rw last_mode-modify_last h.current;
  }
  open_segment-ModeInv (some wire) ts s h = record {
    contiguous = IsContiguous-open ts _ s.mode_segments h.contiguous;
    starts =
        StartsAt-append at _ _ (StartsAt-modify_last at _ s.mode_segments (λ seg. refl) h.starts);
    current = sym (last_mode-append (modify_last (end_segment ts) s.mode_segments) _);
  }

  observe_timestamp-ModeInv : Preserves (ModeInv {J = J} at) observe_timestamp
  unfolding observe_timestamp
  observe_timestamp-ModeInv ev s h = grind arith

  accumulate_loaded_mcp_tools-ModeInv : Preserves (ModeInv {J = J} at) accumulate_loaded_mcp_tools
  unfolding accumulate_loaded_mcp_tools
  accumulate_loaded_mcp_tools-ModeInv ev s h = grind arith

  on_turn_start-ModeInv : Preserves (ModeInv {J = J} at) on_turn_start
  unfolding on_turn_start
  on_turn_start-ModeInv ev s h = grind arith

  on_turn_end-ModeInv : Preserves (ModeInv {J = J} at) on_turn_end
  unfolding on_turn_end
  on_turn_end-ModeInv ev s h = grind arith

  on_assistant_message-ModeInv : Preserves (ModeInv {J = J} at) on_assistant_message
  unfolding on_assistant_message
  on_assistant_message-ModeInv ev s h = grind arith

  on_tool_start-ModeInv : Preserves (ModeInv {J = J} at) on_tool_start
  unfolding on_tool_start
  on_tool_start-ModeInv ev s h = grind arith

  on_tool_complete-ModeInv : Preserves (ModeInv {J = J} at) on_tool_complete
  unfolding on_tool_complete commit_tool_call
  on_tool_complete-ModeInv ev s h = grind arith

  on_tool_user_requested-ModeInv : Preserves (ModeInv {J = J} at) on_tool_user_requested
  unfolding on_tool_user_requested
  on_tool_user_requested-ModeInv ev s h = grind arith

  on_hook_start-ModeInv : Preserves (ModeInv {J = J} at) on_hook_start
  unfolding on_hook_start
  on_hook_start-ModeInv ev s h = grind arith

  on_hook_end-ModeInv : Preserves (ModeInv {J = J} at) on_hook_end
  unfolding on_hook_end commit_hook_call
  on_hook_end-ModeInv ev s h = grind arith

  on_skill_invoked-ModeInv : Preserves (ModeInv {J = J} at) on_skill_invoked
  unfolding on_skill_invoked
  on_skill_invoked-ModeInv ev s h = grind arith

  on_abort-ModeInv : Preserves (ModeInv {J = J} at) on_abort
  unfolding on_abort commit_tool_call commit_hook_call
  on_abort-ModeInv ev s h = grind arith

  on_session_shutdown-ModeInv : Preserves (ModeInv {J = J} at) on_session_shutdown
  unfolding on_session_shutdown
  on_session_shutdown-ModeInv ev s h = grind arith

  bump-ModeInv : Preserves (ModeInv {J = J} at) (λ ev. bump_skill_windows)
  unfolding bump_skill_windows
  bump-ModeInv ev s h = record { contiguous = h.contiguous; starts = h.starts; current = h.current }

  Keeps-ModeInv : Keeps (ModeInv {J = J} at)
  unfolding on_mode_event
  Keeps-ModeInv = record {
    observe = observe_timestamp-ModeInv;
    loaded = accumulate_loaded_mcp_tools-ModeInv;
    turn_start = on_turn_start-ModeInv;
    turn_end = on_turn_end-ModeInv;
    message = on_assistant_message-ModeInv;
    tool_start = on_tool_start-ModeInv;
    tool_complete = on_tool_complete-ModeInv;
    user_requested = on_tool_user_requested-ModeInv;
    hook_start = on_hook_start-ModeInv;
    hook_end = on_hook_end-ModeInv;
    skill = on_skill_invoked-ModeInv;
    mode = λ ev s. open_segment-ModeInv ev.payload_mode ev.timestamp s;
    abort = on_abort-ModeInv;
    shutdown = on_session_shutdown-ModeInv;
  }

module _ {J : Type 0} where
  close_tools-segments :
      (last_ts : Option Instant) (os : List OpenToolCall) (s : DeriveState J)
      → (close_tools last_ts os s).mode_segments ≡ s.mode_segments
  unfolding close_tools close_tool commit_tool_call
  close_tools-segments last_ts [] s = refl
  close_tools-segments last_ts (o ∷ os) s = close_tools-segments last_ts os (close_tool last_ts o s)

  close_hooks-segments :
      (last_ts : Option Instant) (os : List OpenHookCall) (s : DeriveState J)
      → (close_hooks last_ts os s).mode_segments ≡ s.mode_segments
  unfolding close_hooks close_hook_call commit_hook_call
  close_hooks-segments last_ts [] s = refl
  close_hooks-segments last_ts (o ∷ os) s =
      close_hooks-segments last_ts os (close_hook_call last_ts o s)

  close_all-segments :
      (s : DeriveState J)
      → (close_all s).mode_segments ≡ modify_last (finish_segment s.last_event_ts) s.mode_segments
  unfolding close_all
  close_all-segments s = rw (close_hooks-segments, close_tools-segments)

  -- The mode segments of a derivation start with the session and lie end to end: each but the last
  -- ends exactly where the next one starts.
  pub derive_episodes-IsContiguous :
      (events : List (Event J)) (started_at : Instant)
      → let segs = (derive_episodes events started_at).mode_segments in
        IsContiguous segs × StartsAt started_at segs
  unfolding derive_episodes finalize new_state
  derive_episodes-IsContiguous events started_at =
      let start : DeriveState J = new_state started_at (collect_args events []) in
      let before : ModeInv started_at start = record {
        contiguous = tt;
        starts = refl;
        current = refl;
      } in
      let s = run start events in
      let after =
        run-Preserves (Keeps-ModeInv started_at) (bump-ModeInv started_at) start events before in
      rw close_all-segments (
        IsContiguous-modify_last _ s.mode_segments (finish_segment-start _) after.contiguous,
        StartsAt-modify_last started_at _ s.mode_segments (finish_segment-start _) after.starts,
      )
