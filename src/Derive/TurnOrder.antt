-- ===== src/Derive/TurnOrder.antt =====
-- The turns of a derivation: which one is open, and when a turn has an end.
use agentprof.Base.{
  ℕ, suc, ◌≤◌, ◌≡◌, Option, none, some, List, [], ◌∷◌, ◌++◌, arith, length, length-append,
  length-modify_at, modify_at, All, All-append, All-modify_at, is_some, true, false, Bool,
}
use agentprof.Base.Words.{u32_max}
use agentprof.Order.{Text}
use agentprof.Event.{Event, Instant}
use agentprof.Episode.{Turn, TurnStatus, still_open, CallRef}
use agentprof.Derive.{
  DeriveState, new_state, collect_args, run, close_all, close_tools, close_hooks, close_tool,
  close_hook_call, finalize, derive_episodes, push_at, push_tool_ref, push_hook_ref, push_skill_ref,
  observe_timestamp, accumulate_loaded_mcp_tools, bump_skill_windows, on_turn_start, on_turn_end,
  on_assistant_message, on_tool_start, on_tool_complete, on_tool_user_requested, on_hook_start,
  on_hook_end, on_skill_invoked, on_mode_event, on_abort, on_session_shutdown, commit_tool_call,
  commit_hook_call, OpenToolCall, OpenHookCall, end_turn,
}
use agentprof.Derive.Counts.{length-push_tool_ref, length-push_hook_ref, length-push_skill_ref}
use agentprof.Derive.Keeps.{Preserves, Keeps, run-Preserves}

abbrev pub is_closed : TurnStatus → Bool
is_closed still_open = false
is_closed _ = true

abbrev pub FitsU32 : Option ℕ → Type 0
FitsU32 none = Unit
FitsU32 (some n) = n ≤ u32_max

-- A turn has an end exactly if it is closed, and its token count fits its machine word.
pub record IsSettled (t : Turn) : Type 0 where
  pub ended : is_some t.ended_at ≡ is_closed t.status
  pub tokens : FitsU32 t.output_tokens

-- An open turn is the last one.
abbrev pub IsLast : Option ℕ → ℕ → Type 0
IsLast none n = Unit
IsLast (some i) n = suc i ≡ n

record TurnInv {J : Type 0} (s : DeriveState J) : Type 0 where
  settled : All IsSettled s.turns
  last : IsLast s.open_turn_idx (length s.turns)

IsSettled-append :
    (turns : List Turn) (t : Turn)
    → All IsSettled turns
    → IsSettled t
    → All IsSettled (turns ++ t ∷ [])
IsSettled-append turns t h k = All-append IsSettled turns (t ∷ []) h (k, tt)

IsSettled-push :
    (i : Option ℕ) (f : Turn → Turn) (turns : List Turn)
    → ((t : Turn) → IsSettled t → IsSettled (f t))
    → All IsSettled turns
    → All IsSettled (push_at i f turns)
IsSettled-push none f turns keep h = h
IsSettled-push (some i) f turns keep h = All-modify_at IsSettled i f turns keep h

IsSettled-tool_ref :
    (id : Option Text) (r : CallRef) (turns : List Turn)
    → All IsSettled turns
    → All IsSettled (push_tool_ref id r turns)
IsSettled-tool_ref none r turns h = h
IsSettled-tool_ref (some id) r turns h =
    IsSettled-push _ _ turns (λ t k. record { ended = k.ended; tokens = k.tokens }) h

IsSettled-hook_ref :
    (id : Option Text) (r : CallRef) (turns : List Turn)
    → All IsSettled turns
    → All IsSettled (push_hook_ref id r turns)
IsSettled-hook_ref none r turns h = h
IsSettled-hook_ref (some id) r turns h =
    IsSettled-push _ _ turns (λ t k. record { ended = k.ended; tokens = k.tokens }) h

IsSettled-skill_ref :
    (i : Option ℕ) (r : CallRef) (turns : List Turn)
    → All IsSettled turns
    → All IsSettled (push_skill_ref i r turns)
IsSettled-skill_ref none r turns h = h
IsSettled-skill_ref (some i) r turns h =
    All-modify_at IsSettled i _ turns (λ t k. record { ended = k.ended; tokens = k.tokens }) h

IsSettled-modify :
    (i : ℕ) (f : Turn → Turn) (turns : List Turn)
    → ((t : Turn) → IsSettled t → IsSettled (f t))
    → All IsSettled turns
    → All IsSettled (modify_at i f turns)
IsSettled-modify i f turns keep h = All-modify_at IsSettled i f turns keep h

module _ {J : Type 0} where
  IsSettled-end : (ev : Event J) (t : Turn) → IsSettled t → IsSettled (end_turn ev t)
  IsSettled-end ev t k = ground arith

  ruleset turn_lemmas = (
    arith, IsSettled-end, IsSettled-modify, length-append, length-modify_at, length-push_tool_ref,
    length-push_hook_ref, length-push_skill_ref, IsSettled-append, IsSettled-tool_ref,
    IsSettled-hook_ref, IsSettled-skill_ref,
  )

  observe_timestamp-TurnInv : Preserves (TurnInv {J = J}) observe_timestamp
  unfolding observe_timestamp
  observe_timestamp-TurnInv ev s h = grind turn_lemmas

  accumulate_loaded_mcp_tools-TurnInv : Preserves (TurnInv {J = J}) accumulate_loaded_mcp_tools
  unfolding accumulate_loaded_mcp_tools
  accumulate_loaded_mcp_tools-TurnInv ev s h = grind turn_lemmas

  on_turn_start-TurnInv : Preserves (TurnInv {J = J}) on_turn_start
  unfolding on_turn_start
  on_turn_start-TurnInv ev s h = grind turn_lemmas

  on_turn_end-TurnInv : Preserves (TurnInv {J = J}) on_turn_end
  unfolding on_turn_end
  on_turn_end-TurnInv ev s h = grind turn_lemmas

  on_assistant_message-TurnInv : Preserves (TurnInv {J = J}) on_assistant_message
  unfolding on_assistant_message
  on_assistant_message-TurnInv ev s h = grind turn_lemmas

  on_tool_start-TurnInv : Preserves (TurnInv {J = J}) on_tool_start
  unfolding on_tool_start
  on_tool_start-TurnInv ev s h = grind turn_lemmas

  on_tool_complete-TurnInv : Preserves (TurnInv {J = J}) on_tool_complete
  unfolding on_tool_complete commit_tool_call
  on_tool_complete-TurnInv ev s h = grind turn_lemmas

  on_tool_user_requested-TurnInv : Preserves (TurnInv {J = J}) on_tool_user_requested
  unfolding on_tool_user_requested
  on_tool_user_requested-TurnInv ev s h = grind turn_lemmas

  on_hook_start-TurnInv : Preserves (TurnInv {J = J}) on_hook_start
  unfolding on_hook_start
  on_hook_start-TurnInv ev s h = grind turn_lemmas

  on_hook_end-TurnInv : Preserves (TurnInv {J = J}) on_hook_end
  unfolding on_hook_end commit_hook_call
  on_hook_end-TurnInv ev s h = grind turn_lemmas

  on_skill_invoked-TurnInv : Preserves (TurnInv {J = J}) on_skill_invoked
  unfolding on_skill_invoked
  on_skill_invoked-TurnInv ev s h = grind turn_lemmas

  on_mode_event-TurnInv : Preserves (TurnInv {J = J}) on_mode_event
  unfolding on_mode_event
  on_mode_event-TurnInv ev s h = grind turn_lemmas

  on_abort-TurnInv : Preserves (TurnInv {J = J}) on_abort
  unfolding on_abort commit_tool_call commit_hook_call
  on_abort-TurnInv ev s h = grind turn_lemmas

  on_session_shutdown-TurnInv : Preserves (TurnInv {J = J}) on_session_shutdown
  unfolding on_session_shutdown
  on_session_shutdown-TurnInv ev s h = grind turn_lemmas

  bump-TurnInv : Preserves (TurnInv {J = J}) (λ ev. bump_skill_windows)
  unfolding bump_skill_windows
  bump-TurnInv ev s h = record { settled = h.settled; last = h.last }

  Keeps-TurnInv : Keeps (TurnInv {J = J})
  Keeps-TurnInv = record {
    observe = observe_timestamp-TurnInv;
    loaded = accumulate_loaded_mcp_tools-TurnInv;
    turn_start = on_turn_start-TurnInv;
    turn_end = on_turn_end-TurnInv;
    message = on_assistant_message-TurnInv;
    tool_start = on_tool_start-TurnInv;
    tool_complete = on_tool_complete-TurnInv;
    user_requested = on_tool_user_requested-TurnInv;
    hook_start = on_hook_start-TurnInv;
    hook_end = on_hook_end-TurnInv;
    skill = on_skill_invoked-TurnInv;
    mode = on_mode_event-TurnInv;
    abort = on_abort-TurnInv;
    shutdown = on_session_shutdown-TurnInv;
  }

  close_tools-IsSettled :
      (last_ts : Option Instant) (os : List OpenToolCall) (s : DeriveState J)
      → All IsSettled s.turns
      → All IsSettled (close_tools last_ts os s).turns
  unfolding close_tools close_tool commit_tool_call
  close_tools-IsSettled last_ts [] s h = h
  close_tools-IsSettled last_ts (o ∷ os) s h =
      close_tools-IsSettled last_ts os _ (IsSettled-tool_ref o.turn_id _ s.turns h)

  close_hooks-IsSettled :
      (last_ts : Option Instant) (os : List OpenHookCall) (s : DeriveState J)
      → All IsSettled s.turns
      → All IsSettled (close_hooks last_ts os s).turns
  unfolding close_hooks close_hook_call commit_hook_call
  close_hooks-IsSettled last_ts [] s h = h
  close_hooks-IsSettled last_ts (o ∷ os) s h =
      close_hooks-IsSettled last_ts os _ (IsSettled-hook_ref o.turn_id _ s.turns h)

  -- While the events are read, the index of the open turn is in bounds, and it is the last turn's.
  pub run-IsLast :
      (events : List (Event J)) (started_at : Instant)
      → let s = run (new_state started_at (collect_args events [])) events in
        IsLast s.open_turn_idx (length s.turns)
  unfolding new_state
  run-IsLast events started_at =
      (run-Preserves Keeps-TurnInv bump-TurnInv _ events (record { settled = tt; last = tt })).last

  -- Every turn of a derivation has an end exactly if it was completed or aborted, and its output
  -- tokens fit 32 bits.
  pub derive_episodes-IsSettled :
      (events : List (Event J)) (started_at : Instant)
      → All IsSettled (derive_episodes events started_at).turns
  unfolding derive_episodes finalize close_all new_state
  derive_episodes-IsSettled events started_at = close_hooks-IsSettled _ _ _ (
      close_tools-IsSettled _ _ _
        (run-Preserves Keeps-TurnInv bump-TurnInv _ events
          (record { settled = tt; last = tt })).settled)
