-- ===== src/Derive/Windows.antt =====
-- How long the window of a skill stays open.
use agentprof.Base.{
  ℕ, suc, ◌+◌, ◌-◌, ◌<◌, ◌≡◌, Option, none, some, List, [], ◌∷◌, ◌++◌, arith, ltb, if◌then◌else◌,
  refl, append-nil, append_assoc, ap, length, sym, ◌∙◌, All, subst,
}
use agentprof.Order.{Text, text_ord}
use agentprof.Map.{get, or_default}
use agentprof.Episode.{new_skill_episode}
use agentprof.Event.{Event, EventKind}
use agentprof.Derive.{
  name_or_id, resolve_payload_name, invoke, DeriveState, OpenSkill, shrink_windows,
  skill_trigger_window, step, run, observe_timestamp, accumulate_loaded_mcp_tools,
  bump_skill_windows, on_turn_start, on_turn_end, on_assistant_message, on_tool_start,
  on_tool_complete, on_tool_user_requested, on_hook_start, on_hook_end, on_skill_invoked,
  on_mode_event, on_abort, on_session_shutdown, commit_tool_call, commit_hook_call,
}
use agentprof.Derive.Keeps.{Preserves, Keeps, handle-Preserves}

-- The windows that are left after `n` events, each with `n` events less.
abbrev pub age : ℕ → List OpenSkill → List OpenSkill
age n [] = []
age n (o ∷ os) =
    let rest = age n os in
    if ltb n o.window_remaining
    then record o { window_remaining = o.window_remaining - n } ∷ rest
    else rest

age-append : (n : ℕ) (xs ys : List OpenSkill) → age n (xs ++ ys) ≡ age n xs ++ age n ys
age-append n [] ys = refl
age-append n (x ∷ xs) ys = ground (arith, age-append n xs ys)

shrink-age : (n : ℕ) (os : List OpenSkill) → shrink_windows (age n os) ≡ age (suc n) os
unfolding shrink_windows
shrink-age n [] = refl
shrink-age n (o ∷ os) = ground (arith, shrink-age n os)

pub shrink-append :
    (xs ys : List OpenSkill) → shrink_windows (xs ++ ys) ≡ shrink_windows xs ++ shrink_windows ys
unfolding shrink_windows
shrink-append [] ys = refl
shrink-append (x ∷ xs) ys = ground (arith, shrink-append xs ys)

age-zero : (os : List OpenSkill) → All (λ o. 0 < o.window_remaining) os → age 0 os ≡ os
age-zero [] h = refl
age-zero (o ∷ os) h = ground (arith, age-zero os h.1)

-- The window of a new invocation.
new_window : {J : Type 0} → DeriveState J → Text → OpenSkill
new_window s name = record {
  name = name;
  invocation_idx = length (or_default (new_skill_episode name) (get name s.skills)).invocations;
  window_remaining = skill_trigger_window;
}

-- A list that another one starts.
abbrev pub Extends : List OpenSkill → List OpenSkill → Type 0
Extends base os = (newer : List OpenSkill) × (os ≡ base ++ newer)

module _ {J : Type 0} (base : List OpenSkill) where
  abbrev Opens : DeriveState J → Type 0
  Opens s = Extends base s.open_skills

  observe_timestamp-Opens : Preserves Opens observe_timestamp
  unfolding observe_timestamp
  observe_timestamp-Opens ev s (newer, e) = (newer, ground arith)

  accumulate_loaded_mcp_tools-Opens : Preserves Opens accumulate_loaded_mcp_tools
  unfolding accumulate_loaded_mcp_tools
  accumulate_loaded_mcp_tools-Opens ev s (newer, e) = (newer, ground arith)

  on_turn_start-Opens : Preserves Opens on_turn_start
  unfolding on_turn_start
  on_turn_start-Opens ev s (newer, e) = (newer, ground arith)

  on_turn_end-Opens : Preserves Opens on_turn_end
  unfolding on_turn_end
  on_turn_end-Opens ev s (newer, e) = (newer, ground arith)

  on_assistant_message-Opens : Preserves Opens on_assistant_message
  unfolding on_assistant_message
  on_assistant_message-Opens ev s (newer, e) = (newer, ground arith)

  on_tool_start-Opens : Preserves Opens on_tool_start
  unfolding on_tool_start
  on_tool_start-Opens ev s (newer, e) = (newer, ground arith)

  on_tool_complete-Opens : Preserves Opens on_tool_complete
  unfolding on_tool_complete commit_tool_call
  on_tool_complete-Opens ev s (newer, e) = (newer, ground arith)

  on_tool_user_requested-Opens : Preserves Opens on_tool_user_requested
  unfolding on_tool_user_requested
  on_tool_user_requested-Opens ev s (newer, e) = (newer, ground arith)

  on_hook_start-Opens : Preserves Opens on_hook_start
  unfolding on_hook_start
  on_hook_start-Opens ev s (newer, e) = (newer, ground arith)

  on_hook_end-Opens : Preserves Opens on_hook_end
  unfolding on_hook_end commit_hook_call
  on_hook_end-Opens ev s (newer, e) = (newer, ground arith)

  on_mode_event-Opens : Preserves Opens on_mode_event
  unfolding on_mode_event
  on_mode_event-Opens ev s (newer, e) = (newer, ground arith)

  on_abort-Opens : Preserves Opens on_abort
  unfolding on_abort commit_tool_call commit_hook_call
  on_abort-Opens ev s (newer, e) = (newer, ground arith)

  on_session_shutdown-Opens : Preserves Opens on_session_shutdown
  unfolding on_session_shutdown
  on_session_shutdown-Opens ev s (newer, e) = (newer, ground arith)

  invoke-Opens :
      (ev : Event J) (s : DeriveState J) (name : Text) → Opens s → Opens (invoke ev s name)
  unfolding invoke new_window
  invoke-Opens ev s name (newer, e) =
      (newer ++ new_window s name ∷ [], rw e (append_assoc base newer (new_window s name ∷ [])))

  name_or_id-Opens :
      (name : Option Text) (ev : Event J) (kind : EventKind) (s : DeriveState J)
      → Opens s
      → Opens (name_or_id name ev kind s).0
  unfolding name_or_id
  name_or_id-Opens none ev kind s (newer, e) = (newer, e)
  name_or_id-Opens (some name) ev kind s h = h

  on_skill_invoked-Opens : Preserves Opens on_skill_invoked
  unfolding on_skill_invoked resolve_payload_name
  on_skill_invoked-Opens ev s h =
      let (s', name) = resolve_payload_name ev EventKind.skill_invoked s in
      invoke-Opens ev s' name (name_or_id-Opens ev.payload_name ev EventKind.skill_invoked s h)

  Keeps-Opens : Keeps Opens
  Keeps-Opens = record {
    observe = observe_timestamp-Opens;
    loaded = accumulate_loaded_mcp_tools-Opens;
    turn_start = on_turn_start-Opens;
    turn_end = on_turn_end-Opens;
    message = on_assistant_message-Opens;
    tool_start = on_tool_start-Opens;
    tool_complete = on_tool_complete-Opens;
    user_requested = on_tool_user_requested-Opens;
    hook_start = on_hook_start-Opens;
    hook_end = on_hook_end-Opens;
    skill = on_skill_invoked-Opens;
    mode = on_mode_event-Opens;
    abort = on_abort-Opens;
    shutdown = on_session_shutdown-Opens;
  }

module _ {J : Type 0} where
  step-age :
      (n : ℕ) (base : List OpenSkill) (s : DeriveState J) (ev : Event J)
      → Extends (age n base) s.open_skills
      → Extends (age (suc n) base) (step s ev).open_skills
  unfolding step bump_skill_windows
  step-age n base s ev h =
      let (newer, e) = handle-Preserves (Keeps-Opens (age n base)) ev s h in
      (
        shrink_windows newer,
        ap shrink_windows e
            ∙ shrink-append (age n base) newer
            ∙ ap (λ os. os ++ shrink_windows newer) (shrink-age n base),
      )

  run-age :
      (n : ℕ) (base : List OpenSkill) (s : DeriveState J) (events : List (Event J))
      → Extends (age n base) s.open_skills
      → Extends (age (n + length events) base) (run s events).open_skills
  unfolding run
  run-age n base s [] h = subst (λ k. Extends (age k base) s.open_skills) (omega arith) h
  run-age n base s (ev ∷ events) h =
      subst (λ k. Extends (age k base) (run s (ev ∷ events)).open_skills) (omega arith)
        (run-age (suc n) base (step s ev) events (step-age n base s ev h))

  -- While events are read, each window of a skill that is open loses one event for each event, is
  -- dropped when none is left, and keeps its place before the windows that are opened later.
  pub run-Extends :
      (s : DeriveState J) (events : List (Event J))
      → All (λ o. 0 < o.window_remaining) s.open_skills
      → Extends (age (length events) s.open_skills) (run s events).open_skills
  run-Extends s events h =
      let z : 0 + length events ≡ length events = omega arith in
      subst (λ k. Extends (age k s.open_skills) (run s events).open_skills) z
        (run-age 0 s.open_skills s events
          ([], sym (age-zero s.open_skills h) ∙ sym (append-nil (age 0 s.open_skills))))
