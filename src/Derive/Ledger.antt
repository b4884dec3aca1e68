-- ===== src/Derive/Ledger.antt =====
-- What an episode says of its calls: the name, the total time and the failures.
use agentprof.Base.{
  map, map-append, ◌≤◌, ◌≡◌, not, Option, List, [], ◌∷◌, ◌++◌, arith, min, count, All, All-append,
  count-append, sym, refl,
}
use agentprof.Base.Int.{ℤ, pos, ◌+ℤ◌, +ℤ_assoc, int_laws}
use agentprof.Base.Words.{u32_max}
use agentprof.Order.{Text, text_ord}
use agentprof.Map.{BTreeMap, AllEntries, AllEntries-upsert, upsert}
use agentprof.Event.{Event, Instant}
use agentprof.Model.ToolSource.{ToolSource}
use agentprof.Episode.{
  Span, new_span, instant_span, span_duration, ToolCall, ToolEpisode, new_tool_episode, HookCall,
  HookEpisode, new_hook_episode,
}
use agentprof.Derive.{
  DeriveState, new_state, close_all, close_tools, close_hooks, close_tool, close_hook_call,
  finalize, derive_episodes, is_failure, add_tool_call, add_hook_call, observe_timestamp,
  accumulate_loaded_mcp_tools, bump_skill_windows, on_turn_start, on_turn_end, on_assistant_message,
  on_tool_start, on_tool_complete, on_tool_user_requested, on_hook_start, on_hook_end,
  on_skill_invoked, on_mode_event, on_abort, on_session_shutdown, commit_tool_call,
  commit_hook_call, OpenToolCall, OpenHookCall,
}
use agentprof.Derive.Keeps.{Preserves, Keeps, run-Preserves}

-- A span does not end before it starts.
abbrev pub IsForward : Span → Type 0
IsForward s = s.started_at ≤ s.ended_at

pub new_span-IsForward : (a b : Instant) → IsForward (new_span a b)
unfolding new_span
new_span-IsForward a b = ground arith

pub instant_span-IsForward : (a : Instant) → IsForward (instant_span a)
unfolding instant_span
instant_span-IsForward a = omega arith

-- The sum of the durations of some spans.
unfoldable pub total : List Span → ℤ
total [] = pos 0
total (s ∷ ss) = span_duration s +ℤ total ss

total-append : (xs : List Span) (s : Span) → total (xs ++ s ∷ []) ≡ total xs +ℤ span_duration s
unfolding total
total-append [] s = omega int_laws
total-append (x ∷ xs) s = rw (total-append xs s) (sym (+ℤ_assoc (span_duration x) (total xs) _))

-- The episode of a name: the calls are forward in time, and the name, the total duration and the
-- count of failures are what the calls say.
pub record ToolLedger {J : Type 0} (name : Text) (ep : ToolEpisode J) : Type 0 where
  pub keyed : ep.name ≡ name
  pub forward : All (λ c. IsForward c.span) ep.calls
  pub duration : ep.total_duration ≡ total (map (λ c. c.span) ep.calls)
  pub failures : ep.fail_count ≡ min (count (λ c. is_failure c.status) ep.calls) u32_max

pub record HookLedger (name : Text) (ep : HookEpisode) : Type 0 where
  pub keyed : ep.name ≡ name
  pub forward : All (λ c. IsForward c.span) ep.calls
  pub duration : ep.total_duration ≡ total (map (λ c. c.span) ep.calls)
  pub failures : ep.failure_count ≡ min (count (λ c. not c.success) ep.calls) u32_max

total-snoc :
    {A : Type 0} (f : A → Span) (xs : List A) (x : A)
    → total (map f (xs ++ x ∷ [])) ≡ total (map f xs) +ℤ span_duration (f x)
total-snoc f xs x = rw map-append (total-append (map f xs) (f x))

add_hook_call-HookLedger :
    (name : Text) (call : HookCall) (ep : HookEpisode)
    → IsForward call.span
    → HookLedger name ep
    → HookLedger name (add_hook_call call ep)
add_hook_call-HookLedger name call ep fw h = record {
  keyed = h.keyed;
  forward = All-append _ ep.calls (call ∷ []) h.forward (fw, tt);
  duration = rw (h.duration) (sym (total-snoc (λ c. c.span) ep.calls call));
  failures = ground (arith, h.failures, count-append (λ c. not c.success) ep.calls (call ∷ []));
}

module _ {J : Type 0} where
  add_tool_call-ToolLedger :
      (name : Text) (call : ToolCall J) (ep : ToolEpisode J)
      → IsForward call.span
      → ToolLedger name ep
      → ToolLedger name (add_tool_call call ep)
  add_tool_call-ToolLedger name call ep fw h = record {
    keyed = h.keyed;
    forward = All-append _ ep.calls (call ∷ []) h.forward (fw, tt);
    duration = rw (h.duration) (sym (total-snoc (λ c. c.span) ep.calls call));
    failures =
        ground (arith, h.failures, count-append (λ c. is_failure c.status) ep.calls (call ∷ []));
  }

  upsert-ToolLedger :
      (name : Text) (source : ToolSource) (call : ToolCall J) (m : BTreeMap Text (ToolEpisode J))
      → IsForward call.span
      → AllEntries ToolLedger m
      → AllEntries ToolLedger (upsert name (new_tool_episode name source) (add_tool_call call) m)
  unfolding total
  upsert-ToolLedger name source call m fw h =
      AllEntries-upsert ToolLedger name (new_tool_episode name source) (add_tool_call call) m
        (add_tool_call-ToolLedger name call (new_tool_episode name source) fw
          (record { keyed = refl; forward = tt; duration = refl; failures = omega arith }))
        (λ j ep e k. add_tool_call-ToolLedger j call ep fw k) h

upsert-HookLedger :
    (name : Text) (call : HookCall) (m : BTreeMap Text HookEpisode)
    → IsForward call.span
    → AllEntries HookLedger m
    → AllEntries HookLedger (upsert name (new_hook_episode name) (add_hook_call call) m)
unfolding total
upsert-HookLedger name call m fw h =
    AllEntries-upsert HookLedger name (new_hook_episode name) (add_hook_call call) m
      (add_hook_call-HookLedger name call (new_hook_episode name) fw
        (record { keyed = refl; forward = tt; duration = refl; failures = omega arith }))
      (λ j ep e k. add_hook_call-HookLedger j call ep fw k) h

pub record IsLedgered {J : Type 0} (tools : BTreeMap Text (ToolEpisode J))
    (hooks : BTreeMap Text HookEpisode) : Type 0 where
  pub of_tools : AllEntries ToolLedger tools
  pub of_hooks : AllEntries HookLedger hooks

ruleset ledger_lemmas =
    (arith, upsert-ToolLedger, upsert-HookLedger, new_span-IsForward, instant_span-IsForward)

module _ {J : Type 0} where
  abbrev LedgerInv : DeriveState J → Type 0
  LedgerInv s = IsLedgered s.tools s.hooks

  observe_timestamp-Ledger : Preserves LedgerInv observe_timestamp
  unfolding observe_timestamp
  observe_timestamp-Ledger ev s h = grind ledger_lemmas

  accumulate_loaded_mcp_tools-Ledger : Preserves LedgerInv accumulate_loaded_mcp_tools
  unfolding accumulate_loaded_mcp_tools
  accumulate_loaded_mcp_tools-Ledger ev s h = grind ledger_lemmas

  on_turn_start-Ledger : Preserves LedgerInv on_turn_start
  unfolding on_turn_start
  on_turn_start-Ledger ev s h = grind ledger_lemmas

  on_turn_end-Ledger : Preserves LedgerInv on_turn_end
  unfolding on_turn_end
  on_turn_end-Ledger ev s h = grind ledger_lemmas

  on_assistant_message-Ledger : Preserves LedgerInv on_assistant_message
  unfolding on_assistant_message
  on_assistant_message-Ledger ev s h = grind ledger_lemmas

  on_tool_start-Ledger : Preserves LedgerInv on_tool_start
  unfolding on_tool_start
  on_tool_start-Ledger ev s h = grind ledger_lemmas

  on_tool_complete-Ledger : Preserves LedgerInv on_tool_complete
  unfolding on_tool_complete commit_tool_call
  on_tool_complete-Ledger ev s h = grind ledger_lemmas

  on_tool_user_requested-Ledger : Preserves LedgerInv on_tool_user_requested
  unfolding on_tool_user_requested
  on_tool_user_requested-Ledger ev s h = grind ledger_lemmas

  on_hook_start-Ledger : Preserves LedgerInv on_hook_start
  unfolding on_hook_start
  on_hook_start-Ledger ev s h = grind ledger_lemmas

  on_hook_end-Ledger : Preserves LedgerInv on_hook_end
  unfolding on_hook_end commit_hook_call
  on_hook_end-Ledger ev s h = grind ledger_lemmas

  on_skill_invoked-Ledger : Preserves LedgerInv on_skill_invoked
  unfolding on_skill_invoked
  on_skill_invoked-Ledger ev s h = grind ledger_lemmas

  on_mode_event-Ledger : Preserves LedgerInv on_mode_event
  unfolding on_mode_event
  on_mode_event-Ledger ev s h = grind ledger_lemmas

  on_abort-Ledger : Preserves LedgerInv on_abort
  unfolding on_abort commit_tool_call commit_hook_call
  on_abort-Ledger ev s h = grind ledger_lemmas

  on_session_shutdown-Ledger : Preserves LedgerInv on_session_shutdown
  unfolding on_session_shutdown
  on_session_shutdown-Ledger ev s h = grind ledger_lemmas

  bump-Ledger : Preserves LedgerInv (λ ev. bump_skill_windows)
  unfolding bump_skill_windows
  bump-Ledger ev s h = h

  Keeps-Ledger : Keeps LedgerInv
  Keeps-Ledger = record {
    observe = observe_timestamp-Ledger;
    loaded = accumulate_loaded_mcp_tools-Ledger;
    turn_start = on_turn_start-Ledger;
    turn_end = on_turn_end-Ledger;
    message = on_assistant_message-Ledger;
    tool_start = on_tool_start-Ledger;
    tool_complete = on_tool_complete-Ledger;
    user_requested = on_tool_user_requested-Ledger;
    hook_start = on_hook_start-Ledger;
    hook_end = on_hook_end-Ledger;
    skill = on_skill_invoked-Ledger;
    mode = on_mode_event-Ledger;
    abort = on_abort-Ledger;
    shutdown = on_session_shutdown-Ledger;
  }

  close_tools-Ledger :
      (last_ts : Option Instant) (os : List OpenToolCall) (s : DeriveState J)
      → LedgerInv s
      → LedgerInv (close_tools last_ts os s)
  unfolding close_tools close_tool commit_tool_call
  close_tools-Ledger last_ts [] s h = h
  close_tools-Ledger last_ts (o ∷ os) s h = close_tools-Ledger last_ts os _ (record {
    of_tools = upsert-ToolLedger o.name o.source _ s.tools (new_span-IsForward _ _) h.of_tools;
    of_hooks = h.of_hooks;
  })

  close_hooks-Ledger :
      (last_ts : Option Instant) (os : List OpenHookCall) (s : DeriveState J)
      → LedgerInv s
      → LedgerInv (close_hooks last_ts os s)
  unfolding close_hooks close_hook_call commit_hook_call
  close_hooks-Ledger last_ts [] s h = h
  close_hooks-Ledger last_ts (o ∷ os) s h = close_hooks-Ledger last_ts os _ (record {
    of_tools = h.of_tools;
    of_hooks = upsert-HookLedger o.name _ s.hooks (new_span-IsForward _ _) h.of_hooks;
  })

  -- In what is derived, each tool and each hook stands under its own name, no call ends before it
  -- starts, the total duration is the sum of the calls' durations, and the failures are counted,
  -- up to the largest 32-bit number.
  pub derive_episodes-IsLedgered :
      (events : List (Event J)) (started_at : Instant)
      → let e = derive_episodes events started_at in IsLedgered e.tools e.hooks
  unfolding derive_episodes finalize close_all new_state
  derive_episodes-IsLedgered events started_at = close_hooks-Ledger _ _ _ (
      close_tools-Ledger _ _ _
        (run-Preserves Keeps-Ledger bump-Ledger _ events (record { of_tools = tt; of_hooks = tt })))
