-- ===== src/Derive/Totals.antt =====
-- The starts of a list of events against what the whole derivation yields.
use agentprof.Base.{
  ℕ, ◌+◌, ◌≡◌, Bool, false, refl, Option, none, List, [], ◌∷◌, arith, length, count, reverse,
  length-reverse,
}
use agentprof.Event.{Event, EventKind, Instant}
use agentprof.Order.{Text}
use agentprof.Map.{BTreeMap}
use agentprof.Episode.{Episodes}
use agentprof.Derive.{
  step, DeriveState, new_state, collect_args, run, OpenToolCall, OpenHookCall, close_tool,
  close_hook_call, close_tools, close_hooks, close_all, finalize, derive_episodes, commit_tool_call,
  commit_hook_call,
}
use agentprof.Derive.Counts.{
  turn_orphan, tool_orphan, hook_orphan, tool_call_count, hook_call_count, invocation_count,
}
use agentprof.Derive.Balance.{
  Starts, IsBalanced, see, is_turn_start, is_tool_start, is_hook_start, is_skill_invoked,
  step-IsBalanced, counts,
}
use agentprof.Derive.Orphans.{Tally, tally_all, IsTallied, run-IsTallied}

-- Before the first event nothing is open.
abbrev pub no_events : Tally
no_events = record {
  turn = false;
  tools = 0;
  hooks = 0;
  turn_ends = 0;
  tool_ends = 0;
  hook_ends = 0;
}

module _ {J : Type 0} where
  -- How many events of a list have a kind that passes a test.
  abbrev pub count_kind : (EventKind → Bool) → List (Event J) → ℕ
  count_kind test = count (λ ev. test ev.kind)

  abbrev add_starts : Starts → List (Event J) → Starts
  add_starts n events = record {
    turns = n.turns + count_kind is_turn_start events;
    tools = n.tools + count_kind is_tool_start events;
    hooks = n.hooks + count_kind is_hook_start events;
    skills = n.skills + count_kind is_skill_invoked events;
  }

  run-IsBalanced :
      (n : Starts) (s : DeriveState J) (events : List (Event J))
      → IsBalanced n s
      → IsBalanced (add_starts n events) (run s events)
  unfolding run
  run-IsBalanced n s [] h = omega arith
  run-IsBalanced n s (ev ∷ events) h =
      let rest = run-IsBalanced (see ev.kind n) (step s ev) events (step-IsBalanced n ev s h) in
      omega arith

  -- Closing open calls turns each into one call, and warns of no missing start.
  record Closes (s s' : DeriveState J) (more_tools more_hooks : ℕ) : Type 0 where
    turns : length s'.turns ≡ length s.turns
    tools : tool_call_count s'.tools ≡ tool_call_count s.tools + more_tools
    hooks : hook_call_count s'.hooks ≡ hook_call_count s.hooks + more_hooks
    skills : invocation_count s'.skills ≡ invocation_count s.skills
    turn_warnings : count turn_orphan s'.warnings ≡ count turn_orphan s.warnings
    tool_warnings : count tool_orphan s'.warnings ≡ count tool_orphan s.warnings
    hook_warnings : count hook_orphan s'.warnings ≡ count hook_orphan s.warnings
    tools_left : length s'.open_tool_calls ≡ length s.open_tool_calls
    hooks_left : s'.open_hook_calls ≡ s.open_hook_calls

  close_tool-Closes :
      (last_ts : Option Instant) (o : OpenToolCall) (s : DeriveState J)
      → Closes s (close_tool last_ts o s) 1 0
  unfolding close_tool commit_tool_call
  close_tool-Closes last_ts o s = grind counts

  close_hook_call-Closes :
      (last_ts : Option Instant) (o : OpenHookCall) (s : DeriveState J)
      → Closes s (close_hook_call last_ts o s) 0 1
  unfolding close_hook_call commit_hook_call
  close_hook_call-Closes last_ts o s = grind counts

  close_tools-Closes :
      (last_ts : Option Instant) (os : List OpenToolCall) (s : DeriveState J)
      → Closes s (close_tools last_ts os s) (length os) 0
  unfolding close_tools
  close_tools-Closes last_ts [] s = ground arith
  close_tools-Closes last_ts (o ∷ os) s =
      let rest = close_tools-Closes last_ts os (close_tool last_ts o s) in
      let first = close_tool-Closes last_ts o s in ground arith

  close_hooks-Closes :
      (last_ts : Option Instant) (os : List OpenHookCall) (s : DeriveState J)
      → Closes s (close_hooks last_ts os s) 0 (length os)
  unfolding close_hooks
  close_hooks-Closes last_ts [] s = ground arith
  close_hooks-Closes last_ts (o ∷ os) s =
      let rest = close_hooks-Closes last_ts os (close_hook_call last_ts o s) in
      let first = close_hook_call-Closes last_ts o s in ground arith

  -- After `close_all` nothing is open, and the balance and the ends without a start are kept.
  record IsClosed (n : Starts) (t : Tally) (s : DeriveState J) : Type 0 where
    balanced : IsBalanced n s
    no_tool : length s.open_tool_calls ≡ 0
    no_hook : length s.open_hook_calls ≡ 0
    turn_ends : count turn_orphan s.warnings ≡ t.turn_ends
    tool_ends : count tool_orphan s.warnings ≡ t.tool_ends
    hook_ends : count hook_orphan s.warnings ≡ t.hook_ends

  close_all-IsClosed :
      (n : Starts) (t : Tally) (s : DeriveState J)
      → IsBalanced n s
      → IsTallied t s
      → IsClosed n t (close_all s)
  unfolding close_all
  close_all-IsClosed n t s h k =
      let s₁ : DeriveState J = record s { open_turn_idx = none; open_tool_calls = [] } in
      let s₂ = close_tools s.last_event_ts (reverse s.open_tool_calls) s₁ in
      let s₃ : DeriveState J = record s₂ { open_hook_calls = [] } in
      let first = close_tools-Closes s.last_event_ts (reverse s.open_tool_calls) s₁ in
      let then_hooks = close_hooks-Closes s.last_event_ts (reverse s₂.open_hook_calls) s₃ in
      ground (arith, length-reverse s.open_tool_calls, length-reverse s₂.open_hook_calls)

  new_state-IsBalanced :
      (started_at : Instant) (args : BTreeMap Text J)
      → IsBalanced
          (record { turns = 0; tools = 0; hooks = 0; skills = 0 })
          (new_state started_at args)
  unfolding new_state
  new_state-IsBalanced started_at args = omega arith

  new_state-IsTallied :
      (started_at : Instant) (args : BTreeMap Text J)
      → IsTallied no_events (new_state started_at args)
  unfolding new_state
  new_state-IsTallied started_at args = record {
    turn = refl;
    tools = refl;
    hooks = refl;
    turn_ends = refl;
    tool_ends = refl;
    hook_ends = refl;
  }

  -- The totals of what is derived.
  pub record IsAccounted (events : List (Event J)) (e : Episodes J) : Type 0 where
    pub turns : length e.turns ≡ count_kind is_turn_start events + count turn_orphan e.warnings
    pub tools :
        tool_call_count e.tools ≡ count_kind is_tool_start events + count tool_orphan e.warnings
    pub hooks :
        hook_call_count e.hooks ≡ count_kind is_hook_start events + count hook_orphan e.warnings
    pub skills : invocation_count e.skills ≡ count_kind is_skill_invoked events
    pub turn_ends : count turn_orphan e.warnings ≡ (tally_all no_events events).turn_ends
    pub tool_ends : count tool_orphan e.warnings ≡ (tally_all no_events events).tool_ends
    pub hook_ends : count hook_orphan e.warnings ≡ (tally_all no_events events).hook_ends

  -- The turns of a derivation are as many as the turn starts and the turn ends that came without
  -- a start; so for tool calls and for hook calls; and there is one invocation for each event of
  -- an invoked skill. An end came without a start if the kinds of the events before it, counted up
  -- and down, leave nothing of its sort open, where an abort takes a tool call, else a hook call,
  -- else the turn; and there is one warning of a missing start for each such end. No call is lost
  -- or counted twice, whatever the order of the events.
  pub derive_episodes-IsAccounted :
      (events : List (Event J)) (started_at : Instant)
      → IsAccounted events (derive_episodes events started_at)
  unfolding derive_episodes finalize
  derive_episodes-IsAccounted events started_at =
      let start = new_state started_at (collect_args events []) in
      let none_yet : Starts = record { turns = 0; tools = 0; hooks = 0; skills = 0 } in
      let nothing : IsTallied no_events start = new_state-IsTallied started_at _ in
      let done =
        close_all-IsClosed (add_starts none_yet events) (tally_all no_events events)
          (run start events)
          (run-IsBalanced none_yet start events (new_state-IsBalanced started_at _))
          (run-IsTallied no_events start events nothing) in
      omega arith
