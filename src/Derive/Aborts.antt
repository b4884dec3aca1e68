-- ===== src/Derive/Aborts.antt =====
-- What an abort closes.
use agentprof.Base.{
  ℕ, ◌≡◌, ◌==◌, false, Option, none, some, List, [], ◌∷◌, ◌++◌, if◌then◌else◌, get_elem?, refl,
}
use agentprof.Order.{Text, text, text_ord}
use agentprof.Map.{get, map_option}
use agentprof.Event.{Event, Instant}
use agentprof.Model.ToolSource.{bind_option}
use agentprof.Episode.{Turn, aborted, failure, new_span, abort_without_open_element}
use agentprof.Derive.{
  DeriveState, OpenToolCall, OpenHookCall, on_abort, abort_tool, abort_hook, abort_turn,
  commit_tool_call, commit_hook_call,
}
use agentprof.Derive.Named.{
  tool_calls_of, hook_calls_of, added, tool_calls_of-upsert, hook_calls_of-upsert,
  get_elem?-modify_at,
}

-- A turn that an abort ends.
abbrev abort_at : Instant → Turn → Turn
abort_at at turn = record turn {
  status = aborted (record { reason = text "abort"; at = at });
  ended_at = some at;
}

module _ {J : Type 0} (ev : Event J) (s s' : DeriveState J) where
  -- An abort that finds something open is not recorded by itself.
  pub record IsSilent : Type 0 where
    aborts : s'.aborts ≡ s.aborts
    warnings : s'.warnings ≡ s.warnings

  -- The turn at an index is closed: it is aborted and ends with the event, the other turns stay.
  pub record AbortsTurn (idx : ℕ) : Type 0 where
    silent : IsSilent
    open_turn_idx : s'.open_turn_idx ≡ none
    turns :
        (i : ℕ)
        → get_elem? s'.turns i ≡ (
            if i == idx
            then map_option (abort_at ev.timestamp) (get_elem? s.turns i)
            else get_elem? s.turns i)

  -- A hook call is closed, and those under it are left open: it is recorded under its name as
  -- a failure that ends with the event.
  pub record AbortsHook (o : OpenHookCall) (os : List OpenHookCall) : Type 0 where
    silent : IsSilent
    open_turn_idx : s'.open_turn_idx ≡ s.open_turn_idx
    open_hook_calls : s'.open_hook_calls ≡ os
    calls :
        (name : Text)
        → hook_calls_of name s'.hooks
          ≡ added name o.name
              (record {
                span = new_span o.started_at ev.timestamp;
                turn_id = o.turn_id;
                success = false;
                synthesized_start = false;
              })
              (hook_calls_of name s.hooks)

  -- A tool call is closed, and those under it are left open: it is recorded under its name as
  -- a failure that ends with the event, with the arguments that were announced for its id.
  pub record AbortsTool (o : OpenToolCall) (os : List OpenToolCall) : Type 0 where
    silent : IsSilent
    open_turn_idx : s'.open_turn_idx ≡ s.open_turn_idx
    open_hook_calls : s'.open_hook_calls ≡ s.open_hook_calls
    open_tool_calls : s'.open_tool_calls ≡ os
    calls :
        (name : Text)
        → tool_calls_of name s'.tools
          ≡ added name o.name
              (record {
                span = new_span o.started_at ev.timestamp;
                turn_id = o.turn_id;
                status = failure (some (text "aborted"));
                user_requested = o.user_requested;
                arguments = bind_option o.tool_call_id (λ id. get id s.args_by_call_id);
              })
              (tool_calls_of name s.tools)

  -- What an abort does with no open call: it closes the open turn, or it is recorded.
  abbrev TurnCase : Option ℕ → Type 0
  TurnCase (some idx) = AbortsTurn idx
  TurnCase none = s' ≡ record s {
    aborts = s.aborts ++ record { reason = text "abort"; at = ev.timestamp } ∷ [];
    warnings = s.warnings ++ abort_without_open_element (text "abort") ev.timestamp ∷ [];
  }

  -- With no open tool call: the hook call that was opened last.
  abbrev HookCase : List OpenHookCall → Type 0
  HookCase (o ∷ os) = AbortsHook o os
  HookCase [] = TurnCase s.open_turn_idx

  -- The tool call that was opened last.
  abbrev ToolCase : List OpenToolCall → Type 0
  ToolCase (o ∷ os) = AbortsTool o os
  ToolCase [] = HookCase s.open_hook_calls

module _ {J : Type 0} where
  abort_turn-TurnCase :
      (idx : Option ℕ) (ev : Event J) (s : DeriveState J) → TurnCase ev s (abort_turn idx ev s) idx
  unfolding abort_turn
  abort_turn-TurnCase none ev s = refl
  abort_turn-TurnCase (some idx) ev s = record {
    silent = record { aborts = refl; warnings = refl };
    open_turn_idx = refl;
    turns = λ i. get_elem?-modify_at i idx (abort_at ev.timestamp) s.turns;
  }

  abort_hook-HookCase :
      (os : List OpenHookCall) (ev : Event J) (s : DeriveState J)
      → HookCase ev s (abort_hook os ev s) os
  unfolding abort_hook commit_hook_call
  abort_hook-HookCase [] ev s = abort_turn-TurnCase s.open_turn_idx ev s
  abort_hook-HookCase (o ∷ os) ev s = record {
    silent = record { aborts = refl; warnings = refl };
    open_turn_idx = refl;
    open_hook_calls = refl;
    calls = λ name. hook_calls_of-upsert name o.name _ s.hooks;
  }

  abort_tool-ToolCase :
      (os : List OpenToolCall) (ev : Event J) (s : DeriveState J)
      → ToolCase ev s (abort_tool os ev s) os
  unfolding abort_tool commit_tool_call
  abort_tool-ToolCase [] ev s = abort_hook-HookCase s.open_hook_calls ev s
  abort_tool-ToolCase (o ∷ os) ev s = record {
    silent = record { aborts = refl; warnings = refl };
    open_turn_idx = refl;
    open_hook_calls = refl;
    open_tool_calls = refl;
    calls = λ name. tool_calls_of-upsert name o.name o.source _ s.tools;
  }

  -- What an abort does, by what is open.
  abbrev pub Aborts : Event J → DeriveState J → DeriveState J → Type 0
  Aborts ev s s' = ToolCase ev s s' s.open_tool_calls

  -- An abort closes one open element: if a tool call is open, the tool call that was opened last,
  -- even if a hook call was opened after it; else the hook call that was opened last; else the open
  -- turn. The call is recorded under its name as a failure that ends with the abort, no call under
  -- another name changes, and the rest of its stack stays open; the turn is marked as aborted then.
  -- Only with nothing open it leaves all this alone, and is recorded by itself, with a warning.
  pub on_abort-Aborts : (ev : Event J) (s : DeriveState J) → Aborts ev s (on_abort ev s)
  unfolding on_abort
  on_abort-Aborts ev s = abort_tool-ToolCase s.open_tool_calls ev s
