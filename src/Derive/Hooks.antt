-- ===== src/Derive/Hooks.antt =====
-- derive.rs: the handlers of hooks.
use agentprof.Base.{
  Bool, true, false, Option, none, some, List, [], ◌∷◌, ◌++◌, if◌then◌else◌, length, rposition,
}
use agentprof.Base.Int.{◌+ℤ◌}
use agentprof.Base.Words.{u32_max, saturating_add}
use agentprof.Order.{Text, text_ord, eqb}
use agentprof.Map.{get, upsert, or_default}
use agentprof.Event.{Event, EventKind, Instant}
use agentprof.Episode.{
  CallRef, Turn, HookCall, HookEpisode, new_hook_episode, new_span, instant_span, span_duration,
  synthesized_start,
}
use agentprof.Derive.State.{DeriveState, OpenHookCall, resolve_payload_name, open_turn_id, warn}
use agentprof.Derive.Tools.{push_at}

abbrev pub add_hook_call : HookCall → HookEpisode → HookEpisode
add_hook_call call ep = record ep {
  calls = ep.calls ++ call ∷ [];
  total_duration = ep.total_duration +ℤ span_duration call.span;
  failure_count =
      if call.success then ep.failure_count else saturating_add u32_max ep.failure_count 1;
}

abbrev pub push_hook_ref : Option Text → CallRef → List Turn → List Turn
push_hook_ref none hook_ref turns = turns
push_hook_ref (some turn_id) hook_ref turns =
    push_at (rposition (λ t. eqb t.id turn_id) turns)
      (λ turn. record turn { hook_calls = turn.hook_calls ++ hook_ref ∷ [] }) turns

-- A missing flag counts as success.
abbrev pub wire_success : Option Bool → Bool
wire_success none = true
wire_success (some b) = b

-- The call that closes an open hook.
abbrev pub close_hook : OpenHookCall → Instant → Bool → HookCall
close_hook o at success = record {
  span = new_span o.started_at at;
  turn_id = o.turn_id;
  success = success;
  synthesized_start = false;
}

module _ {J : Type 0} where
  unfoldable pub commit_hook_call : Text → HookCall → DeriveState J → DeriveState J
  commit_hook_call name call s =
      let fresh = new_hook_episode name in
      let new_idx = length (or_default fresh (get name s.hooks)).calls in
      record s {
        hooks = upsert name fresh (add_hook_call call) s.hooks;
        turns = push_hook_ref call.turn_id (record { name = name; index = new_idx }) s.turns;
      }

  unfoldable pub start_hook : Event J → DeriveState J → Text → DeriveState J
  start_hook ev s name = record s {
    open_hook_calls =
        record { name = name; started_at = ev.timestamp; turn_id = open_turn_id s }
        ∷ s.open_hook_calls;
  }

  unfoldable pub on_hook_start : Event J → DeriveState J → DeriveState J
  unfolding start_hook resolve_payload_name
  on_hook_start ev s =
      let (s', name) = resolve_payload_name ev EventKind.hook_start s in start_hook ev s' name

  -- The end of a hook that no start is known for.
  unfoldable pub orphan_hook : Event J → DeriveState J → Text → DeriveState J
  orphan_hook ev s name = warn (synthesized_start EventKind.hook_start ev.id) (
      commit_hook_call name
        (record {
          span = instant_span ev.timestamp;
          turn_id = open_turn_id s;
          success = wire_success ev.payload_success;
          synthesized_start = true;
        })
        s)

  unfoldable pub end_top : List OpenHookCall → Event J → DeriveState J → DeriveState J
  unfolding orphan_hook resolve_payload_name
  end_top (o ∷ os) ev s =
      commit_hook_call o.name (close_hook o ev.timestamp (wire_success ev.payload_success))
        (record s { open_hook_calls = os })
  end_top [] ev s =
      let (s', name) = resolve_payload_name ev EventKind.hook_end s in orphan_hook ev s' name

  unfoldable pub on_hook_end : Event J → DeriveState J → DeriveState J
  unfolding end_top
  on_hook_end ev s = end_top s.open_hook_calls ev s
