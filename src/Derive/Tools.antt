-- ===== src/Derive/Tools.antt =====
-- derive.rs: the handlers of tool calls.
use agentprof.Base.{
  ℕ, Bool, true, false, Option, none, some, List, [], ◌∷◌, ◌++◌, if◌then◌else◌, length, modify_at,
  rposition, or_else,
}
use agentprof.Base.Int.{◌+ℤ◌}
use agentprof.Base.Words.{u32_max, saturating_add}
use agentprof.Order.{Text, text, text_ord, eqb}
use agentprof.Map.{get, upsert, or_default, contains_key, remove, insert_elem, map_option}
use agentprof.Event.{Event, EventKind, Instant}
use agentprof.Model.ToolSource.{ToolSource, infer, bind_option}
use agentprof.Episode.{
  CallRef, Turn, ToolCall, ToolCallStatus, success, failure, orphan_synthesized_start, ToolEpisode,
  new_tool_episode, new_span, instant_span, span_duration, synthesized_start,
}
use agentprof.Derive.State.{DeriveState, OpenToolCall, resolve_payload_name, open_turn_id, warn}
use agentprof.Derive.Skills.{attribute_to_skills}

abbrev pub orphan_tool_sentinel : Text
orphan_tool_sentinel = text "<orphan>"

abbrev pub is_failure : ToolCallStatus → Bool
is_failure (failure message) = true
is_failure _ = false

abbrev pub add_tool_call : {J : Type 0} → ToolCall J → ToolEpisode J → ToolEpisode J
add_tool_call call ep = record ep {
  calls = ep.calls ++ call ∷ [];
  total_duration = ep.total_duration +ℤ span_duration call.span;
  fail_count =
      if is_failure call.status then saturating_add u32_max ep.fail_count 1 else ep.fail_count;
}

-- The reference goes to the last turn with the id, if there is one.
abbrev pub push_at : Option ℕ → (Turn → Turn) → List Turn → List Turn
push_at none f turns = turns
push_at (some idx) f turns = modify_at idx f turns

abbrev pub push_tool_ref : Option Text → CallRef → List Turn → List Turn
push_tool_ref none tool_ref turns = turns
push_tool_ref (some turn_id) tool_ref turns =
    push_at (rposition (λ t. eqb t.id turn_id) turns)
      (λ turn. record turn { tool_calls = turn.tool_calls ++ tool_ref ∷ [] }) turns

abbrev pub end_status : Option Bool → Option Text → ToolCallStatus
end_status (some false) message = failure message
end_status _ message = success

abbrev pub has_id : Text → Option Text → Bool
has_id id none = false
has_id id (some own) = eqb own id

abbrev pub mark_top : List OpenToolCall → List OpenToolCall
mark_top [] = []
mark_top (o ∷ os) = record o { user_requested = true } ∷ os

-- `.rev().find(..)` for the call with an id, marked as requested by the user
unfoldable pub mark_requested : Text → List OpenToolCall → Option (List OpenToolCall)
mark_requested id [] = none
mark_requested id (o ∷ os) =
    if has_id id o.tool_call_id
    then some (record o { user_requested = true } ∷ os)
    else map_option (λ l. o ∷ l) (mark_requested id os)

module _ {J : Type 0} where
  unfoldable pub commit_tool_call : Text → ToolSource → ToolCall J → DeriveState J → DeriveState J
  commit_tool_call name source call s =
      let fresh = new_tool_episode name source in
      let new_idx = length (or_default fresh (get name s.tools)).calls in
      let tool_ref : CallRef = record { name = name; index = new_idx } in
      record s {
        tools = upsert name fresh (add_tool_call call) s.tools;
        skills = attribute_to_skills tool_ref s.open_skills s.skills;
        turns = push_tool_ref call.turn_id tool_ref s.turns;
      }

  unfoldable pub start_tool : Event J → DeriveState J → Text → DeriveState J
  start_tool ev s name =
      let requested : Bool = elim ev.tool_call_id [
        | none ↦ false
        | some id ↦ contains_key id s.pending_user_requested_tool_call_ids
      ] in
      record s {
        open_tool_calls =
            record {
              name = name;
              source = infer name;
              started_at = ev.timestamp;
              turn_id = open_turn_id s;
              user_requested = requested;
              tool_call_id = ev.tool_call_id;
            }
            ∷ s.open_tool_calls;
        pending_user_requested_tool_call_ids = elim ev.tool_call_id [
          | none ↦ s.pending_user_requested_tool_call_ids
          | some id ↦ remove id s.pending_user_requested_tool_call_ids
        ];
      }

  unfoldable pub on_tool_start : Event J → DeriveState J → DeriveState J
  unfolding start_tool resolve_payload_name
  on_tool_start ev s =
      let (s', name) = resolve_payload_name ev EventKind.tool_exec_start s in start_tool ev s' name

  -- The arguments that were announced for a call.
  abbrev pub args_of : Option Text → DeriveState J → Option J
  args_of call_id s = bind_option call_id (λ id. get id s.args_by_call_id)

  -- The call that closes an open one.
  abbrev pub close_call : OpenToolCall → Instant → ToolCallStatus → Option J → ToolCall J
  close_call o at status arguments = record {
    span = new_span o.started_at at;
    turn_id = o.turn_id;
    status = status;
    user_requested = o.user_requested;
    arguments = arguments;
  }

  unfoldable pub complete_top : List OpenToolCall → Event J → DeriveState J → DeriveState J
  complete_top (o ∷ os) ev s =
      commit_tool_call o.name o.source
        (close_call o ev.timestamp (end_status ev.payload_success ev.payload_error_message)
          (args_of (or_else ev.tool_call_id o.tool_call_id) s))
        (record s { open_tool_calls = os })
  complete_top [] ev s = warn (synthesized_start EventKind.tool_exec_start ev.id) (
      commit_tool_call orphan_tool_sentinel (infer orphan_tool_sentinel)
        (record {
          span = instant_span ev.timestamp;
          turn_id = open_turn_id s;
          status = orphan_synthesized_start;
          user_requested = false;
          arguments = args_of ev.tool_call_id s;
        })
        s)

  unfoldable pub on_tool_complete : Event J → DeriveState J → DeriveState J
  unfolding complete_top
  on_tool_complete ev s = complete_top s.open_tool_calls ev s

  unfoldable pub on_tool_user_requested : Event J → DeriveState J → DeriveState J
  on_tool_user_requested ev s = elim ev.tool_call_id [
    | some id ↦ elim (mark_requested id s.open_tool_calls) [
      | some marked ↦ record s { open_tool_calls = marked }
      | none ↦ record s {
        pending_user_requested_tool_call_ids =
            insert_elem id s.pending_user_requested_tool_call_ids;
      }
    ]
    | none ↦ record s { open_tool_calls = mark_top s.open_tool_calls }
  ]
