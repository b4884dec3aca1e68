-- ===== src/Derive/Turns.antt =====
-- derive.rs: the handlers of turns and of assistant messages.
use agentprof.Base.{ℕ, Option, none, some, [], ◌∷◌, ◌++◌, length, modify_at}
use agentprof.Base.Words.{u32_max, saturating_add}
use agentprof.Order.{text}
use agentprof.Map.{or_default}
use agentprof.Event.{Event, EventKind}
use agentprof.Episode.{Turn, new_turn, TurnStatus, completed, aborted, synthesized_start}
use agentprof.Derive.State.{DeriveState, warn}

-- What the end of a turn does to its status: an aborted turn stays aborted.
abbrev pub complete_status : TurnStatus → TurnStatus
complete_status (aborted info) = aborted info
complete_status _ = completed

module _ {J : Type 0} where
  unfoldable pub on_turn_start : Event J → DeriveState J → DeriveState J
  on_turn_start ev s =
      let turn : Turn = record (new_turn ev.id ev.timestamp) { mode = s.current_mode } in
      record s { turns = s.turns ++ turn ∷ []; open_turn_idx = some (length s.turns) }

  abbrev pub add_message : Event J → Turn → Turn
  add_message ev turn = record turn {
    model = elim ev.payload_model [ none ↦ turn.model | some model ↦ some model ];
    output_tokens = elim ev.payload_output_tokens [
      | none ↦ turn.output_tokens
      | some tokens ↦ some (saturating_add u32_max (or_default 0 turn.output_tokens) tokens)
    ];
  }

  unfoldable pub message_in : Option ℕ → Event J → DeriveState J → DeriveState J
  message_in none ev s = s
  message_in (some idx) ev s = record s { turns = modify_at idx (add_message ev) s.turns }

  unfoldable pub on_assistant_message : Event J → DeriveState J → DeriveState J
  unfolding message_in
  on_assistant_message ev s = message_in s.open_turn_idx ev s

  abbrev pub end_turn : Event J → Turn → Turn
  end_turn ev turn = record turn {
    ended_at = some ev.timestamp;
    status = complete_status turn.status;
  }

  unfoldable pub end_in : Option ℕ → Event J → DeriveState J → DeriveState J
  end_in (some idx) ev s = record s {
    open_turn_idx = none;
    turns = modify_at idx (end_turn ev) s.turns;
  }
  end_in none ev s =
      let synth : Turn = record (new_turn (text "synthesized-" ++ ev.id) ev.timestamp) {
        ended_at = some ev.timestamp;
        status = completed;
      } in
      warn (synthesized_start EventKind.turn_start ev.id)
        (record s { turns = s.turns ++ synth ∷ [] })

  unfoldable pub on_turn_end : Event J → DeriveState J → DeriveState J
  unfolding end_in
  on_turn_end ev s = end_in s.open_turn_idx ev s
