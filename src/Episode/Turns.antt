-- ===== src/Episode/Turns.antt =====
-- episode/turn.rs and episode/mode_segment.rs: turns, and the modes of the session over time.
use agentprof.Base.{ℕ, Option, none, List, [], if◌then◌else◌}
use agentprof.Order.{Text, text, text_ord, eqb}
use agentprof.Event.{Instant}
use agentprof.Episode.Calls.{CallRef}

pub data Mode : Type 0 where
  interactive plan autopilot : Mode
  unknown : Text → Mode

unfoldable pub mode_from_wire : Text → Mode
mode_from_wire s =
    if eqb s (text "interactive")
    then interactive
    else if eqb s (text "plan")
    then plan
    else if eqb s (text "autopilot")
    then autopilot
    else unknown s

pub record ModeSegment : Type 0 where
  pub mode : Mode
  pub started_at : Instant
  pub ended_at : Option Instant

abbrev pub new_mode_segment : Mode → Instant → ModeSegment
new_mode_segment mode started_at = record { mode = mode; started_at = started_at; ended_at = none }

pub record AbortInfo : Type 0 where
  pub reason : Text
  pub at : Instant

pub data TurnStatus : Type 0 where
  still_open completed : TurnStatus
  aborted : AbortInfo → TurnStatus

pub record Turn : Type 0 where
  pub id : Text
  pub started_at : Instant
  pub ended_at : Option Instant
  pub model : Option Text
  pub mode : Option Mode
  pub output_tokens : Option ℕ
  pub status : TurnStatus
  pub tool_calls : List CallRef
  pub hook_calls : List CallRef
  pub skill_calls : List CallRef

abbrev pub new_turn : Text → Instant → Turn
new_turn id started_at = record {
  id = id;
  started_at = started_at;
  ended_at = none;
  model = none;
  mode = none;
  output_tokens = none;
  status = still_open;
  tool_calls = [];
  hook_calls = [];
  skill_calls = [];
}
