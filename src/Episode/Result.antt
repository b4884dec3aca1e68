-- ===== src/Episode/Result.antt =====
-- episode/warning.rs and episode/episodes.rs: what a derivation returns.
use agentprof.Base.{Option, List}
use agentprof.Order.{Text}
use agentprof.Map.{BTreeMap, BTreeSet}
use agentprof.Event.{EventKind, ModelUsage, Instant}
use agentprof.Episode.Calls.{ToolEpisode, HookEpisode, SkillEpisode}
use agentprof.Episode.Turns.{Turn, ModeSegment, AbortInfo}

pub data DeriveWarning : Type 0 where
  synthesized_start : (kind : EventKind) (end_event_id : Text) → DeriveWarning
  open_at_end_of_session : (kind : EventKind) (start_event_id : Text) → DeriveWarning
  abort_without_open_element : (reason : Text) (at : Instant) → DeriveWarning
  non_monotonic_timestamp : (event_id : Text) (prev_at this_at : Instant) → DeriveWarning
  payload_name_missing : (kind : EventKind) (event_id : Text) → DeriveWarning

pub record Episodes (J : Type 0) : Type 0 where
  pub turns : List Turn
  pub tools : BTreeMap Text (ToolEpisode J)
  pub hooks : BTreeMap Text HookEpisode
  pub skills : BTreeMap Text SkillEpisode
  pub mode_segments : List ModeSegment
  pub aborts : List AbortInfo
  pub warnings : List DeriveWarning
  pub model_metrics : Option (BTreeMap Text ModelUsage)
  pub loaded_mcp_tools : BTreeSet Text
