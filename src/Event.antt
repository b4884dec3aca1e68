-- ===== src/Event.antt =====
-- crates/agentprof-core/src/adapter.rs: the events of a session. A value that implements the trait
-- `Event` is modelled by what its methods return; `J` stands for `serde_json::Value`.
use agentprof.Base.{ℕ, Bool, Option, List}
use agentprof.Order.{Text}
use agentprof.Map.{BTreeMap, BTreeSet}

pub data EventKind : Type 0 where
  session_start session_info mode_changed model_change plan_changed shutdown : EventKind
  user_message turn_start assistant_message turn_end : EventKind
  tool_exec_start tool_exec_complete tool_user_requested : EventKind
  hook_start hook_end skill_invoked system_message system_notification : EventKind
  session_warning session_resume session_compaction_start : EventKind
  session_compaction_complete permission_requested permission_completed : EventKind
  subagent_started subagent_completed subagent_failed abort unknown : EventKind

-- `ModelUsage` of analyzer/mod.rs.
pub record ModelUsage : Type 0 where
  pub input_tokens : ℕ
  pub output_tokens : ℕ
  pub cache_read_tokens : ℕ
  pub cache_write_tokens : ℕ

-- Instants are counts of nanoseconds from the least `DateTime<Utc>`.
abbrev pub Instant : Type 0
Instant = ℕ

pub record Event (J : Type 0) : Type 0 where
  pub id : Text
  pub kind : EventKind
  pub timestamp : Instant
  pub parent_id : Option Text
  pub payload_name : Option Text
  pub payload_model : Option Text
  pub payload_output_tokens : Option ℕ
  pub payload_mode : Option Text
  pub payload_tool_requests : List (Text × J)
  pub payload_success : Option Bool
  pub payload_error_message : Option Text
  pub tool_call_id : Option Text
  pub payload_model_metrics : Option (BTreeMap Text ModelUsage)
  pub payload_loaded_mcp_tools : BTreeSet Text
