-- ===== src/Otlp/Typed.antt =====
-- crates/agentprof-storage/src/otlp/typed.rs: the events that the receiver buffers. Paths are
-- texts; the prompt size and the approval are kept, though no modelled code reads them.
use agentprof.Base.{ℕ, Bool, Option, none, some}
use agentprof.Order.{Text}
use agentprof.Event.{Instant}
use agentprof.Model.ToolSource.{ToolSource}
use agentprof.Episode.{ToolCallStatus}
use agentprof.Analyzer.{AgentKind}

pub data SignalKind : Type 0 where
  log metric trace : SignalKind

pub data TokenDirection : Type 0 where
  input output cache_read cache_creation : TokenDirection

pub data TypedEvent : Type 0 where
  session_start :
      (session_id : Text) (agent : AgentKind) (started_at : Instant) (model cwd : Option Text)
      → TypedEvent
  user_prompt :
      (session_id turn_id : Text) (timestamp : Instant) (prompt_size_bytes : Option ℕ) → TypedEvent
  tool_decision_start :
      (session_id : Text) (turn_id : Option Text) (tool_name : Text) (source : ToolSource)
      (timestamp : Instant) (user_approved : Bool)
      → TypedEvent
  tool_result :
      (session_id : Text) (turn_id : Option Text) (tool_name : Text) (timestamp : Instant)
      (status : ToolCallStatus)
      → TypedEvent
  token_usage :
      (session_id model : Text) (direction : TokenDirection) (value : ℕ) (timestamp : Instant)
      → TypedEvent
  session_end : (session_id : Text) (ended_at : Instant) → TypedEvent
  unrecognized : (signal : SignalKind) (identity : Text) → TypedEvent

-- `TypedEvent::session_id`
abbrev pub session_id_of : TypedEvent → Option Text
session_id_of (session_start id agent at model cwd) = some id
session_id_of (user_prompt id turn at size) = some id
session_id_of (tool_decision_start id turn name source at approved) = some id
session_id_of (tool_result id turn name at status) = some id
session_id_of (token_usage id model direction value at) = some id
session_id_of (session_end id at) = some id
session_id_of (unrecognized signal identity) = none
