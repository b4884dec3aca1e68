-- ===== src/Episode/Calls.antt =====
-- episode/call_ref.rs, the span of episode/turn.rs, episode/tool.rs, episode/hook.rs and
-- episode/skill.rs: the calls of a session, grouped by name.
use agentprof.Base.{ℕ, Bool, Option, none, List, [], ltb, if◌then◌else◌}
use agentprof.Base.Int.{ℤ, pos, sub_ℕ}
use agentprof.Order.{Text}
use agentprof.Event.{Instant}
use agentprof.Model.ToolSource.{ToolSource}

pub record CallRef : Type 0 where
  pub name : Text
  pub index : ℕ

pub record Span : Type 0 where
  pub started_at : Instant
  pub ended_at : Instant

-- An end before the start is moved to the start.
unfoldable pub new_span : Instant → Instant → Span
new_span started_at ended_at = record {
  started_at = started_at;
  ended_at = if ltb ended_at started_at then started_at else ended_at;
}

unfoldable pub instant_span : Instant → Span
instant_span at = record { started_at = at; ended_at = at }

unfoldable pub span_duration : Span → ℤ
span_duration s = sub_ℕ s.ended_at s.started_at

pub data ToolCallStatus : Type 0 where
  success : ToolCallStatus
  failure : Option Text → ToolCallStatus
  orphan_synthesized_start open_at_end_of_session : ToolCallStatus

pub record ToolCall (J : Type 0) : Type 0 where
  pub span : Span
  pub turn_id : Option Text
  pub status : ToolCallStatus
  pub user_requested : Bool
  pub arguments : Option J

pub record ToolEpisode (J : Type 0) : Type 0 where
  pub name : Text
  pub source : ToolSource
  pub calls : List (ToolCall J)
  pub total_duration : ℤ
  pub fail_count : ℕ

abbrev pub new_tool_episode : {J : Type 0} → Text → ToolSource → ToolEpisode J
new_tool_episode name source = record {
  name = name;
  source = source;
  calls = [];
  total_duration = pos 0;
  fail_count = 0;
}

pub record HookCall : Type 0 where
  pub span : Span
  pub turn_id : Option Text
  pub success : Bool
  pub synthesized_start : Bool

pub record HookEpisode : Type 0 where
  pub name : Text
  pub calls : List HookCall
  pub total_duration : ℤ
  pub failure_count : ℕ

abbrev pub new_hook_episode : Text → HookEpisode
new_hook_episode name = record {
  name = name;
  calls = [];
  total_duration = pos 0;
  failure_count = 0;
}

pub record SkillInvocation : Type 0 where
  pub at : Instant
  pub turn_id : Option Text
  pub triggered_tools : List CallRef

abbrev pub new_skill_invocation : Instant → SkillInvocation
new_skill_invocation at = record { at = at; turn_id = none; triggered_tools = [] }

pub record SkillEpisode : Type 0 where
  pub name : Text
  pub invocations : List SkillInvocation
  pub subsequent_tool_calls : ℕ

abbrev pub new_skill_episode : Text → SkillEpisode
new_skill_episode name = record { name = name; invocations = []; subsequent_tool_calls = 0 }
