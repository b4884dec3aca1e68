-- ===== src/Analyzer/Summary.antt =====
-- analyzer/turn_summary.rs and `analyze` of analyzer/mod.rs: the rows of the turns and the report.
use agentprof.Base.{ℕ, Bool, Option, List, map, length}
use agentprof.Base.Int.{ℤ, sub_ℕ}
use agentprof.Order.{Text}
use agentprof.Map.{BTreeMap, BTreeSet, map_option}
use agentprof.Event.{Instant, ModelUsage}
use agentprof.Episode.{Turn, TurnStatus, Mode, DeriveWarning, Episodes}
use agentprof.Analyzer.Rank.{ToolRankRow, HookRankRow, tool_rank, hook_rank}

pub record TurnSummaryRow : Type 0 where
  pub turn_id : Text
  pub started_at : Instant
  pub duration : Option ℤ
  pub status : TurnStatus
  pub model : Option Text
  pub mode : Option Mode
  pub output_tokens : Option ℕ
  pub tool_call_count : ℕ
  pub hook_call_count : ℕ
  pub skill_call_count : ℕ

unfoldable pub turn_row : Turn → TurnSummaryRow
turn_row t = record {
  turn_id = t.id;
  started_at = t.started_at;
  duration = map_option (λ end. sub_ℕ end t.started_at) t.ended_at;
  status = t.status;
  model = t.model;
  mode = t.mode;
  output_tokens = t.output_tokens;
  tool_call_count = length t.tool_calls;
  hook_call_count = length t.hook_calls;
  skill_call_count = length t.skill_calls;
}

unfoldable pub turn_summary : {J : Type 0} → Episodes J → List TurnSummaryRow
unfolding turn_row
turn_summary e = map turn_row e.turns

pub data AgentKind : Type 0 where
  copilot claude codex : AgentKind

-- `SessionMeta` of model/meta.rs.
pub record SessionMeta : Type 0 where
  pub id : Text
  pub agent : AgentKind
  pub producer : Option Text
  pub agent_version : Option Text
  pub started_at : Instant
  pub cwd : Option Text
  pub repository : Option Text
  pub branch : Option Text
  pub is_live : Bool

-- `ParseWarning` of error.rs.
pub data ParseWarning : Type 0 where
  json io : (line_no : ℕ) (error : Text) → ParseWarning
  out_of_order : ParseWarning
  unclosed_turn : (turn_id : Text) → ParseWarning
  unclosed_tool_call : (call_id : Text) → ParseWarning
  unclosed_hook : (name : Text) → ParseWarning
  unknown_tool_source_prefix : (tool_name : Text) → ParseWarning

pub record AnalysisReport : Type 0 where
  pub meta : SessionMeta
  pub turn_summary : List TurnSummaryRow
  pub tool_rank : List ToolRankRow
  pub hook_rank : List HookRankRow
  pub warnings : List DeriveWarning
  pub parse_warnings : List ParseWarning
  pub model_metrics : Option (BTreeMap Text ModelUsage)
  pub loaded_mcp_tools : BTreeSet Text

unfoldable pub analyze :
    {J : Type 0} → Episodes J → SessionMeta → List ParseWarning → AnalysisReport
analyze e meta parse_warnings = record {
  meta = meta;
  turn_summary = turn_summary e;
  tool_rank = tool_rank e;
  hook_rank = hook_rank e;
  warnings = e.warnings;
  parse_warnings = parse_warnings;
  model_metrics = e.model_metrics;
  loaded_mcp_tools = e.loaded_mcp_tools;
}
