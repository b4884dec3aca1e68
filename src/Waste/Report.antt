-- ===== src/Waste/Report.antt =====
-- crates/agentprof-core/src/model/waste.rs: the reports on MCP tools that are loaded and not called.
use agentprof.Base.{ℕ, Bool, List}
use agentprof.Order.{Text}

pub data TokenProvenance : Type 0 where
  heuristic sidecar_exact mixed : TokenProvenance

pub data TokenSource : Type 0 where
  heuristic sidecar_exact : TokenSource

pub data TokenizerKind : Type 0 where
  cl100k_base o200k_base : TokenizerKind

pub data LoadedSource : Type 0 where
  wire config both inferred_from_call : LoadedSource

pub data WasteDataSource : Type 0 where
  no_data wire config both : WasteDataSource

pub record McpToolWaste : Type 0 where
  pub tool_name : Text
  pub short_name : Text
  pub call_count : ℕ
  pub loaded_source : LoadedSource
  pub description_tokens : ℕ
  pub token_source : TokenSource

pub record McpServerWaste : Type 0 where
  pub server : Text
  pub tools : List McpToolWaste
  pub loaded_count : ℕ
  pub called_count : ℕ
  pub unused_count : ℕ
  pub is_fully_unused : Bool
  pub unused_tokens : ℕ
  pub loaded_tokens : ℕ

pub record WasteReport : Type 0 where
  pub server_waste : List McpServerWaste
  pub data_source : WasteDataSource
  pub total_loaded_tool_count : ℕ
  pub total_unused_tool_count : ℕ
  pub total_loaded_tokens : ℕ
  pub total_unused_tokens : ℕ
  pub token_provenance : TokenProvenance
  pub tokenizer : TokenizerKind

pub record McpToolUsageAcrossSessions : Type 0 where
  pub tool_name : Text
  pub sessions_loaded : ℕ
  pub sessions_called : ℕ
  pub total_call_count : ℕ

pub record McpServerCrossWaste : Type 0 where
  pub server : Text
  pub sessions_loaded : ℕ
  pub sessions_with_zero_calls : ℕ
  pub tool_usage : List McpToolUsageAcrossSessions
  pub total_unused_tokens : ℕ

pub record AggregateWasteReport : Type 0 where
  pub sessions : ℕ
  pub per_server : List McpServerCrossWaste
  pub never_called_tools : List Text
  pub total_unused_tokens : ℕ
