-- ===== src/Waste/Examples.antt =====
-- A session that loads two tools of a server, one of them called, and the theorems at it.
use agentprof.Base.{false, ℕ, ◌≡◌, none, some, [], ◌∷◌, map, refl, Option}
use agentprof.Base.Int.{pos}
use agentprof.Base.Sort.{sort_by}
use agentprof.Order.{text, text_ord, text_cmp, pair_ord, pair_cmp}
use agentprof.Map.{get, upsert, insert, or_default}
use agentprof.Model.ToolSource.{mcp}
use agentprof.Analyzer.{ToolRankRow, copilot, AnalysisReport}
use agentprof.Waste.Report.{TokenizerKind, WasteReport}
use agentprof.Waste.Compute.{Bpe, WasteComputeContext, new_context, called_of, loaded_of}
use agentprof.Waste.Servers.{compute_waste}
use agentprof.Waste.Across.{aggregate_waste}
use agentprof.Waste.Accounts.{IsAccounted, compute_waste-IsAccounted}
use agentprof.Waste.Sources.{source_of, in_wire, in_config, in_called, get-loaded_of}
use agentprof.Waste.Sessions.{IsAggregated, aggregate_waste-IsAggregated}

abbrev search : ToolRankRow
search = record {
  name = text "mcp__github__search";
  source = mcp (text "github");
  call_count = 3;
  success_count = 3;
  failure_count = 0;
  orphan_count = 0;
  user_requested_count = 0;
  total_duration = pos 9;
  p50_duration = pos 3;
  p95_duration = pos 3;
  max_duration = pos 3;
  is_user_blocking = false;
}

abbrev report : AnalysisReport
report = record {
  meta = record {
    id = text "s";
    agent = copilot;
    producer = none;
    agent_version = none;
    started_at = 0;
    cwd = none;
    repository = none;
    branch = none;
    is_live = false;
  };
  turn_summary = [];
  tool_rank = search ∷ [];
  hook_rank = [];
  warnings = [];
  parse_warnings = [];
  model_metrics = none;
  loaded_mcp_tools = [];
}

abbrev ctx : WasteComputeContext
ctx = record (new_context ((text "mcp__github__search", tt) ∷ [])) {
  config_loaded = some ((text "github", text "issues" ∷ text "search" ∷ []) ∷ []);
}

abbrev no_bpe : TokenizerKind → Option Bpe
no_bpe kind = none

abbrev waste : WasteReport
waste = compute_waste no_bpe report ctx

compute_waste-IsAccounted_example : IsAccounted no_bpe (search ∷ []) ctx waste
compute_waste-IsAccounted_example = compute_waste-IsAccounted no_bpe report ctx

get-loaded_of_example :
    get (text "github", text "search") (loaded_of ctx (called_of (search ∷ []) []))
    ≡ source_of
        (in_wire (text "github", text "search") ctx.wire_loaded)
        (in_config (text "github", text "search") (or_default [] ctx.config_loaded))
        (in_called (text "github", text "search") (called_of (search ∷ []) []))
get-loaded_of_example =
    get-loaded_of (text "github", text "search") ctx (called_of (search ∷ []) [])

aggregate_waste-IsAggregated_example :
    IsAggregated (waste ∷ waste ∷ []) (aggregate_waste (waste ∷ waste ∷ []))
aggregate_waste-IsAggregated_example = aggregate_waste-IsAggregated (waste ∷ waste ∷ [])

-- One of the two tools is unused, at the default cost.
one_unused :
    map {B = ℕ × ℕ} (λ s. (s.loaded_count, s.unused_tokens)) waste.server_waste ≡ (2, 200) ∷ []
unfolding compute_waste sort_by upsert insert pair_cmp text_cmp get
one_unused = refl
