-- ===== src/Waste/Servers.antt =====
-- crates/agentprof-core/src/analyzer/waste.rs: `compute_waste` from the loaded tools to the report.
use Prim.Native.Nat.{compare, Ordering}
use agentprof.Base.{
  ℕ, ◌+◌, ◌-◌, Bool, true, false, not, Option, List, [], ◌∷◌, ◌++◌, map, length, count, filter,
  or_else, ltb, ◌==◌, if◌then◌else◌,
}
use agentprof.Base.Sort.{sort_by, sum_by}
use agentprof.Order.{Text, text_ord, text_cmp}
use agentprof.Map.{BTreeMap, upsert, or_default}
use agentprof.Analyzer.{AnalysisReport}
use agentprof.Waste.Report.{
  TokenProvenance, TokenSource, TokenizerKind, WasteDataSource, McpToolWaste, McpServerWaste,
  WasteReport,
}
use agentprof.Waste.Compute.{
  Bpe, WasteComputeContext, is_empty, Called, Loaded, called_of, loaded_of, tool_waste,
}

pub record Grouped : Type 0 where
  pub by_server : BTreeMap Text (List McpToolWaste)
  pub sidecar_hits : ℕ
  pub sidecar_misses : ℕ

abbrev pub is_exact : TokenSource → Bool
is_exact TokenSource.sidecar_exact = true
is_exact TokenSource.heuristic = false

-- A row is counted, and pushed behind the others of its server.
unfoldable pub push_tool : Text → McpToolWaste → Grouped → Grouped
push_tool server t g = record {
  by_server = upsert server [] (λ ts. ts ++ t ∷ []) g.by_server;
  sidecar_hits = if is_exact t.token_source then g.sidecar_hits + 1 else g.sidecar_hits;
  sidecar_misses = if is_exact t.token_source then g.sidecar_misses else g.sidecar_misses + 1;
}

unfoldable pub group_tools : WasteComputeContext → Option Bpe → Called → Loaded → Grouped → Grouped
unfolding push_tool tool_waste
group_tools ctx bpe called [] g = g
group_tools ctx bpe called (((server, short), src) ∷ loaded) g =
    group_tools ctx bpe called loaded
      (push_tool server (tool_waste ctx bpe called ((server, short), src)) g)

abbrev pub not_gt : Ordering → Bool
not_gt Ordering.gt = false
not_gt _ = true

abbrev pub by_short_name : McpToolWaste → McpToolWaste → Bool
by_short_name a b = not_gt (text_cmp a.short_name b.short_name)

abbrev pub is_called : McpToolWaste → Bool
is_called t = ltb 0 t.call_count

-- Step 4: one server.
unfoldable pub server_row : Text × List McpToolWaste → McpServerWaste
server_row (server, unsorted) =
    let tools = sort_by by_short_name unsorted in
    let called_count = count is_called tools in
    record {
      server = server;
      tools = tools;
      loaded_count = length tools;
      called_count = called_count;
      unused_count = length tools - called_count;
      is_fully_unused = called_count == 0;
      unused_tokens = sum_by (λ t. t.description_tokens) (filter (λ t. t.call_count == 0) tools);
      loaded_tokens = sum_by (λ t. t.description_tokens) tools;
    }

-- Step 5: more unused tools first, then by the name of the server.
unfoldable pub server_le : McpServerWaste → McpServerWaste → Bool
server_le a b = elim (compare b.unused_count a.unused_count) [
  | Ordering.lt ↦ true
  | Ordering.gt ↦ false
  | Ordering.eq ↦ not_gt (text_cmp a.server b.server)
]

-- Step 6: which of the sources had something.
abbrev pub data_source_of : Bool → Bool → WasteDataSource
data_source_of true true = WasteDataSource.config
data_source_of false true = WasteDataSource.both
data_source_of false false = WasteDataSource.wire
data_source_of true false = WasteDataSource.no_data

-- Step 7: from the hits and the misses.
abbrev pub provenance_of : ℕ → ℕ → TokenProvenance
provenance_of hits misses =
    if hits == 0
    then TokenProvenance.heuristic
    else if misses == 0
    then TokenProvenance.sidecar_exact
    else TokenProvenance.mixed

-- `build_bpe` loads a tokenizer of the library.
unfoldable pub waste_of : WasteComputeContext → Grouped → WasteReport
unfolding server_row server_le
waste_of ctx g =
    let server_waste = sort_by server_le (map server_row g.by_server) in
    record {
      server_waste = server_waste;
      data_source =
          data_source_of (is_empty ctx.wire_loaded)
            (not (is_empty (or_default [] ctx.config_loaded)));
      total_loaded_tool_count = sum_by (λ s. s.loaded_count) server_waste;
      total_unused_tool_count = sum_by (λ s. s.unused_count) server_waste;
      total_loaded_tokens = sum_by (λ s. s.loaded_tokens) server_waste;
      total_unused_tokens = sum_by (λ s. s.unused_tokens) server_waste;
      token_provenance = provenance_of g.sidecar_hits g.sidecar_misses;
      tokenizer = ctx.tokenizer;
    }

abbrev pub no_tools : Grouped
no_tools = record { by_server = []; sidecar_hits = 0; sidecar_misses = 0 }

abbrev pub bpe_of : (TokenizerKind → Option Bpe) → WasteComputeContext → Option Bpe
bpe_of build_bpe ctx = or_else ctx.bpe (build_bpe ctx.tokenizer)

unfoldable pub compute_waste :
    (TokenizerKind → Option Bpe) → AnalysisReport → WasteComputeContext → WasteReport
unfolding called_of loaded_of group_tools waste_of
compute_waste build_bpe report ctx =
    let called = called_of report.tool_rank [] in
    waste_of ctx (group_tools ctx (bpe_of build_bpe ctx) called (loaded_of ctx called) no_tools)
