-- ===== src/Waste/Compute.antt =====
-- crates/agentprof-core/src/analyzer/waste.rs: `compute_waste`. The tokenizers are those of the
-- library tiktoken, as functions from a text to its number of tokens; a sidecar yields the JSON
-- text of a tool. Sums of tokens are unbounded.
use agentprof.Base.{
  ℕ, Bool, true, false, ◌||◌, Option, none, some, List, [], ◌∷◌, ◌++◌, is_some, if◌then◌else◌,
}
use agentprof.Order.{Text, text, text_ord, pair_ord}
use agentprof.Map.{BTreeMap, BTreeSet, get, upsert, insert, or_default}
use agentprof.Model.ToolSource.{ToolSource, mcp, strip_prefix, split_once, bind_option}
use agentprof.Analyzer.{ToolRankRow}
use agentprof.Waste.Report.{TokenSource, TokenizerKind, LoadedSource, McpToolWaste}

abbrev pub Bpe : Type 0
Bpe = Text → ℕ

pub record WasteComputeContext : Type 0 where
  pub wire_loaded : BTreeSet Text
  pub config_loaded : Option (BTreeMap Text (List Text))
  pub sidecar : Option (Text → Option Text)
  pub heuristic_tokens_per_tool : ℕ
  pub tokenizer : TokenizerKind
  pub bpe : Option Bpe

abbrev pub default_heuristic_tokens : ℕ
default_heuristic_tokens = 200

abbrev pub new_context : BTreeSet Text → WasteComputeContext
new_context wire_loaded = record {
  wire_loaded = wire_loaded;
  config_loaded = none;
  sidecar = none;
  heuristic_tokens_per_tool = default_heuristic_tokens;
  tokenizer = TokenizerKind.cl100k_base;
  bpe = none;
}

abbrev pub is_empty : {A : Type 0} → List A → Bool
is_empty [] = true
is_empty (x ∷ xs) = false

-- The parts behind `mcp__`, before and behind the separator.
abbrev pub mcp_parts : Text → Option (Text × Text)
mcp_parts full = bind_option (strip_prefix (text "mcp__") full) split_once

abbrev pub both_parts : Text × Text → Option (Text × Text)
both_parts (server, short) =
    if is_empty server || is_empty short then none else some (server, short)

unfoldable pub split_full_name : Text → Option (Text × Text)
unfolding strip_prefix split_once
split_full_name full = bind_option (mcp_parts full) both_parts

abbrev pub short_part : Text × Text → Option Text
short_part (server, short) = if is_empty short then none else some short

unfoldable pub short_name_of : Text → Option Text
unfolding strip_prefix split_once
short_name_of full = bind_option (mcp_parts full) short_part

abbrev pub starts_with : Text → Text → Bool
starts_with prefix name = is_some (strip_prefix prefix name)

-- The tokenizer of a model.
unfoldable pub infer_tokenizer : Option Text → TokenizerKind
unfolding strip_prefix
infer_tokenizer none = TokenizerKind.cl100k_base
infer_tokenizer (some name) =
    if starts_with (text "gpt-5") name
      || starts_with (text "gpt-4o") name
      || starts_with (text "o1") name
      || starts_with (text "o3") name
    then TokenizerKind.o200k_base
    else TokenizerKind.cl100k_base

abbrev pub Called : Type 0
Called = BTreeMap Text (BTreeMap Text ℕ)

abbrev pub Loaded : Type 0
Loaded = BTreeMap (Text × Text) LoadedSource

-- Step 1: the calls of the MCP tools.
unfoldable pub note_called : ToolSource → Option Text → ℕ → Called → Called
note_called (mcp server) (some short) calls called = upsert server [] (insert short calls) called
note_called _ _ calls called = called

unfoldable pub called_of : List ToolRankRow → Called → Called
unfolding note_called short_name_of
called_of [] called = called
called_of (row ∷ rows) called =
    called_of rows (note_called row.source (short_name_of row.name) row.call_count called)

-- Step 2: the loaded tools with where they are named.
unfoldable pub note_wire : Option (Text × Text) → Loaded → Loaded
note_wire none loaded = loaded
note_wire (some key) loaded = insert key LoadedSource.wire loaded

unfoldable pub load_wire : BTreeSet Text → Loaded → Loaded
unfolding note_wire split_full_name
load_wire [] loaded = loaded
load_wire ((tool_name, _) ∷ names) loaded =
    load_wire names (note_wire (split_full_name tool_name) loaded)

-- `and_modify` of an entry. It leaves the value that `or_insert` gives.
abbrev pub seen_in_config : LoadedSource → LoadedSource
seen_in_config LoadedSource.wire = LoadedSource.both
seen_in_config src = src

unfoldable pub load_tools : Text → List Text → Loaded → Loaded
load_tools server [] loaded = loaded
load_tools server (short ∷ tools) loaded =
    load_tools server tools (upsert (server, short) LoadedSource.config seen_in_config loaded)

unfoldable pub load_config : BTreeMap Text (List Text) → Loaded → Loaded
unfolding load_tools
load_config [] loaded = loaded
load_config ((server, tools) ∷ cfg) loaded = load_config cfg (load_tools server tools loaded)

unfoldable pub infer_tools : Text → BTreeMap Text ℕ → Loaded → Loaded
infer_tools server [] loaded = loaded
infer_tools server ((short, calls) ∷ tools) loaded =
    infer_tools server tools
      (upsert (server, short) LoadedSource.inferred_from_call (λ src. src) loaded)

unfoldable pub load_called : Called → Loaded → Loaded
unfolding infer_tools
load_called [] loaded = loaded
load_called ((server, tools) ∷ called) loaded = load_called called (infer_tools server tools loaded)

unfoldable pub loaded_of : WasteComputeContext → Called → Loaded
unfolding load_wire load_config load_called
loaded_of ctx called =
    load_called called
      (load_config (or_default [] ctx.config_loaded) (load_wire ctx.wire_loaded []))

-- Step 3: the cost of a tool.
unfoldable pub compute_token_cost_for_tool :
    Text → Option (Text → Option Text) → ℕ → Bpe → ℕ × TokenSource
compute_token_cost_for_tool tool_name sidecar heuristic tokenizer =
    elim (bind_option sidecar (λ lookup. lookup tool_name)) [
      | some json ↦ (tokenizer json, TokenSource.sidecar_exact)
      | none ↦ (heuristic, TokenSource.heuristic)
    ]

abbrev pub token_cost : WasteComputeContext → Option Bpe → Text → ℕ × TokenSource
token_cost ctx none full_name = (ctx.heuristic_tokens_per_tool, TokenSource.heuristic)
token_cost ctx (some b) full_name =
    compute_token_cost_for_tool full_name ctx.sidecar ctx.heuristic_tokens_per_tool b

abbrev pub call_count_of : Called → Text → Text → ℕ
call_count_of called server short =
    or_default 0 (bind_option (get server called) (λ tools. get short tools))

unfoldable pub tool_waste :
    WasteComputeContext → Option Bpe → Called → (Text × Text) × LoadedSource → McpToolWaste
unfolding compute_token_cost_for_tool
tool_waste ctx bpe called ((server, short), src) =
    let full_name = text "mcp__" ++ server ++ text "__" ++ short in
    let (description_tokens, token_source) = token_cost ctx bpe full_name in
    record {
      tool_name = full_name;
      short_name = short;
      call_count = call_count_of called server short;
      loaded_source = src;
      description_tokens = description_tokens;
      token_source = token_source;
    }
