-- ===== src/Waste/Accounts.antt =====
-- The counts and the costs of a waste report add up to those of the loaded tools.
use agentprof.Base.{
  ℕ, ◌+◌, ◌≡◌, ◌⊎◌, Bool, true, Option, List, [], ◌∷◌, ◌++◌, map, length, count, filter, ◌==◌,
  if◌then◌else◌, arith, refl, ◌∙◌, sym,
}
use agentprof.Base.Sort.{
  sum_by-append, sum_by-one, count-sum_by, sum_by, sort_by, sum_by-sort_by, IsSortedBy, IsPreorder,
  sort_by-IsSortedBy, length-sort_by,
}
use agentprof.Order.{Text, text_ord, text_cmp_eq, text_cmp_swap, text_cmp_trans}
use agentprof.Map.{BTreeMap, sum_values, sum_values-upsert, or_default}
use agentprof.Analyzer.{ToolRankRow, AnalysisReport}
use agentprof.Waste.Report.{TokenizerKind, LoadedSource, McpToolWaste, McpServerWaste, WasteReport}
use agentprof.Waste.Compute.{
  Bpe, WasteComputeContext, Called, Loaded, called_of, loaded_of, tool_waste,
}
use agentprof.Waste.Calls.{last_count, call_count_of-last}
use agentprof.Waste.Servers.{
  Grouped, push_tool, group_tools, is_called, by_short_name, server_row, server_le, waste_of,
  no_tools, bpe_of, compute_waste,
}

-- What the grouping adds to the servers is what the loaded tools have.
group_tools-sum :
    (g : McpToolWaste → ℕ) (ctx : WasteComputeContext) (bpe : Option Bpe) (called : Called)
    (loaded : Loaded) (acc : Grouped)
    → sum_values (sum_by g) (group_tools ctx bpe called loaded acc).by_server
      ≡ sum_values (sum_by g) acc.by_server + sum_by (λ e. g (tool_waste ctx bpe called e)) loaded
unfolding group_tools push_tool
group_tools-sum g ctx bpe called [] acc = omega arith
group_tools-sum g ctx bpe called (((server, short), src) ∷ loaded) acc =
    let t = tool_waste ctx bpe called ((server, short), src) in
    omega (
      arith,
      group_tools-sum g ctx bpe called loaded (push_tool server t acc),
      sum_values-upsert (sum_by g) (g t) server [] (λ ts. ts ++ t ∷ []) acc.by_server refl
          (λ ts. omega (arith, sum_by-append g ts (t ∷ []))),
    )

row-sum :
    (f : McpServerWaste → ℕ) (g : McpToolWaste → ℕ) (m : BTreeMap Text (List McpToolWaste))
    → ((server : Text) (ts : List McpToolWaste) → f (server_row (server, ts)) ≡ sum_by g ts)
    → sum_by f (map server_row m) ≡ sum_values (sum_by g) m
row-sum f g [] h = refl
row-sum f g ((server, ts) ∷ m) h = omega (arith, h server ts, row-sum f g m h)

-- A number of a server that is a sum over its tools, over all servers.
rows-sum :
    (f : McpServerWaste → ℕ) (g : McpToolWaste → ℕ) (m : BTreeMap Text (List McpToolWaste))
    → ((server : Text) (ts : List McpToolWaste) → f (server_row (server, ts)) ≡ sum_by g ts)
    → sum_by f (sort_by server_le (map server_row m)) ≡ sum_values (sum_by g) m
rows-sum f g m h = sum_by-sort_by server_le f (map server_row m) ∙ row-sum f g m h

length-count :
    (ts : List McpToolWaste)
    → length ts ≡ count is_called ts + sum_by (λ t. if t.call_count == 0 then 1 else 0) ts
length-count [] = refl
length-count (t ∷ ts) = ground (arith, length-count ts)

sum_by-filter :
    (p : McpToolWaste → Bool) (g : McpToolWaste → ℕ) (ts : List McpToolWaste)
    → sum_by g (filter p ts) ≡ sum_by (λ t. if p t then g t else 0) ts
sum_by-filter p g [] = refl
sum_by-filter p g (t ∷ ts) = ground (arith, sum_by-filter p g ts)

abbrev pub is_unused : McpToolWaste → Bool
is_unused t = t.call_count == 0

server_row-loaded :
    (server : Text) (ts : List McpToolWaste)
    → (server_row (server, ts)).loaded_count ≡ sum_by (λ t. 1) ts
unfolding server_row
server_row-loaded server ts = length-sort_by by_short_name ts ∙ sym (sum_by-one ts)

server_row-unused :
    (server : Text) (ts : List McpToolWaste)
    → (server_row (server, ts)).unused_count ≡ sum_by (λ t. if is_unused t then 1 else 0) ts
unfolding server_row
server_row-unused server ts = omega (
  arith,
  length-count (sort_by by_short_name ts),
  sum_by-sort_by by_short_name (λ t. if is_unused t then 1 else 0) ts,
)

server_row-loaded_tokens :
    (server : Text) (ts : List McpToolWaste)
    → (server_row (server, ts)).loaded_tokens ≡ sum_by (λ t. t.description_tokens) ts
unfolding server_row
server_row-loaded_tokens server ts = sum_by-sort_by by_short_name (λ t. t.description_tokens) ts

server_row-unused_tokens :
    (server : Text) (ts : List McpToolWaste)
    → (server_row (server, ts)).unused_tokens
      ≡ sum_by (λ t. if is_unused t then t.description_tokens else 0) ts
unfolding server_row
server_row-unused_tokens server ts =
    sum_by-filter is_unused (λ t. t.description_tokens) (sort_by by_short_name ts)
    ∙ sum_by-sort_by by_short_name (λ t. if is_unused t then t.description_tokens else 0) ts

server_le_total : (a b : McpServerWaste) → (server_le a b ≡ true) ⊎ (server_le b a ≡ true)
unfolding server_le
server_le_total a b =
    ground (arith, text_cmp_swap a.server b.server, text_cmp_swap b.server a.server)

server_le_trans :
    (a b c : McpServerWaste) → server_le a b ≡ true → server_le b c ≡ true → server_le a c ≡ true
unfolding server_le
server_le_trans a b c h k = grind (
  arith,
  text_cmp_eq a.server b.server,
  text_cmp_eq b.server c.server,
  text_cmp_eq a.server c.server,
  text_cmp_trans a.server b.server c.server,
)

server_le-IsPreorder : IsPreorder server_le
server_le-IsPreorder = record { total = server_le_total; trans = server_le_trans }

-- The tool of a loaded name, as a report on these rows shows it.
abbrev pub tool_of :
    (TokenizerKind → Option Bpe)
    → List ToolRankRow
    → WasteComputeContext
    → (Text × Text) × LoadedSource
    → McpToolWaste
tool_of build_bpe rows ctx e = tool_waste ctx (bpe_of build_bpe ctx) (called_of rows []) e

zero_add : (n : ℕ) → 0 + n ≡ n
zero_add n = omega arith

totals-sum :
    (f : McpServerWaste → ℕ) (g : McpToolWaste → ℕ) (ctx : WasteComputeContext) (bpe : Option Bpe)
    (called : Called) (loaded : Loaded)
    → ((server : Text) (ts : List McpToolWaste) → f (server_row (server, ts)) ≡ sum_by g ts)
    → sum_by f
        (sort_by server_le (map server_row (group_tools ctx bpe called loaded no_tools).by_server))
      ≡ sum_by (λ e. g (tool_waste ctx bpe called e)) loaded
totals-sum f g ctx bpe called loaded h =
    rows-sum f g (group_tools ctx bpe called loaded no_tools).by_server h
    ∙ (group_tools-sum g ctx bpe called loaded no_tools ∙ zero_add _)

-- The totals of a report are those over the loaded tools, and its servers are in order.
pub record IsAccounted (build_bpe : TokenizerKind → Option Bpe) (rows : List ToolRankRow)
    (ctx : WasteComputeContext) (w : WasteReport) : Type 0 where
  pub loaded : w.total_loaded_tool_count ≡ length (loaded_of ctx (called_of rows []))
  pub unused :
      w.total_unused_tool_count
      ≡ count (λ e. is_unused (tool_of build_bpe rows ctx e)) (loaded_of ctx (called_of rows []))
  pub calls :
      (server short : Text) (src : LoadedSource)
      → (tool_of build_bpe rows ctx ((server, short), src)).call_count
        ≡ or_default 0 (last_count server short rows)
  pub loaded_tokens :
      w.total_loaded_tokens
      ≡ sum_by
          (λ e. (tool_of build_bpe rows ctx e).description_tokens)
          (loaded_of ctx (called_of rows []))
  pub unused_tokens :
      w.total_unused_tokens
      ≡ sum_by
          (λ e.
            if is_unused (tool_of build_bpe rows ctx e)
            then (tool_of build_bpe rows ctx e).description_tokens
            else 0)
          (loaded_of ctx (called_of rows []))
  pub sorted : IsSortedBy server_le w.server_waste

-- The report of a session counts each loaded tool once and each one without calls as unused, where
-- a tool has the calls of the last row of the rank about it, and none without a row; it sums their
-- costs likewise, and has its servers with more unused tools first.
pub compute_waste-IsAccounted :
    (build_bpe : TokenizerKind → Option Bpe) (report : AnalysisReport) (ctx : WasteComputeContext)
    → IsAccounted build_bpe report.tool_rank ctx (compute_waste build_bpe report ctx)
unfolding compute_waste waste_of tool_waste
compute_waste-IsAccounted build_bpe report ctx =
    let called = called_of report.tool_rank [] in
    let bpe = bpe_of build_bpe ctx in
    let loaded = loaded_of ctx called in
    let m = (group_tools ctx bpe called loaded no_tools).by_server in
    let tokens : McpToolWaste → ℕ = λ t. t.description_tokens in
    let unused : McpToolWaste → ℕ = λ t. if is_unused t then 1 else 0 in
    let unused_tokens : McpToolWaste → ℕ = λ t. if is_unused t then t.description_tokens else 0 in
    record {
      loaded =
          totals-sum (λ s. s.loaded_count) (λ t. 1) ctx bpe called loaded server_row-loaded
          ∙ sum_by-one loaded;
      unused =
          totals-sum (λ s. s.unused_count) unused ctx bpe called loaded server_row-unused
          ∙ sym (count-sum_by (λ e. is_unused (tool_waste ctx bpe called e)) loaded);
      calls = λ server short src. call_count_of-last server short report.tool_rank;
      loaded_tokens =
          totals-sum (λ s. s.loaded_tokens) tokens ctx bpe called loaded server_row-loaded_tokens;
      unused_tokens =
          totals-sum (λ s. s.unused_tokens) unused_tokens ctx bpe called loaded
            server_row-unused_tokens;
      sorted = sort_by-IsSortedBy server_le server_le-IsPreorder (map server_row m);
    }
