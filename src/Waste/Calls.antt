-- ===== src/Waste/Calls.antt =====
-- The calls of an MCP tool, which the report on waste takes from the rows of the rank.
use agentprof.Base.{
  ℕ, ◌≡◌, ◌&&◌, Bool, false, Option, none, some, List, [], ◌∷◌, if◌then◌else◌, or_else, arith, refl,
  ◌∙◌,
}
use agentprof.Order.{Text, text_ord, eqb}
use agentprof.Map.{get, insert, get-upsert, get-insert, or_default}
use agentprof.Model.ToolSource.{ToolSource, mcp}
use agentprof.Analyzer.{ToolRankRow}
use agentprof.Waste.Compute.{Called, note_called, called_of, call_count_of, short_name_of}

-- Whether a row of the rank is about a tool of a server.
abbrev pub is_about : Text → Text → ToolSource → Option Text → Bool
is_about server short (mcp own) (some name) = eqb server own && eqb short name
is_about server short _ _ = false

-- The calls of the last row about a tool.
abbrev pub last_count : Text → Text → List ToolRankRow → Option ℕ
last_count server short [] = none
last_count server short (row ∷ rows) = or_else (last_count server short rows) (
    if is_about server short row.source (short_name_of row.name) then some row.call_count else none)

module _ (server short : Text) where
  nothing_in_empty : get {V = ℕ} short [] ≡ none
  unfolding get
  nothing_in_empty = refl

  call_count_of-note_called :
      (source : ToolSource) (name : Option Text) (calls : ℕ) (called : Called)
      → call_count_of (note_called source name calls called) server short
        ≡ (if is_about server short source name then calls else call_count_of called server short)
  unfolding note_called
  call_count_of-note_called (mcp own) (some name) calls called = ground (
    arith,
    get-upsert server own [] (insert name calls) called,
    get-insert short name calls (or_default [] (get own called)),
    text_ord.cmp_eq server own,
    nothing_in_empty,
  )
  call_count_of-note_called (mcp own) none calls called = refl
  call_count_of-note_called _ name calls called = refl

  call_count_of-called_of :
      (rows : List ToolRankRow) (called : Called)
      → call_count_of (called_of rows called) server short
        ≡ or_default (call_count_of called server short) (last_count server short rows)
  unfolding called_of
  call_count_of-called_of [] called = refl
  call_count_of-called_of (row ∷ rows) called =
      call_count_of-called_of rows _
      ∙ ground (
        arith,
        call_count_of-note_called row.source (short_name_of row.name) row.call_count called,
      )

  -- A tool has the calls of the last row about it.
  pub call_count_of-last :
      (rows : List ToolRankRow)
      → call_count_of (called_of rows []) server short ≡ or_default 0 (last_count server short rows)
  unfolding get
  call_count_of-last rows = call_count_of-called_of rows []
