-- ===== src/Tui/Bounds.antt =====
-- The cursors of the interface stay on the rows of their tables, whatever is pressed.
use agentprof.Base.{
  ℕ, ◌<◌, ◌-◌, ltb, ◌≡◌, Bool, false, Option, none, some, List, max, length, arith, inl, inr,
  Bool-cases, if◌then◌else◌,
}
use agentprof.Order.{nat_ord}
use agentprof.Map.{
  contains_key, insert_elem, or_default, AllEntries, AllEntries-upsert, AllEntries-remove,
}
use agentprof.Episode.{Turn}
use agentprof.Tui.Keys.{View}
use agentprof.Tui.Detail.{
  TurnDetailState, McpWasteState, move_up, move_down, jump_last, toggle_expand, TableOps,
}
use agentprof.Tui.State.{
  AppState, SortKey, model_count, server_count, detail_count, scroll_up, scroll_down, scroll_to_top,
  scroll_to_bottom,
}

-- What ratatui documents of the state of a table: the selection is the last one set, and the
-- drawing moves a selection behind the last row onto it.
pub record TableLaws {T : Type 0} (table : TableOps T) : Type 0 where
  pub selected-select : (o : Option ℕ) (t : T) → table.selected (table.select o t) ≡ o
  pub selected-render :
      (rows : ℕ) (t : T)
      → or_default 0 (table.selected t) < max 1 rows
      → or_default 0 (table.selected (table.render rows t)) < max 1 rows

-- The selected and the expanded calls of a detail view are calls, of which there are `rows`.
pub record IsDetail (rows : ℕ) (d : TurnDetailState) : Type 0 where
  pub selected : d.selected_tool_idx < max 1 rows
  pub expanded : AllEntries (λ i _. i < max 1 rows) d.expanded_tools

pub move_up-IsDetail :
    (rows : ℕ) (d : TurnDetailState) → IsDetail rows d → IsDetail rows (move_up d)
move_up-IsDetail rows d h = record { selected = ground (arith, h.selected); expanded = h.expanded }

pub move_down-IsDetail :
    (rows : ℕ) (d : TurnDetailState) → IsDetail rows d → IsDetail rows (move_down rows d)
move_down-IsDetail rows d h = record {
  selected = ground (arith, h.selected);
  expanded = h.expanded;
}

pub jump_last-IsDetail :
    (rows : ℕ) (d : TurnDetailState) → IsDetail rows d → IsDetail rows (jump_last rows d)
jump_last-IsDetail rows d h = record { selected = ground arith; expanded = h.expanded }

pub toggle_expand-IsDetail :
    (rows : ℕ) (d : TurnDetailState) → IsDetail rows d → IsDetail rows (toggle_expand d)
unfolding insert_elem
toggle_expand-IsDetail rows d h = record {
  selected = h.selected;
  expanded = elim (Bool-cases (contains_key d.selected_tool_idx d.expanded_tools)) [
    | inl e ↦
        rw (e, if◌then◌else◌)
          (AllEntries-remove (λ i _. i < max 1 rows) d.selected_tool_idx d.expanded_tools
            h.expanded)
    | inr e ↦
        rw (e, if◌then◌else◌)
          (AllEntries-upsert (λ i _. i < max 1 rows) d.selected_tool_idx tt (λ u. u)
            d.expanded_tools h.selected (λ j v s k. k) h.expanded)
  ];
}

-- An open detail view is in its bounds, over the flame graph, and no `g` waits behind it.
abbrev pub HasDetail : List Turn → View → Bool → Option TurnDetailState → Type 0
HasDetail turns v pending none = Unit
HasDetail turns v pending (some d) =
    IsDetail (detail_count d.turn_id turns) d × (v ≡ View.flamegraph) × (pending ≡ false)

module _ {J T : Type 0} (table : TableOps T) where
  -- The cursors of the tables.
  pub record IsInBounds (s : AppState J T) : Type 0 where
    pub roi : s.roi_selected < max 1 (length s.report.tool_rank)
    pub flame : s.flame_selected < max 1 (length s.report.turn_summary)
    pub models : s.models_selected < max 1 (model_count s)
    pub servers :
        or_default 0 (table.selected s.mcp_waste_state.server_cursor) < max 1 (server_count s)

  -- No detail view is open.
  abbrev pub IsTop : AppState J T → Type 0
  IsTop s = IsInBounds s × (s.detail_view ≡ none)

  abbrev pub IsSound : AppState J T → Type 0
  IsSound s = IsInBounds s × HasDetail s.episodes.turns s.view s.pending_gg s.detail_view

  pub IsTop-IsSound : (s : AppState J T) → IsTop s → IsSound s
  IsTop-IsSound s h = (h.0, rw (h.1) tt)

  -- One cursor moves.
  pub with_roi :
      (s : AppState J T) (i : ℕ)
      → i < max 1 (length s.report.tool_rank)
      → IsTop s
      → IsTop (record s { roi_selected = i })
  with_roi s i lt (h, top) =
      (record { roi = lt; flame = h.flame; models = h.models; servers = h.servers }, top)

  pub with_flame :
      (s : AppState J T) (i : ℕ)
      → i < max 1 (length s.report.turn_summary)
      → IsTop s
      → IsTop (record s { flame_selected = i })
  with_flame s i lt (h, top) =
      (record { roi = h.roi; flame = lt; models = h.models; servers = h.servers }, top)

  pub with_models :
      (s : AppState J T) (i : ℕ)
      → i < max 1 (model_count s)
      → IsTop s
      → IsTop (record s { models_selected = i })
  with_models s i lt (h, top) =
      (record { roi = h.roi; flame = h.flame; models = lt; servers = h.servers }, top)

  pub with_mcp :
      (s : AppState J T) (m : McpWasteState T)
      → or_default 0 (table.selected m.server_cursor) < max 1 (server_count s)
      → IsTop s
      → IsTop (record s { mcp_waste_state = m })
  with_mcp s m lt (h, top) =
      (record { roi = h.roi; flame = h.flame; models = h.models; servers = lt }, top)

  -- What is no cursor changes.
  pub with_view : (s : AppState J T) (v : View) → IsTop s → IsTop (record s { view = v })
  with_view s v (h, top) =
      (record { roi = h.roi; flame = h.flame; models = h.models; servers = h.servers }, top)

  pub with_gg : (s : AppState J T) (b : Bool) → IsTop s → IsTop (record s { pending_gg = b })
  with_gg s b (h, top) =
      (record { roi = h.roi; flame = h.flame; models = h.models; servers = h.servers }, top)

  pub with_help : (s : AppState J T) (b : Bool) → IsTop s → IsTop (record s { help_open = b })
  with_help s b (h, top) =
      (record { roi = h.roi; flame = h.flame; models = h.models; servers = h.servers }, top)

  pub with_sort : (s : AppState J T) (k : SortKey) → IsTop s → IsTop (record s { roi_sort = k })
  with_sort s k (h, top) =
      (record { roi = h.roi; flame = h.flame; models = h.models; servers = h.servers }, top)

  pub scroll_up-IsTop : (v : View) (s : AppState J T) → IsTop s → IsTop (scroll_up v s)
  unfolding scroll_up
  scroll_up-IsTop View.roi s h = with_roi s _ (ground (arith, h.0.roi)) h
  scroll_up-IsTop View.flamegraph s h = with_flame s _ (ground (arith, h.0.flame)) h
  scroll_up-IsTop View.aggregate s h = h
  scroll_up-IsTop View.models s h = h
  scroll_up-IsTop View.mcp_waste s h = h

  pub scroll_down-IsTop : (v : View) (s : AppState J T) → IsTop s → IsTop (scroll_down v s)
  unfolding scroll_down
  scroll_down-IsTop View.roi s h =
      elim (Bool-cases (ltb s.roi_selected (length s.report.tool_rank - 1))) [
        | inl e ↦ rw (e, if◌then◌else◌) (with_roi s _ (ground (arith, e)) h)
        | inr e ↦ rw (e, if◌then◌else◌) h
      ]
  scroll_down-IsTop View.flamegraph s h =
      elim (Bool-cases (ltb s.flame_selected (length s.report.turn_summary - 1))) [
        | inl e ↦ rw (e, if◌then◌else◌) (with_flame s _ (ground (arith, e)) h)
        | inr e ↦ rw (e, if◌then◌else◌) h
      ]
  scroll_down-IsTop View.aggregate s h = h
  scroll_down-IsTop View.models s h = h
  scroll_down-IsTop View.mcp_waste s h = h

  pub scroll_to_top-IsTop : (v : View) (s : AppState J T) → IsTop s → IsTop (scroll_to_top v s)
  unfolding scroll_to_top
  scroll_to_top-IsTop View.roi s h = with_roi s _ (ground arith) h
  scroll_to_top-IsTop View.flamegraph s h = with_flame s _ (ground arith) h
  scroll_to_top-IsTop View.models s h = with_models s _ (ground arith) h
  scroll_to_top-IsTop View.aggregate s h = h
  scroll_to_top-IsTop View.mcp_waste s h = h

  pub scroll_to_bottom-IsTop :
      (v : View) (s : AppState J T) → IsTop s → IsTop (scroll_to_bottom v s)
  unfolding scroll_to_bottom
  scroll_to_bottom-IsTop View.roi s h = with_roi s _ (ground arith) h
  scroll_to_bottom-IsTop View.flamegraph s h = with_flame s _ (ground arith) h
  scroll_to_bottom-IsTop View.models s h = with_models s _ (ground arith) h
  scroll_to_bottom-IsTop View.aggregate s h = h
  scroll_to_bottom-IsTop View.mcp_waste s h = h
