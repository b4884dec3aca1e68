-- ===== src/Tui/Moves.antt =====
-- A key in the views keeps the cursors in bounds, and opens a detail view only over the flame graph.
use agentprof.Base.{
  ℕ, ◌==◌, min, ◌-◌, ◌+◌, ◌<◌, ◌≡◌, true, false, not, ◌&&◌, Option, none, some, max, ltb, arith,
  refl, inl, inr, Bool-cases, if_rule, if◌then◌else◌, or_else, is_some, get_elem?,
}
use agentprof.Map.{or_default}
use agentprof.Episode.{Turn}
use agentprof.Tui.Keys.{KeyCode, KeyEvent, View, is_char, next, prev}
use agentprof.Tui.Detail.{McpWasteState, TableOps, cursor_up, cursor_down, toggle_unused_only}
use agentprof.Tui.State.{AppState, SortKey, model_count, server_count}
use agentprof.Tui.Dispatch.{
  is_up, is_down, is_next, is_prev, is_esc, is_enter, is_capital_g, is_lowercase_g, view_key,
  sort_key, switch_view, sort_roi, dispatch_models_view_key, dispatch_mcp_waste_view_key,
  dispatch_flamegraph, open_detail, dispatch_view, dispatch_any, dispatch_plain, dispatch_top,
}
use agentprof.Tui.Bounds.{
  TableLaws, IsTop, IsSound, IsTop-IsSound, with_roi, with_models, with_mcp, with_view, with_gg,
  with_help, with_sort, scroll_up-IsTop, scroll_down-IsTop, scroll_to_top-IsTop,
  scroll_to_bottom-IsTop,
}

-- A property of a state that may be none.
abbrev Holds : {A : Type 0} → (A → Type 0) → Option A → Type 0
Holds P none = Unit
Holds P (some a) = P a

Holds-or_else :
    {A : Type 0} (P : A → Type 0) (o p : Option A) → Holds P o → Holds P p → Holds P (or_else o p)
Holds-or_else P none p ho hp = hp
Holds-or_else P (some a) p ho hp = ho

Holds-or_default :
    {A : Type 0} (P : A → Type 0) (a : A) (o : Option A) → P a → Holds P o → P (or_default a o)
Holds-or_default P a none h ho = h
Holds-or_default P a (some b) h ho = ho

module _ {T : Type 0} (table : TableOps T) (laws : TableLaws table) where
  cursor_up_bounded :
      (rows : ℕ) (m : McpWasteState T)
      → or_default 0 (table.selected m.server_cursor) < max 1 rows
      → or_default 0 (table.selected (cursor_up table m).server_cursor) < max 1 rows
  cursor_up_bounded rows m h =
      let i = or_default 0 (table.selected m.server_cursor) - 1 in
      rw (laws.selected-select (some i) m.server_cursor) (ground (arith, h))

  cursor_down_bounded :
      (rows : ℕ) (m : McpWasteState T)
      → or_default 0 (table.selected m.server_cursor) < max 1 rows
      → or_default 0 (table.selected (cursor_down table rows m).server_cursor) < max 1 rows
  cursor_down_bounded rows m h = elim (Bool-cases (rows == 0)) [
    | inl e ↦ rw (cursor_down, e, if◌then◌else◌) h
    | inr e ↦
        let i = min (or_default 0 (table.selected m.server_cursor) + 1) (rows - 1) in
        rw (cursor_down, e, if◌then◌else◌, laws.selected-select (some i) m.server_cursor)
          (ground (arith, h, e))
  ]

module _ {J T : Type 0} (table : TableOps T) (laws : TableLaws table) where
  switch_view-IsTop :
      (o : Option View) (s : AppState J T) → IsTop table s → Holds (IsTop table) (switch_view o s)
  unfolding switch_view
  switch_view-IsTop none s h = tt
  switch_view-IsTop (some v) s h = with_view table s v h

  sort_roi-IsTop :
      (o : Option SortKey) (s : AppState J T) → IsTop table s → Holds (IsTop table) (sort_roi o s)
  unfolding sort_roi
  sort_roi-IsTop none s h = tt
  sort_roi-IsTop (some k) s h =
      with_sort table (record s { roi_selected = 0 }) k (with_roi table s 0 (ground arith) h)

  model_down-IsTop :
      (s : AppState J T)
      → IsTop table s
      → IsTop table (
          if ltb 0 (model_count s) && ltb (s.models_selected + 1) (model_count s)
          then record s { models_selected = s.models_selected + 1 }
          else s)
  model_down-IsTop s h =
      elim (Bool-cases (ltb 0 (model_count s) && ltb (s.models_selected + 1) (model_count s))) [
        | inl e ↦ rw (e, if◌then◌else◌) (with_models table s _ (ground (arith, e)) h)
        | inr e ↦ rw (e, if◌then◌else◌) h
      ]

  models-IsTop :
      (k : KeyCode) (s : AppState J T)
      → IsTop table s
      → Holds (IsTop table) (dispatch_models_view_key k s)
  unfolding dispatch_models_view_key
  models-IsTop k s h =
      if_rule (Holds (IsTop table)) (is_esc k) _ _ (with_view table s View.flamegraph h) (
        if_rule (Holds (IsTop table)) (is_up k) _ _
          (with_models table s _ (ground (arith, h.0.models)) h)
          (if_rule (Holds (IsTop table)) (is_down k) _ _ (model_down-IsTop s h) tt))

  mcp-IsTop :
      (k : KeyCode) (s : AppState J T)
      → IsTop table s
      → Holds (IsTop table) (dispatch_mcp_waste_view_key table k s)
  unfolding dispatch_mcp_waste_view_key
  mcp-IsTop k s h =
      let m = s.mcp_waste_state in
      if_rule (Holds (IsTop table)) (is_up k) _ _
        (with_mcp table s (cursor_up table m)
          (cursor_up_bounded table laws (server_count s) m h.0.servers) h)
        (if_rule (Holds (IsTop table)) (is_down k) _ _
          (with_mcp table s (cursor_down table (server_count s) m)
            (cursor_down_bounded table laws (server_count s) m h.0.servers) h)
          (if_rule (Holds (IsTop table)) (is_char b'u' k) _ _
            (with_mcp table s (toggle_unused_only table m) h.0.servers h) tt))

  any-IsTop : (k : KeyCode) (s : AppState J T) → IsTop table s → IsTop table (dispatch_any k s)
  unfolding dispatch_any
  any-IsTop k s h = if_rule (IsTop table) (is_next k) _ _ (with_view table s (next s.view) h) (
      if_rule (IsTop table) (is_prev k) _ _ (with_view table s (prev s.view) h) (
        if_rule (IsTop table) (is_char b'?' k) _ _ (with_help table s true h) (
          if_rule (IsTop table) (is_up k) _ _ (scroll_up-IsTop table s.view s h)
            (if_rule (IsTop table) (is_down k) _ _ (scroll_down-IsTop table s.view s h) h))))

  open_detail-IsSound :
      (o : Option Turn) (s : AppState J T)
      → IsTop table s
      → s.view ≡ View.flamegraph
      → s.pending_gg ≡ false
      → IsSound table (open_detail o s)
  unfolding open_detail
  open_detail-IsSound none s h v g = IsTop-IsSound table s h
  open_detail-IsSound (some turn) s (h, top) v g = (
    record { roi = h.roi; flame = h.flame; models = h.models; servers = h.servers },
    (record { selected = ground arith; expanded = tt }, v, g),
  )

  Holds-IsSound : (o : Option (AppState J T)) → Holds (IsTop table) o → Holds (IsSound table) o
  Holds-IsSound none h = tt
  Holds-IsSound (some s) h = IsTop-IsSound table s h

  view-IsSound :
      (v : View) (k : KeyCode) (s : AppState J T)
      → IsTop table s
      → s.view ≡ v
      → s.pending_gg ≡ false
      → Holds (IsSound table) (dispatch_view table v k s)
  unfolding dispatch_view dispatch_flamegraph
  view-IsSound View.roi k s h v g = Holds-IsSound _ (sort_roi-IsTop (sort_key k) s h)
  view-IsSound View.models k s h v g = Holds-IsSound _ (models-IsTop k s h)
  view-IsSound View.mcp_waste k s h v g = Holds-IsSound _ (mcp-IsTop k s h)
  view-IsSound View.aggregate k s h v g = tt
  view-IsSound View.flamegraph k s h v g =
      if_rule (Holds (IsSound table)) (not (is_some s.detail_view) && is_enter k) _ _
        (open_detail-IsSound (get_elem? s.episodes.turns s.flame_selected) s h v g) tt

  plain-IsSound :
      (k : KeyCode) (s : AppState J T)
      → IsTop table s
      → s.pending_gg ≡ false
      → IsSound table (dispatch_plain table k s)
  unfolding dispatch_plain
  plain-IsSound k s h g =
      Holds-or_default (IsSound table) _ _ (IsTop-IsSound table _ (any-IsTop k s h)) (
        Holds-or_else (IsSound table) _ _ (Holds-IsSound _ (switch_view-IsTop (view_key k) s h))
          (view-IsSound s.view k s h refl g))

  pub top-IsSound :
      (k : KeyEvent) (s : AppState J T) → IsTop table s → IsSound table (dispatch_top table k s)
  unfolding dispatch_top
  top-IsSound k s h =
      if_rule (IsSound table) (is_capital_g k) _ _
        (IsTop-IsSound table _ (with_gg table _ false (scroll_to_bottom-IsTop table s.view s h)))
        (if_rule (IsSound table) (is_lowercase_g k) _ _
          (if_rule (IsSound table) s.pending_gg _ _
            (IsTop-IsSound table _ (with_gg table _ false (scroll_to_top-IsTop table s.view s h)))
            (IsTop-IsSound table _ (with_gg table s true h)))
          (plain-IsSound k.code (record s { pending_gg = false }) (with_gg table s false h) refl))
