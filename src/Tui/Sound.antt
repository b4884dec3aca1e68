-- ===== src/Tui/Sound.antt =====
-- The interface stays sound through the detail view, the overlay, the drawing and the whole run.
use agentprof.Base.{
  ℕ, ◌<◌, ◌≡◌, Bool, true, false, ◌||◌, Option, none, some, List, [], ◌∷◌, max, length, arith, refl,
  inl, inr, subst, Bool-cases, if_rule, if◌then◌else◌, is_some,
}
use agentprof.Order.{nat_ord, eqb_iff}
use agentprof.Map.{or_default}
use agentprof.Episode.{Turn, Episodes}
use agentprof.Analyzer.{AnalysisReport}
use agentprof.Waste.Report.{WasteReport}
use agentprof.Tui.Keys.{KeyCode, KeyEvent, Event, CtEvent, View, is_char, from_crossterm}
use agentprof.Tui.Detail.{
  TurnDetailState, move_up, move_down, jump_first, jump_last, toggle_expand, TableOps,
}
use agentprof.Tui.State.{AppState, Action, is_quit, new_app, detail_count, waste_len}
use agentprof.Tui.Dispatch.{
  DetailFlow, is_up, is_down, is_esc, is_enter, is_capital_g, is_lowercase_g, is_quit_key, view_key,
  set_detail, close_detail, detail_code, dispatch_detail, dispatch_top, follow, dispatch_focus,
  dispatch_key, dispatch, draw_view, draw, on_event, turn_of, run,
}
use agentprof.Tui.Bounds.{
  TableLaws, IsDetail, HasDetail, IsInBounds, IsTop, IsSound, IsTop-IsSound, move_up-IsDetail,
  move_down-IsDetail, jump_last-IsDetail, toggle_expand-IsDetail,
}
use agentprof.Tui.Moves.{top-IsSound}

is_char-code : (c : ℕ) (k : KeyCode) → is_char c k ≡ true → k ≡ KeyCode.char c
is_char-code c (KeyCode.char d) h = rw ((eqb_iff c d).0 h) refl
is_char-code c KeyCode.enter h = ground (arith, h)
is_char-code c KeyCode.esc h = ground (arith, h)
is_char-code c KeyCode.up h = ground (arith, h)
is_char-code c KeyCode.down h = ground (arith, h)
is_char-code c KeyCode.tab h = ground (arith, h)
is_char-code c KeyCode.back_tab h = ground (arith, h)
is_char-code c (KeyCode.other_key i) h = ground (arith, h)

HasDetail-calm :
    (turns : List Turn) (v : View) (b : Bool) (o : Option TurnDetailState)
    → HasDetail turns v b o
    → HasDetail turns v false o
HasDetail-calm turns v b none h = tt
HasDetail-calm turns v b (some d) h = (h.0, h.1, refl)

module _ {J T : Type 0} (table : TableOps T) (laws : TableLaws table) where
  -- Another detail view over the flame graph.
  set_detail-IsSound :
      (d : TurnDetailState) (s : AppState J T)
      → IsInBounds table s
      → IsDetail (detail_count d.turn_id s.episodes.turns) d
      → s.view ≡ View.flamegraph
      → s.pending_gg ≡ false
      → IsSound table (set_detail d s)
  unfolding set_detail
  set_detail-IsSound d s h hd v g =
      (record { roi = h.roi; flame = h.flame; models = h.models; servers = h.servers }, (hd, v, g))

  close_detail-IsTop : (s : AppState J T) → IsInBounds table s → IsTop table (close_detail s)
  unfolding close_detail
  close_detail-IsTop s h =
      (record { roi = h.roi; flame = h.flame; models = h.models; servers = h.servers }, refl)

  -- A `?` that falls through opens the help.
  dispatch_top_help :
      (k : KeyEvent) (d : TurnDetailState) (s : AppState J T)
      → k.code ≡ KeyCode.char b'?'
      → s.detail_view ≡ some d
      → s.view ≡ View.flamegraph
      → dispatch_top table k s ≡ record s { help_open = true; pending_gg = false }
  unfolding dispatch_top
  dispatch_top_help k d s ek ed ev = rw (ek, ed, ev) refl

  followed_help :
      (k : KeyEvent) (d : TurnDetailState) (s : AppState J T)
      → IsInBounds table s
      → IsDetail (detail_count d.turn_id s.episodes.turns) d
      → s.view ≡ View.flamegraph
      → is_char b'?' k.code ≡ true
      → IsSound table (dispatch_top table k (set_detail d s))
  unfolding set_detail
  followed_help k d s h hd v e =
      rw (dispatch_top_help k d (set_detail d s) (is_char-code b'?' k.code e) refl v) (
        record { roi = h.roi; flame = h.flame; models = h.models; servers = h.servers },
        (hd, v, refl),
      )

  help_closed :
      (s : AppState J T)
      → IsSound table s
      → IsSound table (record s { help_open = false; pending_gg = false })
  help_closed s (h, d) = (
    record { roi = h.roi; flame = h.flame; models = h.models; servers = h.servers },
    HasDetail-calm s.episodes.turns s.view s.pending_gg s.detail_view d,
  )

  -- The state behind a detail view's answer.
  abbrev Follows : KeyEvent → AppState J T × DetailFlow → Type 0
  Follows k r = IsSound table (follow table r.1 k r.0)

  -- The keys that leave the detail view as it is, or close it.
  other_key-Follows :
      (k : KeyEvent) (d : TurnDetailState) (s : AppState J T)
      → IsInBounds table s
      → IsDetail (detail_count d.turn_id s.episodes.turns) d
      → s.view ≡ View.flamegraph
      → s.pending_gg ≡ false
      → Follows k (
          if is_some (view_key k.code) || is_char b'h' k.code || is_char b'l' k.code
          then (close_detail s, DetailFlow.fall_through)
          else if is_char b'?' k.code
          then (set_detail (record d { pending_gg = false }) s, DetailFlow.fall_through)
          else (set_detail (record d { pending_gg = false }) s, DetailFlow.handled))
  unfolding follow
  other_key-Follows k d s h hd v g =
      let d' : TurnDetailState = record d { pending_gg = false } in
      let hd' : IsDetail (detail_count d.turn_id s.episodes.turns) d' = record {
        selected = hd.selected;
        expanded = hd.expanded;
      } in
      if_rule (Follows k) (is_some (view_key k.code) || is_char b'h' k.code || is_char b'l' k.code)
        _ _ (top-IsSound table laws k (close_detail s) (close_detail-IsTop s h))
        (elim (Bool-cases (is_char b'?' k.code)) [
          | inl e ↦ rw (e, if◌then◌else◌) (followed_help k d' s h hd' v e)
          | inr e ↦ rw (e, if◌then◌else◌) (set_detail-IsSound d' s h hd' v g)
        ])

  detail_code-Follows :
      (k : KeyEvent) (d : TurnDetailState) (s : AppState J T)
      → IsInBounds table s
      → IsDetail (detail_count d.turn_id s.episodes.turns) d
      → s.view ≡ View.flamegraph
      → s.pending_gg ≡ false
      → Follows k (detail_code k.code (detail_count d.turn_id s.episodes.turns) d s)
  unfolding detail_code follow
  detail_code-Follows k d s h hd v g =
      let max = detail_count d.turn_id s.episodes.turns in
      if_rule (Follows k) (is_esc k.code) _ _
        (IsTop-IsSound table (close_detail s) (close_detail-IsTop s h))
        (if_rule (Follows k) (is_enter k.code) _ _
          (set_detail-IsSound (toggle_expand d) s h (toggle_expand-IsDetail max d hd) v g)
          (if_rule (Follows k) (is_up k.code) _ _
            (set_detail-IsSound (move_up d) s h (move_up-IsDetail max d hd) v g)
            (if_rule (Follows k) (is_down k.code) _ _
              (set_detail-IsSound (move_down max d) s h (move_down-IsDetail max d hd) v g)
              (other_key-Follows k d s h hd v g))))

  dispatch_detail-Follows :
      (k : KeyEvent) (d : TurnDetailState) (s : AppState J T)
      → IsInBounds table s
      → IsDetail (detail_count d.turn_id s.episodes.turns) d
      → s.view ≡ View.flamegraph
      → s.pending_gg ≡ false
      → Follows k (dispatch_detail k d s)
  unfolding dispatch_detail follow
  dispatch_detail-Follows k d s h hd v g =
      let max = detail_count d.turn_id s.episodes.turns in
      if_rule (Follows k) (is_capital_g k) _ _
        (set_detail-IsSound (jump_last max d) s h (jump_last-IsDetail max d hd) v g)
        (if_rule (Follows k) (is_lowercase_g k) _ _
          (if_rule (λ d'. IsSound table (set_detail d' s)) d.pending_gg _ _
            (set_detail-IsSound (jump_first d) s h
              (record { selected = ground arith; expanded = hd.expanded }) v g)
            (set_detail-IsSound (record d { pending_gg = true }) s h
              (record { selected = hd.selected; expanded = hd.expanded }) v g))
          (detail_code-Follows k d s h hd v g))

  dispatch_focus-IsSound :
      (o : Option TurnDetailState) (k : KeyEvent) (s : AppState J T)
      → s.detail_view ≡ o
      → IsSound table s
      → IsSound table (dispatch_focus table o k s)
  unfolding dispatch_focus
  dispatch_focus-IsSound none k s e h = top-IsSound table laws k s (h.0, e)
  dispatch_focus-IsSound (some d) k s e h =
      let hd = subst (HasDetail s.episodes.turns s.view s.pending_gg) e h.1 in
      dispatch_detail-Follows k d s h.0 hd.0 hd.1 hd.2

  -- The state behind an answer of the loop.
  abbrev Leaves : AppState J T × Action → Type 0
  Leaves r = IsSound table r.0

  pub dispatch-IsSound :
      (e : Event) (s : AppState J T) → IsSound table s → Leaves (dispatch table e s)
  unfolding dispatch dispatch_key
  dispatch-IsSound (Event.key k) s h =
      if_rule Leaves s.help_open _ _ (help_closed s h)
        (if_rule Leaves (is_quit_key k) _ _ h (dispatch_focus-IsSound s.detail_view k s refl h))
  dispatch-IsSound (Event.resize c r) s h = h
  dispatch-IsSound Event.tick s h = h
  dispatch-IsSound Event.refresh s h = h

  draw_view-IsSound :
      (v : View) (o : Option WasteReport) (s : AppState J T)
      → s.waste_report ≡ o
      → IsSound table s
      → IsSound table (draw_view table v o s)
  unfolding draw_view
  draw_view-IsSound View.mcp_waste (some waste) s e (h, d) =
      let lt =
        subst
          (λ w. or_default 0 (table.selected s.mcp_waste_state.server_cursor) < max 1 (waste_len w))
          e h.servers in
      (
        record {
          roi = h.roi;
          flame = h.flame;
          models = h.models;
          servers =
              rw e (
                laws.selected-render (length waste.server_waste) s.mcp_waste_state.server_cursor
                  lt);
        },
        d,
      )
  draw_view-IsSound View.mcp_waste none s e h = h
  draw_view-IsSound View.roi o s e h = h
  draw_view-IsSound View.aggregate o s e h = h
  draw_view-IsSound View.models o s e h = h
  draw_view-IsSound View.flamegraph o s e h = h

  draw-IsSound : (s : AppState J T) → IsSound table s → IsSound table (draw table s)
  unfolding draw
  draw-IsSound s h =
      if_rule (IsSound table) (is_some s.detail_view) _ _ h
        (draw_view-IsSound s.view s.waste_report s refl h)

  on_event-IsSound :
      (o : Option Event) (s : AppState J T) → IsSound table s → Leaves (on_event table o s)
  unfolding on_event
  on_event-IsSound none s h = h
  on_event-IsSound (some e) s h = dispatch-IsSound e s h

  turn_of-IsSound :
      (o : Option CtEvent) (s : AppState J T) → IsSound table s → Leaves (turn_of table o s)
  unfolding turn_of
  turn_of-IsSound none s h = draw-IsSound s h
  turn_of-IsSound (some raw) s h =
      on_event-IsSound (from_crossterm raw) (draw table s) (draw-IsSound s h)

  run_keeps :
      (raws : List (Option CtEvent)) (s : AppState J T)
      → IsSound table s
      → Leaves (run table raws s)
  unfolding run
  run_keeps [] s h = h
  run_keeps (raw ∷ raws) s h =
      let h' = turn_of-IsSound raw s h in
      if_rule Leaves (is_quit (turn_of table raw s).1) _ _ h'
        (run_keeps raws (turn_of table raw s).0 h')

  -- Whatever the terminal sends to a new interface, the cursors of its tables are on their rows
  -- (or zero, where a table has none), and an open detail view stands over the flame graph, with
  -- its selection and its expanded calls among the calls of its turn and no half-typed `gg`
  -- outside it; if the library's table states behave as documented.
  pub run-IsSound :
      (report : AnalysisReport) (episodes : Episodes J) (waste : Option WasteReport)
      (raws : List (Option CtEvent))
      → IsSound table (run table raws (new_app table report episodes waste)).0
  run-IsSound report episodes waste raws = run_keeps raws (new_app table report episodes waste) (
    record {
      roi = ground arith;
      flame = ground arith;
      models = ground arith;
      servers = rw (laws.selected-select (some 0) table.default_table) (ground arith);
    },
    tt,
  )
