-- ===== src/Tui/Answers.antt =====
-- When the interface quits, and what the keys that open, close and cycle do.
use agentprof.Base.{
  ℕ, zero, suc, ◌<◌, ◌≡◌, ◌⊎◌, ◌↔◌, true, false, Option, none, some, List, [], ◌∷◌, length,
  length-map, get_elem?, arith, refl, ap, ◌∙◌, inl, inr, Bool-cases, if◌then◌else◌, is_some,
}
use agentprof.Order.{nat_ord}
use agentprof.Episode.{Turn}
use agentprof.Analyzer.{SessionMeta, ParseWarning, analyze, turn_summary, turn_row}
use agentprof.Waste.Report.{WasteReport}
use agentprof.Tui.Keys.{KeyCode, KeyEvent, KeyEventKind, Event, CtEvent, View, next, prev}
use agentprof.Tui.Detail.{TableOps, new_detail}
use agentprof.Tui.State.{AppState, Action, is_quit}
use agentprof.Tui.Dispatch.{
  is_quit_key, open_detail, dispatch_top, dispatch_focus, dispatch_key, dispatch, draw_view, draw,
  on_event, turn_of, run,
}
use agentprof.Tui.Bounds.{IsSound}

-- The keys that quit: `q` with any modifiers, and Ctrl-C.
abbrev pub IsQuitKey : KeyEvent → Type 0
IsQuitKey k = (k.code ≡ KeyCode.char b'q') ⊎ ((k.code ≡ KeyCode.char b'c') × (k.control ≡ true))

-- An event of such a key.
abbrev pub IsQuitEvent : Event → Type 0
IsQuitEvent e = (k : KeyEvent) × (e ≡ Event.key k) × IsQuitKey k

-- An event that quits: the help is not open.
abbrev pub Quits : {J T : Type 0} → Event → AppState J T → Type 0
Quits e s = (s.help_open ≡ false) × IsQuitEvent e

-- A key press as the terminal sends it.
abbrev pub pressed : KeyEvent → Option CtEvent
pressed k = some (CtEvent.key k KeyEventKind.press)

-- A key with no modifier.
abbrev pub code_key : KeyCode → Event
code_key c = Event.key (record { code = c; control = false; shift = false })

prev-next : (v : View) → prev (next v) ≡ v
prev-next View.flamegraph = refl
prev-next View.roi = refl
prev-next View.aggregate = refl
prev-next View.models = refl
prev-next View.mcp_waste = refl

get_elem-bounded :
    {A : Type 0} (xs : List A) (i : ℕ) → i < length xs → (a : A) × (get_elem? xs i ≡ some a)
get_elem-bounded [] i h = ground (arith, h)
get_elem-bounded (x ∷ xs) zero h = (x, refl)
get_elem-bounded (x ∷ xs) (suc i) h = get_elem-bounded xs i (ground (arith, h))

IsQuitKey-is_quit_key : (k : KeyEvent) → IsQuitKey k → is_quit_key k ≡ true
IsQuitKey-is_quit_key k h = ground (arith, h)

is_quit_key-IsQuitKey : (k : KeyEvent) → is_quit_key k ≡ true → IsQuitKey k
is_quit_key-IsQuitKey k h = ground (arith, h)

IsQuitEvent-is_quit_key : (k : KeyEvent) → IsQuitEvent (Event.key k) → is_quit_key k ≡ true
IsQuitEvent-is_quit_key k (k', e, h) = ground (arith, e, IsQuitKey-is_quit_key k' h)

module _ {J T : Type 0} (table : TableOps T) where
  quit_cases :
      (e : Event) (s : AppState J T)
      → (s.help_open ≡ false → IsQuitEvent e → dispatch table e s ≡ (s, Action.quit))
        × (is_quit (dispatch table e s).1 ≡ true → Quits e s)
  unfolding dispatch dispatch_key
  quit_cases (Event.key k) s = elim (Bool-cases s.help_open) [
    | inl e ↦ rw (e, if◌then◌else◌) ((λ h h'. ground (arith, h)), (λ h. ground (arith, h)))
    | inr e ↦ elim (Bool-cases (is_quit_key k)) [
      | inl q ↦
          rw (e, q, if◌then◌else◌)
            ((λ h h'. refl), (λ h. (refl, (k, refl, is_quit_key-IsQuitKey k q))))
      | inr q ↦
          rw (e, q, if◌then◌else◌)
            ((λ h h'. ground (arith, IsQuitEvent-is_quit_key k h', q)), (λ h. ground (arith, h)))
    ]
  ]
  quit_cases (Event.resize c r) s = ((λ h h'. ground (arith, h'.1)), (λ h. ground (arith, h)))
  quit_cases Event.tick s = ((λ h h'. ground (arith, h'.1)), (λ h. ground (arith, h)))
  quit_cases Event.refresh s = ((λ h h'. ground (arith, h'.1)), (λ h. ground (arith, h)))

  -- The answer to an event is to quit exactly if the help is not open and the event is Ctrl-C or
  -- `q`, and exactly then the answer is to quit with the state left as it was.
  pub dispatch-quit :
      (e : Event) (s : AppState J T)
      → ((is_quit (dispatch table e s).1 ≡ true) ↔ Quits e s)
        × ((dispatch table e s ≡ (s, Action.quit)) ↔ Quits e s)
  dispatch-quit e s =
      let (stops, only) = quit_cases e s in
      (
        (only, λ q. ap (λ r. is_quit r.1) (stops q.0 q.1)),
        (λ h. only (ap (λ r. is_quit r.1) h), λ q. stops q.0 q.1),
      )

  -- The drawing leaves the overlay.
  help_open-draw_view :
      (v : View) (o : Option WasteReport) (s : AppState J T)
      → (draw_view table v o s).help_open ≡ s.help_open
  unfolding draw_view
  help_open-draw_view View.mcp_waste (some waste) s = refl
  help_open-draw_view View.mcp_waste none s = refl
  help_open-draw_view View.roi o s = refl
  help_open-draw_view View.aggregate o s = refl
  help_open-draw_view View.models o s = refl
  help_open-draw_view View.flamegraph o s = refl

  help_open-draw : (s : AppState J T) → (draw table s).help_open ≡ s.help_open
  unfolding draw
  help_open-draw s = elim (Bool-cases (is_some s.detail_view)) [
    | inl e ↦ rw (e, if◌then◌else◌) refl
    | inr e ↦ rw (e, if◌then◌else◌) (help_open-draw_view s.view s.waste_report s)
  ]

  turn_of-quit :
      (k : KeyEvent) (s : AppState J T)
      → is_quit_key k ≡ true
      → s.help_open ≡ false
      → is_quit (turn_of table (pressed k) s).1 ≡ true
  unfolding turn_of on_event
  turn_of-quit k s q h =
      ap (λ r. is_quit r.1)
        ((quit_cases (Event.key k) (draw table s)).0 (help_open-draw s ∙ h)
          (k, refl, is_quit_key-IsQuitKey k q))

  -- The help is closed by the first key.
  turn_of-help :
      (k : KeyEvent) (s : AppState J T)
      → s.help_open ≡ true
      → turn_of table (pressed k) s
        ≡ (record (draw table s) { help_open = false; pending_gg = false }, Action.no_action)
  unfolding turn_of on_event dispatch
  turn_of-help k s h = rw (help_open-draw s ∙ h, if◌then◌else◌) refl

  run-quit :
      (raw : Option CtEvent) (raws : List (Option CtEvent)) (s : AppState J T)
      → is_quit (turn_of table raw s).1 ≡ true
      → is_quit (run table (raw ∷ raws) s).1 ≡ true
  unfolding run
  run-quit raw raws s h = rw (h, if◌then◌else◌) refl

  -- A turn that does not quit goes on with the rest.
  run-next :
      (raw : Option CtEvent) (raws : List (Option CtEvent)) (s s' : AppState J T)
      → turn_of table raw s ≡ (s', Action.no_action)
      → run table (raw ∷ raws) s ≡ run table raws s'
  unfolding run
  run-next raw raws s s' h = rw (h, if◌then◌else◌) refl

  -- From every state, two presses of a key that quits end the loop, whatever is open.
  pub run_ends :
      (k : KeyEvent) (raws : List (Option CtEvent)) (s : AppState J T)
      → is_quit_key k ≡ true
      → is_quit (run table (pressed k ∷ pressed k ∷ raws) s).1 ≡ true
  run_ends k raws s q = elim (Bool-cases s.help_open) [
    | inr h ↦ run-quit (pressed k) (pressed k ∷ raws) s (turn_of-quit k s q h)
    | inl h ↦
        let s' : AppState J T = record (draw table s) { help_open = false; pending_gg = false } in
        ap (λ r. is_quit r.1) (run-next (pressed k) (pressed k ∷ raws) s s' (turn_of-help k s h))
        ∙ run-quit (pressed k) raws s' (turn_of-quit k s' q refl)
  ]

  tab_lem :
      (v : View) (s : AppState J T)
      → s.view ≡ v
      → s.help_open ≡ false
      → s.detail_view ≡ none
      → (dispatch table (code_key KeyCode.tab) s).0
        ≡ record s { view = next s.view; pending_gg = false }
  unfolding dispatch dispatch_key dispatch_focus dispatch_top
  tab_lem View.flamegraph s e h d = rw (h, d, e) refl
  tab_lem View.roi s e h d = rw (h, d, e) refl
  tab_lem View.aggregate s e h d = rw (h, d, e) refl
  tab_lem View.models s e h d = rw (h, d, e) refl
  tab_lem View.mcp_waste s e h d = rw (h, d, e) refl

  back_tab_lem :
      (v : View) (s : AppState J T)
      → s.view ≡ v
      → s.help_open ≡ false
      → s.detail_view ≡ none
      → (dispatch table (code_key KeyCode.back_tab) s).0
        ≡ record s { view = prev s.view; pending_gg = false }
  unfolding dispatch dispatch_key dispatch_focus dispatch_top
  back_tab_lem View.flamegraph s e h d = rw (h, d, e) refl
  back_tab_lem View.roi s e h d = rw (h, d, e) refl
  back_tab_lem View.aggregate s e h d = rw (h, d, e) refl
  back_tab_lem View.models s e h d = rw (h, d, e) refl
  back_tab_lem View.mcp_waste s e h d = rw (h, d, e) refl

  -- Tab and then Shift-Tab, with no overlay and no detail view open, lead back to the same state,
  -- without a half-typed `gg`.
  pub dispatch-dispatch_cycle :
      (s : AppState J T)
      → s.help_open ≡ false
      → s.detail_view ≡ none
      → (dispatch table (code_key KeyCode.back_tab) (dispatch table (code_key KeyCode.tab) s).0).0
        ≡ record s { pending_gg = false }
  dispatch-dispatch_cycle s h d =
      let s' : AppState J T = record s { view = next s.view; pending_gg = false } in
      ap (λ t. (dispatch table (code_key KeyCode.back_tab) t).0) (tab_lem s.view s refl h d)
      ∙ (back_tab_lem (next s.view) s' refl h d
          ∙ ap (λ v. record s { view = v; pending_gg = false }) (prev-next s.view))

  -- `Enter` over the flame graph.
  enter_lem :
      (s : AppState J T)
      → s.help_open ≡ false
      → s.detail_view ≡ none
      → s.view ≡ View.flamegraph
      → (dispatch table (code_key KeyCode.enter) s).0
        ≡ open_detail
            (get_elem? s.episodes.turns s.flame_selected)
            (record s { pending_gg = false })
  unfolding dispatch dispatch_key dispatch_focus dispatch_top
  enter_lem s h d v = rw (h, d, v) refl

  -- In a sound state over the flame graph, whose report is the analysis of its episodes, with turns
  -- and with no overlay or detail view open, Enter opens the detail view of the selected turn.
  pub dispatch-enter :
      (s : AppState J T) (meta : SessionMeta) (warnings : List ParseWarning)
      → IsSound table s
      → s.report ≡ analyze s.episodes meta warnings
      → s.help_open ≡ false
      → s.detail_view ≡ none
      → s.view ≡ View.flamegraph
      → 0 < length s.episodes.turns
      → (turn : Turn) × (get_elem? s.episodes.turns s.flame_selected ≡ some turn)
        × ((dispatch table (code_key KeyCode.enter) s).0.detail_view ≡ some (new_detail turn.id))
  unfolding open_detail analyze turn_summary
  dispatch-enter s meta warnings h e he hd hv lt =
      let (turn, found) = get_elem-bounded s.episodes.turns s.flame_selected (
        ground (
          arith,
          h.0.flame,
          lt,
          ap (λ r. length r.turn_summary) e,
          length-map turn_row s.episodes.turns,
        )) in
      (turn, found, ap (λ t. t.detail_view) (enter_lem s he hd hv) ∙ rw found refl)
