-- ===== src/Tui/Dispatch.antt =====
-- crates/agentprof-tui/src/app/state.rs: `dispatch`, which takes an event to the next state, and
-- the loop of app/mod.rs around it. The errors of the terminal, which end the loop, are left out.
use agentprof.Base.{
  ℕ, ◌+◌, ◌-◌, Bool, true, false, ◌&&◌, ◌||◌, not, Option, none, some, List, [], ◌∷◌, ltb, length,
  get_elem?, is_some, or_else, if◌then◌else◌,
}
use agentprof.Map.{or_default}
use agentprof.Episode.{Turn}
use agentprof.Waste.Report.{WasteReport}
use agentprof.Tui.Keys.{
  KeyCode, enter, esc, up, down, tab, back_tab, KeyEvent, Event, CtEvent, from_crossterm, is_char,
  View, flamegraph, roi, aggregate, models, mcp_waste, next, prev,
}
use agentprof.Tui.Detail.{
  TurnDetailState, new_detail, move_up, move_down, jump_first, jump_last, toggle_expand, TableOps,
  toggle_unused_only, cursor_down, cursor_up,
}
use agentprof.Tui.State.{
  SortKey, total_dur, calls, success_rate, p50, Action, no_action, quit, is_quit, AppState,
  model_count, server_count, detail_count, scroll_up, scroll_down, scroll_to_top, scroll_to_bottom,
}

-- Both spellings of Shift and `g`.
abbrev pub is_capital_g : KeyEvent → Bool
is_capital_g k = is_char b'G' k.code || is_char b'g' k.code && k.shift

abbrev pub is_lowercase_g : KeyEvent → Bool
is_lowercase_g k = is_char b'g' k.code && not k.shift

-- The keys that the program tells apart when it quits.
abbrev pub is_quit_key : KeyEvent → Bool
is_quit_key k = is_char b'c' k.code && k.control || is_char b'q' k.code

-- A key that goes up or down, and its letter.
abbrev pub is_up : KeyCode → Bool
is_up up = true
is_up k = is_char b'k' k

abbrev pub is_down : KeyCode → Bool
is_down down = true
is_down k = is_char b'j' k

-- A key that cycles the views, and its letter.
abbrev pub is_next : KeyCode → Bool
is_next tab = true
is_next k = is_char b'l' k

abbrev pub is_prev : KeyCode → Bool
is_prev back_tab = true
is_prev k = is_char b'h' k

abbrev pub is_esc : KeyCode → Bool
is_esc esc = true
is_esc _ = false

abbrev pub is_enter : KeyCode → Bool
is_enter enter = true
is_enter _ = false

-- The view of a digit.
unfoldable pub view_key : KeyCode → Option View
view_key k =
    if is_char b'1' k
    then some flamegraph
    else if is_char b'2' k
    then some roi
    else if is_char b'3' k
    then some aggregate
    else if is_char b'4' k
    then some models
    else if is_char b'5' k
    then some mcp_waste
    else none

unfoldable pub sort_key : KeyCode → Option SortKey
sort_key k =
    if is_char b't' k
    then some total_dur
    else if is_char b'c' k
    then some calls
    else if is_char b's' k
    then some success_rate
    else if is_char b'p' k
    then some p50
    else none

-- `match dispatch_detail(..)`: whether the key goes on to the views.
pub data DetailFlow : Type 0 where
  handled fall_through : DetailFlow

module _ {J T : Type 0} where
  unfoldable pub set_detail : TurnDetailState → AppState J T → AppState J T
  set_detail d s = record s { detail_view = some d }

  unfoldable pub close_detail : AppState J T → AppState J T
  close_detail s = record s { detail_view = none; pending_gg = false }

  -- The `match` on the code, in the detail view `d`.
  unfoldable pub detail_code :
      KeyCode → ℕ → TurnDetailState → AppState J T → AppState J T × DetailFlow
  unfolding set_detail close_detail view_key
  detail_code k max d s =
      if is_esc k
      then (close_detail s, handled)
      else if is_enter k
      then (set_detail (toggle_expand d) s, handled)
      else if is_up k
      then (set_detail (move_up d) s, handled)
      else if is_down k
      then (set_detail (move_down max d) s, handled)
      else if is_some (view_key k) || is_char b'h' k || is_char b'l' k
      then (close_detail s, fall_through)
      else if is_char b'?' k
      then (set_detail (record d { pending_gg = false }) s, fall_through)
      else (set_detail (record d { pending_gg = false }) s, handled)

  unfoldable pub dispatch_detail :
      KeyEvent → TurnDetailState → AppState J T → AppState J T × DetailFlow
  unfolding detail_code set_detail
  dispatch_detail k d s =
      let max = detail_count d.turn_id s.episodes.turns in
      if is_capital_g k
      then (set_detail (jump_last max d) s, handled)
      else if is_lowercase_g k
      then (
        set_detail (if d.pending_gg then jump_first d else record d { pending_gg = true }) s,
        handled,
      )
      else detail_code k.code max d s

  -- The blocks of `dispatch` behind the motions, each of which may take the key.
  unfoldable pub switch_view : Option View → AppState J T → Option (AppState J T)
  switch_view none s = none
  switch_view (some v) s = some (record s { view = v })

  unfoldable pub sort_roi : Option SortKey → AppState J T → Option (AppState J T)
  sort_roi none s = none
  sort_roi (some key) s = some (record s { roi_sort = key; roi_selected = 0 })

  unfoldable pub dispatch_models_view_key : KeyCode → AppState J T → Option (AppState J T)
  dispatch_models_view_key k s =
      if is_esc k
      then some (record s { view = flamegraph })
      else if is_up k
      then some (record s { models_selected = s.models_selected - 1 })
      else if is_down k
      then some (
          if ltb 0 (model_count s) && ltb (s.models_selected + 1) (model_count s)
          then record s { models_selected = s.models_selected + 1 }
          else s)
      else none

  -- `Enter` on a turn.
  unfoldable pub open_detail : Option Turn → AppState J T → AppState J T
  open_detail none s = s
  open_detail (some turn) s = record s { detail_view = some (new_detail turn.id) }

  unfoldable pub dispatch_flamegraph : KeyCode → AppState J T → Option (AppState J T)
  unfolding open_detail
  dispatch_flamegraph k s =
      if not (is_some s.detail_view) && is_enter k
      then some (open_detail (get_elem? s.episodes.turns s.flame_selected) s)
      else none

  -- The last `match`.
  unfoldable pub dispatch_any : KeyCode → AppState J T → AppState J T
  unfolding scroll_up scroll_down
  dispatch_any k s =
      if is_next k
      then record s { view = next s.view }
      else if is_prev k
      then record s { view = prev s.view }
      else if is_char b'?' k
      then record s { help_open = true }
      else if is_up k
      then scroll_up s.view s
      else if is_down k
      then scroll_down s.view s
      else s

  module _ (table : TableOps T) where
    unfoldable pub dispatch_mcp_waste_view_key : KeyCode → AppState J T → Option (AppState J T)
    dispatch_mcp_waste_view_key k s =
        if is_up k
        then some (record s { mcp_waste_state = cursor_up table s.mcp_waste_state })
        else if is_down k
        then some
            (record s { mcp_waste_state = cursor_down table (server_count s) s.mcp_waste_state })
        else if is_char b'u' k
        then some (record s { mcp_waste_state = toggle_unused_only table s.mcp_waste_state })
        else none

    -- The block of the active view.
    unfoldable pub dispatch_view : View → KeyCode → AppState J T → Option (AppState J T)
    unfolding sort_key sort_roi dispatch_models_view_key dispatch_mcp_waste_view_key
        dispatch_flamegraph
    dispatch_view roi k s = sort_roi (sort_key k) s
    dispatch_view models k s = dispatch_models_view_key k s
    dispatch_view mcp_waste k s = dispatch_mcp_waste_view_key k s
    dispatch_view flamegraph k s = dispatch_flamegraph k s
    dispatch_view aggregate k s = none

    unfoldable pub dispatch_plain : KeyCode → AppState J T → AppState J T
    unfolding view_key switch_view dispatch_view dispatch_any
    dispatch_plain k s =
        or_default (dispatch_any k s)
          (or_else (switch_view (view_key k) s) (dispatch_view s.view k s))

    -- `dispatch`, behind the detail view.
    unfoldable pub dispatch_top : KeyEvent → AppState J T → AppState J T
    unfolding scroll_to_bottom scroll_to_top dispatch_plain
    dispatch_top k s =
        if is_capital_g k
        then record (scroll_to_bottom s.view s) { pending_gg = false }
        else if is_lowercase_g k
        then (if s.pending_gg
            then record (scroll_to_top s.view s) { pending_gg = false }
            else record s { pending_gg = true })
        else dispatch_plain k.code (record s { pending_gg = false })

    unfoldable pub follow : DetailFlow → KeyEvent → AppState J T → AppState J T
    unfolding dispatch_top
    follow handled k s = s
    follow fall_through k s = dispatch_top k s

    unfoldable pub dispatch_focus : Option TurnDetailState → KeyEvent → AppState J T → AppState J T
    unfolding dispatch_detail dispatch_top follow
    dispatch_focus none k s = dispatch_top k s
    dispatch_focus (some d) k s = let (s', flow) = dispatch_detail k d s in follow flow k s'

    unfoldable pub dispatch_key : KeyEvent → AppState J T → AppState J T × Action
    unfolding dispatch_focus
    dispatch_key k s =
        if is_quit_key k then (s, quit) else (dispatch_focus s.detail_view k s, no_action)

    unfoldable pub dispatch : Event → AppState J T → AppState J T × Action
    unfolding dispatch_key
    dispatch (Event.key k) s =
        if s.help_open
        then (record s { help_open = false; pending_gg = false }, no_action)
        else dispatch_key k s
    dispatch _ s = (s, no_action)

    -- `render_into`: of the state it changes the cursor of the servers, when it draws their table.
    unfoldable pub draw_view : View → Option WasteReport → AppState J T → AppState J T
    draw_view mcp_waste (some waste) s = record s {
      mcp_waste_state = record s.mcp_waste_state {
        server_cursor = table.render (length waste.server_waste) s.mcp_waste_state.server_cursor;
      };
    }
    draw_view _ _ s = s

    unfoldable pub draw : AppState J T → AppState J T
    unfolding draw_view
    draw s = if is_some s.detail_view then s else draw_view s.view s.waste_report s

    unfoldable pub on_event : Option Event → AppState J T → AppState J T × Action
    unfolding dispatch
    on_event none s = (s, no_action)
    on_event (some event) s = dispatch event s

    -- One turn of the loop; `none` is a wait in which nothing came.
    unfoldable pub turn_of : Option CtEvent → AppState J T → AppState J T × Action
    unfolding draw on_event
    turn_of none s = (draw s, no_action)
    turn_of (some raw) s = on_event (from_crossterm raw) (draw s)

    -- `AppRunner::run` on what the terminal sends, up to the quit.
    unfoldable pub run : List (Option CtEvent) → AppState J T → AppState J T × Action
    unfolding turn_of
    run [] s = (s, no_action)
    run (raw ∷ raws) s =
        let (s', action) = turn_of raw s in
        let rest = run raws s' in if is_quit action then (s', quit) else rest
