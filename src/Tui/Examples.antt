-- ===== src/Tui/Examples.antt =====
-- An interface over a session with two turns, and the theorems at it.
use agentprof.Base.{
  ℕ, ◌≡◌, ◌↔◌, Option, none, some, List, [], ◌∷◌, true, false, min, get_elem?, arith, refl, zero,
  suc, max, ◌<◌,
}
use agentprof.Order.{text}
use agentprof.Map.{or_default}
use agentprof.Episode.{Turn, new_turn, Episodes}
use agentprof.Analyzer.{SessionMeta, copilot, analyze}
use agentprof.Tui.Keys.{KeyCode, KeyEvent, Event, CtEvent}
use agentprof.Tui.Detail.{TableOps, new_detail}
use agentprof.Tui.State.{AppState, Action, new_app, is_quit}
use agentprof.Tui.Dispatch.{dispatch, run}
use agentprof.Tui.Bounds.{TableLaws, IsSound}
use agentprof.Tui.Sound.{run-IsSound}
use agentprof.Tui.Answers.{
  pressed, code_key, Quits, dispatch-quit, run_ends, dispatch-dispatch_cycle, dispatch-enter,
}

-- A table state that is its selection.
abbrev clamp : ℕ → Option ℕ → Option ℕ
clamp rows none = none
clamp zero (some i) = none
clamp (suc rows) (some i) = some (min i rows)

abbrev table : TableOps (Option ℕ)
table = record { default_table = none; select = λ o t. o; selected = λ t. t; render = clamp }

table-render :
    (rows : ℕ) (t : Option ℕ)
    → or_default 0 t < max 1 rows
    → or_default 0 (clamp rows t) < max 1 rows
table-render rows none h = h
table-render zero (some i) h = ground arith
table-render (suc rows) (some i) h = ground arith

table-Laws : TableLaws table
table-Laws = record { selected-select = λ o t. refl; selected-render = table-render }

abbrev episodes : Episodes ℕ
episodes = record {
  turns = new_turn (text "a") 0 ∷ new_turn (text "b") 5 ∷ [];
  tools = [];
  hooks = [];
  skills = [];
  mode_segments = [];
  aborts = [];
  warnings = [];
  model_metrics = none;
  loaded_mcp_tools = [];
}

abbrev meta : SessionMeta
meta = record {
  id = text "s";
  agent = copilot;
  producer = none;
  agent_version = none;
  started_at = 0;
  cwd = none;
  repository = none;
  branch = none;
  is_live = false;
}

abbrev app : AppState ℕ (Option ℕ)
app = new_app table (analyze episodes meta []) episodes none

abbrev letter : ℕ → KeyEvent
letter c = record { code = KeyCode.char c; control = false; shift = false }

-- Down, open the turn, close it, go to the servers and down.
abbrev presses : List (Option CtEvent)
presses =
    pressed (letter b'j')
    ∷ pressed (record { code = KeyCode.enter; control = false; shift = false })
    ∷ none
    ∷ pressed (letter b'5')
    ∷ pressed (letter b'j')
    ∷ []

run-IsSound_example : IsSound table (run table presses app).0
run-IsSound_example = run-IsSound table table-Laws (analyze episodes meta []) episodes none presses

abbrev ctrl_c : KeyEvent
ctrl_c = record { code = KeyCode.char b'c'; control = true; shift = false }

dispatch-quit_example :
    ((is_quit (dispatch table (Event.key ctrl_c) app).1 ≡ true) ↔ Quits (Event.key ctrl_c) app)
    × ((dispatch table (Event.key ctrl_c) app ≡ (app, Action.quit)) ↔ Quits (Event.key ctrl_c) app)
dispatch-quit_example = dispatch-quit table (Event.key ctrl_c) app

run_ends_example :
    is_quit
      (run table
        (pressed (letter b'q') ∷ pressed (letter b'q') ∷ presses)
        (record app { help_open = true })).1
    ≡ true
run_ends_example = run_ends table (letter b'q') presses (record app { help_open = true }) refl

dispatch-dispatch_cycle_example :
    (dispatch table (code_key KeyCode.back_tab) (dispatch table (code_key KeyCode.tab) app).0).0
    ≡ app
dispatch-dispatch_cycle_example = dispatch-dispatch_cycle table app refl refl

app-IsSound : IsSound table app
unfolding run
app-IsSound = run-IsSound table table-Laws (analyze episodes meta []) episodes none []

dispatch-enter_example :
    (turn : Turn) × (get_elem? episodes.turns 0 ≡ some turn)
    × ((dispatch table (code_key KeyCode.enter) app).0.detail_view ≡ some (new_detail turn.id))
dispatch-enter_example =
    dispatch-enter table app meta [] app-IsSound refl refl refl refl (omega arith)
