-- ===== src/Tui/Keys.antt =====
-- crates/agentprof-tui/src/app/event.rs and views/mod.rs: what the terminal sends, and the views.
-- Of a key of crossterm it has the codes and modifiers that the interface tells apart.
use agentprof.Base.{ℕ, Bool, false, ◌&&◌, Option, none, some}
use agentprof.Order.{eqb, nat_ord}

pub data KeyCode : Type 0 where
  char : ℕ → KeyCode
  enter esc up down tab back_tab : KeyCode
  other_key : ℕ → KeyCode

pub record KeyEvent : Type 0 where
  pub code : KeyCode
  pub control : Bool
  pub shift : Bool

pub data Event : Type 0 where
  key : KeyEvent → Event
  resize : ℕ → ℕ → Event
  tick refresh : Event

-- What kind of press the terminal reports, and its other events.
pub data KeyEventKind : Type 0 where
  press repeat release : KeyEventKind

pub data CtEvent : Type 0 where
  key : KeyEvent → KeyEventKind → CtEvent
  resize : ℕ → ℕ → CtEvent
  mouse focus_gained focus_lost paste : CtEvent

abbrev pub from_crossterm : CtEvent → Option Event
from_crossterm (CtEvent.key k press) = some (Event.key k)
from_crossterm (CtEvent.key k _) = none
from_crossterm (CtEvent.resize c r) = some (Event.resize c r)
from_crossterm _ = none

-- `matches!(code, KeyCode::Char(c))`
abbrev pub is_char : ℕ → KeyCode → Bool
is_char c (char d) = eqb c d
is_char c _ = false

abbrev pub is_ctrl_c : Event → Bool
is_ctrl_c (Event.key k) = is_char b'c' k.code && k.control
is_ctrl_c _ = false

pub data View : Type 0 where
  flamegraph roi aggregate models mcp_waste : View

abbrev pub next : View → View
next flamegraph = roi
next roi = aggregate
next aggregate = models
next models = mcp_waste
next mcp_waste = flamegraph

abbrev pub prev : View → View
prev flamegraph = mcp_waste
prev roi = flamegraph
prev aggregate = roi
prev models = aggregate
prev mcp_waste = models
