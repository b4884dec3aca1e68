-- ===== src/Tui/State.antt =====
-- crates/agentprof-tui/src/app/state.rs: the state of the interface and the moves in a view. The
-- code's `scroll` is reserved, and the offsets of the viewports belong to the drawing.
use agentprof.Base.{
  ℕ, ◌+◌, ◌-◌, Bool, true, false, Option, none, some, List, [], ◌∷◌, length, ltb, if◌then◌else◌,
}
use agentprof.Order.{Text, text_ord, eqb}
use agentprof.Map.{BTreeMap}
use agentprof.Event.{ModelUsage}
use agentprof.Episode.{Episodes, Turn}
use agentprof.Analyzer.{AnalysisReport}
use agentprof.Waste.Report.{WasteReport}
use agentprof.Tui.Keys.{View, flamegraph, roi, models}
use agentprof.Tui.Detail.{TurnDetailState, McpWasteState, TableOps, new_mcp_waste}

pub data SortKey : Type 0 where
  total_dur calls success_rate p50 : SortKey

pub data Action : Type 0 where
  no_action quit : Action

abbrev pub is_quit : Action → Bool
is_quit quit = true
is_quit no_action = false

pub record AppState (J T : Type 0) : Type 0 where
  pub view : View
  pub roi_sort : SortKey
  pub roi_selected : ℕ
  pub flame_selected : ℕ
  pub help_open : Bool
  pub pending_gg : Bool
  pub detail_view : Option TurnDetailState
  pub models_selected : ℕ
  pub report : AnalysisReport
  pub episodes : Episodes J
  pub waste_report : Option WasteReport
  pub mcp_waste_state : McpWasteState T

-- `AppRunner::new` and `new_with_waste`
abbrev pub new_app :
    {J T : Type 0} → TableOps T → AnalysisReport → Episodes J → Option WasteReport → AppState J T
new_app table report episodes waste_report = record {
  view = flamegraph;
  roi_sort = total_dur;
  roi_selected = 0;
  flame_selected = 0;
  help_open = false;
  pending_gg = false;
  detail_view = none;
  models_selected = 0;
  report = report;
  episodes = episodes;
  waste_report = waste_report;
  mcp_waste_state = new_mcp_waste table;
}

abbrev pub metrics_len : Option (BTreeMap Text ModelUsage) → ℕ
metrics_len none = 0
metrics_len (some m) = length m

abbrev pub waste_len : Option WasteReport → ℕ
waste_len none = 0
waste_len (some w) = length w.server_waste

-- The tool calls of the first turn with an id, or zero.
unfoldable pub detail_count : Text → List Turn → ℕ
detail_count id [] = 0
detail_count id (t ∷ turns) = if eqb t.id id then length t.tool_calls else detail_count id turns

module _ {J T : Type 0} where
  abbrev pub model_count : AppState J T → ℕ
  model_count s = metrics_len s.report.model_metrics

  abbrev pub server_count : AppState J T → ℕ
  server_count s = waste_len s.waste_report

  -- The moves in the active view, which is the first argument.
  unfoldable pub scroll_up : View → AppState J T → AppState J T
  scroll_up roi s = record s { roi_selected = s.roi_selected - 1 }
  scroll_up flamegraph s = record s { flame_selected = s.flame_selected - 1 }
  scroll_up _ s = s

  unfoldable pub scroll_down : View → AppState J T → AppState J T
  scroll_down roi s =
      if ltb s.roi_selected (length s.report.tool_rank - 1)
      then record s { roi_selected = s.roi_selected + 1 }
      else s
  scroll_down flamegraph s =
      if ltb s.flame_selected (length s.report.turn_summary - 1)
      then record s { flame_selected = s.flame_selected + 1 }
      else s
  scroll_down _ s = s

  unfoldable pub scroll_to_top : View → AppState J T → AppState J T
  scroll_to_top roi s = record s { roi_selected = 0 }
  scroll_to_top flamegraph s = record s { flame_selected = 0 }
  scroll_to_top models s = record s { models_selected = 0 }
  scroll_to_top _ s = s

  unfoldable pub scroll_to_bottom : View → AppState J T → AppState J T
  scroll_to_bottom roi s = record s { roi_selected = length s.report.tool_rank - 1 }
  scroll_to_bottom flamegraph s = record s { flame_selected = length s.report.turn_summary - 1 }
  scroll_to_bottom models s = record s { models_selected = model_count s - 1 }
  scroll_to_bottom _ s = s
