-- ===== src/Tui/Detail.antt =====
-- crates/agentprof-tui/src/views/turn_detail.rs and views/mcp_waste.rs: the states of the two views
-- that keep one. `viewport_top` of the detail view is left out, it is always zero.
use agentprof.Base.{
  ℕ, ◌+◌, ◌-◌, Bool, false, ◌&&◌, not, Option, some, [], ◌==◌, ltb, min, if◌then◌else◌,
}
use agentprof.Order.{Text, nat_ord}
use agentprof.Map.{BTreeSet, contains_key, insert_elem, remove, or_default}

pub record TurnDetailState : Type 0 where
  pub turn_id : Text
  pub selected_tool_idx : ℕ
  pub expanded_tools : BTreeSet ℕ
  pub pending_gg : Bool

abbrev pub new_detail : Text → TurnDetailState
new_detail turn_id = record {
  turn_id = turn_id;
  selected_tool_idx = 0;
  expanded_tools = [];
  pending_gg = false;
}

abbrev pub move_up : TurnDetailState → TurnDetailState
move_up d = record d { selected_tool_idx = d.selected_tool_idx - 1; pending_gg = false }

abbrev pub move_down : ℕ → TurnDetailState → TurnDetailState
move_down max d = record d {
  selected_tool_idx =
      if ltb 0 max && ltb (d.selected_tool_idx + 1) max
      then d.selected_tool_idx + 1
      else d.selected_tool_idx;
  pending_gg = false;
}

abbrev pub jump_first : TurnDetailState → TurnDetailState
jump_first d = record d { selected_tool_idx = 0; pending_gg = false }

abbrev pub jump_last : ℕ → TurnDetailState → TurnDetailState
jump_last max d = record d { selected_tool_idx = max - 1; pending_gg = false }

-- `insert` of a set says whether the element is new.
abbrev pub toggle_expand : TurnDetailState → TurnDetailState
toggle_expand d = record d {
  expanded_tools =
      if contains_key d.selected_tool_idx d.expanded_tools
      then remove d.selected_tool_idx d.expanded_tools
      else insert_elem d.selected_tool_idx d.expanded_tools;
  pending_gg = false;
}

-- `ratatui::widgets::TableState`, a library type: its initial value, its selection, and what the
-- drawing of a table with so many rows leaves of it.
pub record TableOps (T : Type 0) : Type 0 where
  pub default_table : T
  pub select : Option ℕ → T → T
  pub selected : T → Option ℕ
  pub render : ℕ → T → T

pub record McpWasteState (T : Type 0) : Type 0 where
  pub server_cursor : T
  pub unused_only : Bool

module _ {T : Type 0} (table : TableOps T) where
  abbrev pub new_mcp_waste : McpWasteState T
  new_mcp_waste = record {
    server_cursor = table.select (some 0) table.default_table;
    unused_only = false;
  }

  abbrev pub toggle_unused_only : McpWasteState T → McpWasteState T
  toggle_unused_only m = record m { unused_only = not m.unused_only }

  abbrev pub cursor_down : ℕ → McpWasteState T → McpWasteState T
  cursor_down server_count m = if server_count == 0 then m else record m {
    server_cursor =
        table.select
          (some (min (or_default 0 (table.selected m.server_cursor) + 1) (server_count - 1)))
          m.server_cursor;
  }

  abbrev pub cursor_up : McpWasteState T → McpWasteState T
  cursor_up m = record m {
    server_cursor =
        table.select (some (or_default 0 (table.selected m.server_cursor) - 1)) m.server_cursor;
  }
