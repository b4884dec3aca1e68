-- ===== src/Derive/State.antt =====
-- derive.rs: `DeriveState` and the helpers of its handlers. The three stacks of open elements are
-- `Vec`s that grow and shrink at their ends: those of tools and of hooks stand here with the end
-- first. `J` is the type of tool arguments.
use agentprof.Base.{ℕ, Bool, Option, none, some, List, [], ◌∷◌, ◌++◌, ltb, if◌then◌else◌, get_elem?}
use agentprof.Order.{Text, text_ord}
use agentprof.Map.{BTreeMap, BTreeSet, insert, contains_key, extend, map_option}
use agentprof.Event.{Event, EventKind, ModelUsage, Instant}
use agentprof.Model.ToolSource.{ToolSource, bind_option}
use agentprof.Episode.{
  Turn, ToolEpisode, HookEpisode, SkillEpisode, Mode, interactive, ModeSegment, new_mode_segment,
  AbortInfo, DeriveWarning, payload_name_missing, non_monotonic_timestamp,
}

pub record OpenToolCall : Type 0 where
  pub name : Text
  pub source : ToolSource
  pub started_at : Instant
  pub turn_id : Option Text
  pub user_requested : Bool
  pub tool_call_id : Option Text

pub record OpenHookCall : Type 0 where
  pub name : Text
  pub started_at : Instant
  pub turn_id : Option Text

pub record OpenSkill : Type 0 where
  pub name : Text
  pub invocation_idx : ℕ
  pub window_remaining : ℕ

pub record DeriveState (J : Type 0) : Type 0 where
  pub last_event_ts : Option Instant
  pub prev_ts : Option Instant
  pub turns : List Turn
  pub open_turn_idx : Option ℕ
  pub open_tool_calls : List OpenToolCall
  pub open_hook_calls : List OpenHookCall
  pub open_skills : List OpenSkill
  pub tools : BTreeMap Text (ToolEpisode J)
  pub hooks : BTreeMap Text HookEpisode
  pub skills : BTreeMap Text SkillEpisode
  pub mode_segments : List ModeSegment
  pub current_mode : Option Mode
  pub aborts : List AbortInfo
  pub warnings : List DeriveWarning
  pub args_by_call_id : BTreeMap Text J
  pub model_metrics : Option (BTreeMap Text ModelUsage)
  pub loaded_mcp_tools : BTreeSet Text
  pub pending_user_requested_tool_call_ids : BTreeSet Text

-- `DeriveState::new`, at the session's start `started_at`.
unfoldable pub new_state : {J : Type 0} → Instant → BTreeMap Text J → DeriveState J
new_state started_at args = record {
  last_event_ts = none;
  prev_ts = none;
  turns = [];
  open_turn_idx = none;
  open_tool_calls = [];
  open_hook_calls = [];
  open_skills = [];
  tools = [];
  hooks = [];
  skills = [];
  mode_segments = new_mode_segment interactive started_at ∷ [];
  current_mode = some interactive;
  aborts = [];
  warnings = [];
  args_by_call_id = args;
  model_metrics = none;
  loaded_mcp_tools = [];
  pending_user_requested_tool_call_ids = [];
}

module _ {J : Type 0} where
  -- `self.warnings.push(w)`
  abbrev pub warn : DeriveWarning → DeriveState J → DeriveState J
  warn w s = record s { warnings = s.warnings ++ w ∷ [] }

  -- The id of the open turn. An index out of bounds would panic; `StateInv` excludes it.
  abbrev pub open_turn_id : DeriveState J → Option Text
  open_turn_id s = bind_option s.open_turn_idx (λ i. map_option (λ t. t.id) (get_elem? s.turns i))

  unfoldable pub warn_if_back : Event J → Option Instant → DeriveState J → DeriveState J
  warn_if_back ev none s = s
  warn_if_back ev (some prev) s =
      if ltb ev.timestamp prev then warn (non_monotonic_timestamp ev.id prev ev.timestamp) s else s

  unfoldable pub observe_timestamp : Event J → DeriveState J → DeriveState J
  unfolding warn_if_back
  observe_timestamp ev s =
      let s' = warn_if_back ev s.prev_ts s in
      record s' { prev_ts = some ev.timestamp; last_event_ts = some ev.timestamp }

  -- The name of the payload; without one, the event's id and a warning.
  unfoldable pub name_or_id :
      Option Text → Event J → EventKind → DeriveState J → DeriveState J × Text
  name_or_id (some name) ev expected_kind s = (s, name)
  name_or_id none ev expected_kind s = (warn (payload_name_missing expected_kind ev.id) s, ev.id)

  unfoldable pub resolve_payload_name : Event J → EventKind → DeriveState J → DeriveState J × Text
  unfolding name_or_id
  resolve_payload_name ev expected_kind s = name_or_id ev.payload_name ev expected_kind s

  unfoldable pub accumulate_loaded_mcp_tools : Event J → DeriveState J → DeriveState J
  accumulate_loaded_mcp_tools ev s = record s {
    loaded_mcp_tools = extend s.loaded_mcp_tools ev.payload_loaded_mcp_tools;
  }

  -- PASS 0: the arguments by the id of their call, the first announcement of an id wins.
  unfoldable pub collect_requests : List (Text × J) → BTreeMap Text J → BTreeMap Text J
  collect_requests [] args = args
  collect_requests ((call_id, value) ∷ requests) args =
      collect_requests requests
        (if contains_key call_id args then args else insert call_id value args)

  unfoldable pub collect_args : List (Event J) → BTreeMap Text J → BTreeMap Text J
  unfolding collect_requests
  collect_args [] args = args
  collect_args (ev ∷ events) args =
      collect_args events (collect_requests ev.payload_tool_requests args)
