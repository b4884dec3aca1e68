-- ===== src/Analyzer/Pending.antt =====
-- analyzer/pending.rs: the calls that wait for too long.
use Prim.Native.Nat.{Ordering}
use agentprof.Base.{◌*◌, ◌^◌, Bool, true, false, Option, List, [], ◌∷◌, ◌++◌, if◌then◌else◌, leb}
use agentprof.Base.Int.{ℤ, pos, sub_ℕ, leb_ℤ}
use agentprof.Base.Sort.{sort_by}
use agentprof.Order.{Text, text_cmp}
use agentprof.Map.{BTreeMap}
use agentprof.Event.{Instant}
use agentprof.Episode.{ToolCall, ToolCallStatus, open_at_end_of_session, ToolEpisode, Episodes}
use agentprof.Analyzer.Rank.{is_user_blocking_tool}

-- Thirty seconds, in nanoseconds.
abbrev pub ask_user_threshold : ℤ
ask_user_threshold = pos (30 * 10 ^ 9)

-- Five minutes.
abbrev pub default_threshold : ℤ
default_threshold = pos (300 * 10 ^ 9)

unfoldable pub threshold_for : Text → ℤ
threshold_for tool_name =
    if is_user_blocking_tool tool_name then ask_user_threshold else default_threshold

abbrev pub is_open : ToolCallStatus → Bool
is_open open_at_end_of_session = true
is_open _ = false

pub record PendingCall : Type 0 where
  pub tool_name : Text
  pub turn_id : Option Text
  pub started_at : Instant
  pub elapsed : ℤ
  pub is_user_blocking : Bool

-- Within one class of tools: by name, then the oldest first.
unfoldable pub by_name : Ordering → PendingCall → PendingCall → Bool
by_name Ordering.lt a b = true
by_name Ordering.gt a b = false
by_name Ordering.eq a b = leb a.started_at b.started_at

unfoldable pub by_blocking : Bool → Bool → PendingCall → PendingCall → Bool
by_blocking true false a b = true
by_blocking false true a b = false
by_blocking true true a b = by_name (text_cmp a.tool_name b.tool_name) a b
by_blocking false false a b = by_name (text_cmp a.tool_name b.tool_name) a b

-- User-blocking tools first.
unfoldable pub pending_le : PendingCall → PendingCall → Bool
unfolding by_name by_blocking
pending_le a b = by_blocking a.is_user_blocking b.is_user_blocking a b

module _ {J : Type 0} where
  unfoldable pub is_pending : ToolCall J → Text → Instant → Bool
  is_pending call tool_name now =
      if is_open call.status
      then leb_ℤ (threshold_for tool_name) (sub_ℕ now call.span.started_at)
      else false

  unfoldable pub pending_of_calls : Text → Instant → List (ToolCall J) → List PendingCall
  pending_of_calls tool_name now [] = []
  pending_of_calls tool_name now (call ∷ calls) =
      let rest = pending_of_calls tool_name now calls in
      if is_pending call tool_name now
      then record {
        tool_name = tool_name;
        turn_id = call.turn_id;
        started_at = call.span.started_at;
        elapsed = sub_ℕ now call.span.started_at;
        is_user_blocking = is_user_blocking_tool tool_name;
      }
        ∷ rest
      else rest

  -- The scan of all tools, before the sort.
  unfoldable pub pending_of_tools : Instant → BTreeMap Text (ToolEpisode J) → List PendingCall
  pending_of_tools now [] = []
  pending_of_tools now ((tool_name, ep) ∷ tools) =
      pending_of_calls tool_name now ep.calls ++ pending_of_tools now tools

  unfoldable pub pending_calls : Episodes J → Instant → List PendingCall
  pending_calls e now = sort_by pending_le (pending_of_tools now e.tools)
