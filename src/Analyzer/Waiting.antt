-- ===== src/Analyzer/Waiting.antt =====
-- The pending calls: which calls are listed, and in which order.
use Prim.Native.Nat.{Ordering}
use mathlib.Core.List.{Perm}
use agentprof.Base.{
  ◌≤◌, ◌≡◌, ◌⊎◌, Bool, true, false, List, [], ◌∷◌, ◌++◌, arith, All, if◌then◌else◌, filter,
  filter-append, map, map-append, Bool-cases, inl, inr, refl, subst,
}
use agentprof.Base.Int.{ℤ, pos, leb_ℤ, ◌≤ℤ◌, sub_ℕ}
use agentprof.Base.Sort.{IsSortedBy, IsPreorder, sort_by, sort_by-perm, sort_by-IsSortedBy}
use agentprof.Order.{Text, text, text_ord, text_cmp, eqb}
use agentprof.Map.{BTreeMap}
use agentprof.Event.{Instant}
use agentprof.Episode.{ToolCall, ToolCallStatus, open_at_end_of_session, ToolEpisode, Episodes}
use agentprof.Analyzer.Rank.{is_user_blocking_tool}
use agentprof.Analyzer.Pending.{
  PendingCall, threshold_for, is_pending, pending_of_calls, pending_of_tools, pending_calls,
  pending_le, by_name, by_blocking,
}

pending_le_total : (a b : PendingCall) → (pending_le a b ≡ true) ⊎ (pending_le b a ≡ true)
unfolding pending_le by_blocking by_name
pending_le_total a b = ground (
  arith,
  text_ord.cmp_swap a.tool_name b.tool_name,
  text_ord.cmp_swap b.tool_name a.tool_name,
  text_ord.cmp_eq a.tool_name b.tool_name,
  text_ord.cmp_eq b.tool_name a.tool_name,
)

pending_le_trans :
    (a b c : PendingCall) → pending_le a b ≡ true → pending_le b c ≡ true → pending_le a c ≡ true
unfolding pending_le by_blocking by_name
pending_le_trans a b c h k =
    let x = a.tool_name in
    let y = b.tool_name in
    let z = c.tool_name in
    grind (
      arith,
      text_ord.cmp_eq x y,
      text_ord.cmp_eq y z,
      text_ord.cmp_eq x z,
      text_ord.cmp_trans x y z,
    )

pending_le-IsPreorder : IsPreorder pending_le
pending_le-IsPreorder = record { total = pending_le_total; trans = pending_le_trans }

-- How long a call of a tool may be open, in nanoseconds: thirty seconds to ask the user, else five
-- minutes.
abbrev pub limit : Text → ℤ
limit name = if eqb name (text "ask_user") then pos 30000000000 else pos 300000000000

-- The test of a call's status and age.
abbrev pub overdue : ToolCallStatus → Text → ℤ → Bool
overdue open_at_end_of_session name age = leb_ℤ (limit name) age
overdue _ name age = false

-- What the list tells of an open call.
abbrev pub entry : {J : Type 0} → Instant → Text × ToolCall J → PendingCall
entry now (name, c) = record {
  tool_name = name;
  turn_id = c.turn_id;
  started_at = c.span.started_at;
  elapsed = sub_ℕ now c.span.started_at;
  is_user_blocking = eqb name (text "ask_user");
}

-- A call that is listed was left open, for at least its limit.
abbrev pub IsOverdue : {J : Type 0} → Instant → Text × ToolCall J → Type 0
IsOverdue now (name, c) =
    (c.status ≡ open_at_end_of_session) × (limit name ≤ℤ sub_ℕ now c.span.started_at)

-- One entry goes before another: a user-blocking one before the others, and within one class that
-- of a lesser name, or of the same name and a call that is not younger.
abbrev pub GoesFirst : PendingCall → PendingCall → Type 0
GoesFirst p q =
    ((p.is_user_blocking ≡ true) × (q.is_user_blocking ≡ false))
    ⊎ ((p.is_user_blocking ≡ q.is_user_blocking)
        × ((text_cmp p.tool_name q.tool_name ≡ Ordering.lt)
            ⊎ ((p.tool_name ≡ q.tool_name) × (p.started_at ≤ q.started_at))))

abbrev pub AreInOrder : List PendingCall → Type 0
AreInOrder [] = Unit
AreInOrder (p ∷ ps) = All (GoesFirst p) ps × AreInOrder ps

pending_le-GoesFirst : (p q : PendingCall) → pending_le p q ≡ true → GoesFirst p q
unfolding pending_le by_blocking by_name
pending_le-GoesFirst p q h = grind (arith, h, text_ord.cmp_eq p.tool_name q.tool_name)

All-GoesFirst :
    (p : PendingCall) (qs : List PendingCall)
    → All (λ q. pending_le p q ≡ true) qs
    → All (GoesFirst p) qs
All-GoesFirst p [] h = tt
All-GoesFirst p (q ∷ qs) h = (pending_le-GoesFirst p q h.0, All-GoesFirst p qs h.1)

IsSortedBy-AreInOrder : (ps : List PendingCall) → IsSortedBy pending_le ps → AreInOrder ps
IsSortedBy-AreInOrder [] h = tt
IsSortedBy-AreInOrder (p ∷ ps) h = (All-GoesFirst p ps h.0, IsSortedBy-AreInOrder ps h.1)

module _ {J : Type 0} where
  -- Every call of a session with the name of its tool.
  abbrev pub all_calls : BTreeMap Text (ToolEpisode J) → List (Text × ToolCall J)
  all_calls [] = []
  all_calls ((name, ep) ∷ tools) = map (λ c. (name, c)) ep.calls ++ all_calls tools

  abbrev pub is_overdue : Instant → Text × ToolCall J → Bool
  is_overdue now (name, c) = overdue c.status name (sub_ℕ now c.span.started_at)

  -- The calls that are left open for too long.
  abbrev pub overdue_calls : Instant → BTreeMap Text (ToolEpisode J) → List (Text × ToolCall J)
  overdue_calls now tools = filter (is_overdue now) (all_calls tools)

  is_overdue-IsOverdue :
      (now : Instant) (e : Text × ToolCall J) → is_overdue now e ≡ true → IsOverdue now e
  is_overdue-IsOverdue now (name, c) h = ground (arith, h)

  filter-AreOverdue :
      (now : Instant) (es : List (Text × ToolCall J))
      → All (IsOverdue now) (filter (is_overdue now) es)
  filter-AreOverdue now [] = tt
  filter-AreOverdue now (e ∷ es) = elim (Bool-cases (is_overdue now e)) [
    | inl h ↦ rw (h, All) (is_overdue-IsOverdue now e h, filter-AreOverdue now es)
    | inr h ↦ rw (h, All) (filter-AreOverdue now es)
  ]

  is_pending-is_overdue :
      (c : ToolCall J) (name : Text) (now : Instant)
      → is_pending c name now ≡ is_overdue now (name, c)
  unfolding is_pending threshold_for is_user_blocking_tool
  is_pending-is_overdue c name now = ground arith

  pending_of_calls-overdue :
      (name : Text) (now : Instant) (calls : List (ToolCall J))
      → pending_of_calls name now calls
        ≡ map (entry now) (filter (is_overdue now) (map (λ c. (name, c)) calls))
  unfolding pending_of_calls is_user_blocking_tool
  pending_of_calls-overdue name now [] = refl
  pending_of_calls-overdue name now (c ∷ calls) =
      ground (arith, is_pending-is_overdue c name now, pending_of_calls-overdue name now calls)

  pending_of_tools-overdue :
      (now : Instant) (tools : BTreeMap Text (ToolEpisode J))
      → pending_of_tools now tools ≡ map (entry now) (overdue_calls now tools)
  unfolding pending_of_tools
  pending_of_tools-overdue now [] = refl
  pending_of_tools-overdue now ((name, ep) ∷ tools) =
      rw
        (
          pending_of_calls-overdue name now ep.calls,
          pending_of_tools-overdue now tools,
          filter-append (is_overdue now) (map (λ c. (name, c)) ep.calls) (all_calls tools),
          map-append,
        )
        refl

  -- The list of the pending calls, for any episodes and any time.
  pub record ListsPending (now : Instant) (e : Episodes J) (ps : List PendingCall) : Type 0 where
    pub overdue : All (IsOverdue now) (overdue_calls now e.tools)
    pub listed : Perm ps (map (entry now) (overdue_calls now e.tools))
    pub sorted : AreInOrder ps

  -- The calls that were left open at the end of the session for at least thirty seconds, if they
  -- ask the user, or else five minutes, are listed once each, and no other call is, with how long
  -- it is open. User-blocking tools go first, then the names in order, then the oldest call.
  pub pending_calls-Lists :
      (e : Episodes J) (now : Instant) → ListsPending now e (pending_calls e now)
  unfolding pending_calls
  pending_calls-Lists e now =
      let found = pending_of_tools now e.tools in
      record {
        overdue = filter-AreOverdue now (all_calls e.tools);
        listed =
            subst (λ ps. Perm (sort_by pending_le found) ps) (pending_of_tools-overdue now e.tools)
              (sort_by-perm pending_le found);
        sorted =
            IsSortedBy-AreInOrder (sort_by pending_le found)
              (sort_by-IsSortedBy pending_le pending_le-IsPreorder found);
      }
