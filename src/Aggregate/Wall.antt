-- ===== src/Aggregate/Wall.antt =====
-- `wall::compute_wall` of analyzer/aggregate/mod.rs: how long a session lasted.
use agentprof.Base.{Option, none, some, List, [], ◌∷◌, ltb, if◌then◌else◌}
use agentprof.Base.Int.{ℤ, pos, sub_ℕ, leb_ℤ}
use agentprof.Map.{BTreeMap}
use agentprof.Event.{Instant}
use agentprof.Episode.{Episodes}

-- `if end > latest { latest = end; }`
abbrev pub later : Instant → Instant → Instant
later latest end = if ltb latest end then end else latest

abbrev pub later_if : Option Instant → Instant → Instant
later_if none latest = latest
later_if (some end) latest = later latest end

-- The loop over the ends of some elements, which may have none.
unfoldable pub latest_of : {A : Type 0} → (A → Option Instant) → Instant → List A → Instant
latest_of at latest [] = latest
latest_of at latest (x ∷ xs) = latest_of at (later_if (at x) latest) xs

-- The loop over the ends of the elements of each value of a map.
unfoldable pub latest_of_all :
    {A K V : Type 0} → (V → List A) → (A → Option Instant) → Instant → BTreeMap K V → Instant
latest_of_all elems at latest [] = latest
latest_of_all elems at latest ((k, v) ∷ m) =
    latest_of_all elems at (latest_of at latest (elems v)) m

module _ {J : Type 0} where
  -- The five loops.
  unfoldable pub latest_end : Episodes J → Instant → Instant
  latest_end e session_start =
      let turns = latest_of (λ turn. turn.ended_at) session_start e.turns in
      let tools = latest_of_all (λ ep. ep.calls) (λ call. some call.span.ended_at) turns e.tools in
      let hooks = latest_of_all (λ ep. ep.calls) (λ call. some call.span.ended_at) tools e.hooks in
      let skills = latest_of_all (λ ep. ep.invocations) (λ inv. some inv.at) hooks e.skills in
      latest_of (λ seg. seg.ended_at) skills e.mode_segments

  unfoldable pub compute_wall : Episodes J → Instant → ℤ
  unfolding latest_end
  compute_wall e session_start =
      let d = sub_ℕ (latest_end e session_start) session_start in
      if leb_ℤ (pos 0) d then d else pos 0
