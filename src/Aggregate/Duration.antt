-- ===== src/Aggregate/Duration.antt =====
-- The wall duration of a session is the least that covers all of its ends.
use agentprof.Base.{
  if◌then◌else◌, ℕ, ◌+◌, ◌-◌, subst, sym, ◌≤◌, ◌≡◌, ◌↔◌, Option, none, some, List, [], ◌∷◌, arith,
  All,
}
use agentprof.Base.Int.{leb_ℤ, ℤ, pos, sub_ℕ, ◌≤ℤ◌}
use agentprof.Map.{BTreeMap, AllEntries}
use agentprof.Event.{Instant}
use agentprof.Episode.{Episodes}
use agentprof.Aggregate.Wall.{later_if, latest_of, latest_of_all, latest_end, compute_wall}

-- No end, or one that is not behind an instant.
abbrev pub Until : Instant → Option Instant → Type 0
Until b none = Unit
Until b (some end) = end ≤ b

later_if_le : (o : Option Instant) (i b : Instant) → (later_if o i ≤ b) ↔ ((i ≤ b) × Until b o)
later_if_le none i b = (λ h. (h, tt), λ h. h.0)
later_if_le (some end) i b = ground arith

module _ {A : Type 0} (at : A → Option Instant) where
  latest_of_le :
      (xs : List A) (i b : Instant)
      → (latest_of at i xs ≤ b) ↔ ((i ≤ b) × All (λ x. Until b (at x)) xs)
  unfolding latest_of
  latest_of_le [] i b = (λ h. (h, tt), λ h. h.0)
  latest_of_le (x ∷ xs) i b =
      let first = later_if_le (at x) i b in
      let rest = latest_of_le xs (later_if (at x) i) b in
      (
        λ h. (let (le, all) = rest.0 h in ((first.0 le).0, ((first.0 le).1, all))),
        λ h. rest.1 (first.1 (h.0, h.1.0), h.1.1),
      )

  latest_of_all_le :
      {K V : Type 0} (elems : V → List A) (m : BTreeMap K V) (i b : Instant)
      → (latest_of_all elems at i m ≤ b)
        ↔ ((i ≤ b) × AllEntries (λ k v. All (λ x. Until b (at x)) (elems v)) m)
  unfolding latest_of_all
  latest_of_all_le elems [] i b = (λ h. (h, tt), λ h. h.0)
  latest_of_all_le elems ((k, v) ∷ m) i b =
      let first = latest_of_le (elems v) i b in
      let rest = latest_of_all_le elems m (latest_of at i (elems v)) b in
      (
        λ h. (let (le, all) = rest.0 h in ((first.0 le).0, ((first.0 le).1, all))),
        λ h. rest.1 (first.1 (h.0, h.1.0), h.1.1),
      )

clamped_sub :
    (a b : ℕ) → b ≤ a → (if leb_ℤ (pos 0) (sub_ℕ a b) then sub_ℕ a b else pos 0) ≡ pos (a - b)
unfolding sub_ℕ
clamped_sub a b h = ground arith

sub_le : (a b c : ℕ) → c ≤ a → a ≤ b → pos (a - c) ≤ℤ sub_ℕ b c
unfolding sub_ℕ
sub_le a b c h k = ground arith

module _ {J : Type 0} where
  -- Every end of the episodes is at most an instant.
  pub record EndsBy (e : Episodes J) (b : Instant) : Type 0 where
    pub turns : All (λ turn. Until b turn.ended_at) e.turns
    pub tools : AllEntries (λ name ep. All (λ c. c.span.ended_at ≤ b) ep.calls) e.tools
    pub hooks : AllEntries (λ name ep. All (λ c. c.span.ended_at ≤ b) ep.calls) e.hooks
    pub skills : AllEntries (λ name ep. All (λ inv. inv.at ≤ b) ep.invocations) e.skills
    pub segments : All (λ seg. Until b seg.ended_at) e.mode_segments

  latest_end_le :
      (e : Episodes J) (start b : Instant) → (latest_end e start ≤ b) ↔ ((start ≤ b) × EndsBy e b)
  unfolding latest_end
  latest_end_le e start b =
      let turns = latest_of_le (λ turn. turn.ended_at) e.turns start b in
      let tools = latest_of_all_le (λ c. some c.span.ended_at) (λ ep. ep.calls) e.tools _ b in
      let hooks = latest_of_all_le (λ c. some c.span.ended_at) (λ ep. ep.calls) e.hooks _ b in
      let skills = latest_of_all_le (λ i. some i.at) (λ ep. ep.invocations) e.skills _ b in
      let segments = latest_of_le (λ seg. seg.ended_at) e.mode_segments _ b in
      (
        λ h.
            let (h₁, on_segments) = segments.0 h in
            let (h₂, on_skills) = skills.0 h₁ in
            let (h₃, on_hooks) = hooks.0 h₂ in
            let (h₄, on_tools) = tools.0 h₃ in
            let (le, on_turns) = turns.0 h₄ in
            (
              le,
              record {
                turns = on_turns;
                tools = on_tools;
                hooks = on_hooks;
                skills = on_skills;
                segments = on_segments;
              },
            ),
        λ (le, ends). segments.1 (
          skills.1
              (hooks.1 (tools.1 (turns.1 (le, ends.turns), ends.tools), ends.hooks), ends.skills),
          ends.segments,
        ),
      )

  -- A duration that covers a session from its start, and that no cover undercuts.
  pub record IsWall (e : Episodes J) (start : Instant) (d : ℤ) : Type 0 where
    pub covers : (w : ℕ) × (d ≡ pos w) × EndsBy e (start + w)
    pub least : (b : Instant) → start ≤ b → EndsBy e b → d ≤ℤ sub_ℕ b start

  -- The wall duration is not negative, all ends of turns, calls and mode segments and all skill
  -- invocations lie within it behind the start, and it is the least such duration.
  pub compute_wall-IsWall :
      (e : Episodes J) (start : Instant) → IsWall e start (compute_wall e start)
  unfolding compute_wall
  compute_wall-IsWall e start =
      let l = latest_end e start in
      let bound = (latest_end_le e start l).0 (omega arith) in
      let start_le : start ≤ l = bound.0 in
      let wall : ℤ = compute_wall e start in
      let shifted : start + (l - start) ≡ l = omega arith in
      let value : wall ≡ pos (l - start) = clamped_sub l start start_le in
      record {
        covers = (l - start, value, subst (EndsBy e) (sym shifted) bound.1);
        least = λ b le ends.
            let before : l ≤ b = (latest_end_le e start b).1 (le, ends) in
            subst (λ d. d ≤ℤ sub_ℕ b start) (sym value) (sub_le l b start start_le before);
      }
