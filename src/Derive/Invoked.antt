-- ===== src/Derive/Invoked.antt =====
-- What the event of an invoked skill leaves behind.
use agentprof.Base.{
  ℕ, ◌≡◌, Option, none, some, List, [], ◌∷◌, ◌++◌, arith, refl, ap, length, sym, ◌∙◌, subst,
}
use agentprof.Order.{Text, text_ord}
use agentprof.Map.{or_default}
use agentprof.Episode.{new_skill_invocation}
use agentprof.Event.{Event, EventKind, Instant}
use agentprof.Derive.{
  name_or_id, resolve_payload_name, invoke, DeriveState, OpenSkill, shrink_windows, step, dispatch,
  observe_timestamp, accumulate_loaded_mcp_tools, bump_skill_windows, on_skill_invoked,
}
use agentprof.Derive.Named.{invocations_of, invocations_of-upsert, added_own}
use agentprof.Derive.Windows.{shrink-append}

module _ {J : Type 0} where
  -- A skill is invoked once more: its new invocation is the last one under its name, and behind
  -- the older windows stands one that has the index of that invocation and a number of events left.
  pub record IsInvoked (name : Text) (at : Instant) (older : List OpenSkill) (left : ℕ)
      (s s' : DeriveState J) : Type 0 where
    pub invocations :
        invocations_of name s'.skills ≡ invocations_of name s.skills ++ new_skill_invocation at ∷ []
    pub open_skills :
        s'.open_skills
        ≡ older
          ++ record {
            name = name;
            invocation_idx = length (invocations_of name s.skills);
            window_remaining = left;
          }
            ∷ []

  invoke-IsInvoked :
      (name : Text) (ev : Event J) (s : DeriveState J)
      → IsInvoked name ev.timestamp s.open_skills 50 s (invoke ev s name)
  unfolding invoke
  invoke-IsInvoked name ev s =
      let inv = new_skill_invocation ev.timestamp in
      record {
        invocations =
            invocations_of-upsert name name inv s.skills
            ∙ added_own name inv (invocations_of name s.skills);
        open_skills = ground arith;
      }

  name_or_id-IsInvoked :
      (name : Option Text) (ev : Event J) (s : DeriveState J)
      → let (s', resolved) = name_or_id name ev EventKind.skill_invoked s in
        IsInvoked (or_default ev.id name) ev.timestamp s.open_skills 50 s (invoke ev s' resolved)
  unfolding name_or_id
  name_or_id-IsInvoked none ev s =
      let h = invoke-IsInvoked ev.id ev (name_or_id none ev EventKind.skill_invoked s).0 in
      record { invocations = h.invocations; open_skills = h.open_skills }
  name_or_id-IsInvoked (some name) ev s = invoke-IsInvoked name ev s

  observed-same :
      (ev : Event J) (s : DeriveState J)
      → let s₁ = accumulate_loaded_mcp_tools ev (observe_timestamp ev s) in
        (s₁.open_skills ≡ s.open_skills) × (s₁.skills ≡ s.skills)
  unfolding accumulate_loaded_mcp_tools observe_timestamp
  observed-same ev s = ground arith

  moved-IsInvoked :
      (name : Text) (at : Instant) (older older' : List OpenSkill) (left : ℕ)
      (s s₁ s' : DeriveState J)
      → older ≡ older'
      → s₁.skills ≡ s.skills
      → IsInvoked name at older left s₁ s'
      → IsInvoked name at older' left s s'
  moved-IsInvoked name at older older' left s s₁ s' e same h = record {
    invocations =
        h.invocations ∙ ap (λ m. invocations_of name m ++ new_skill_invocation at ∷ []) same;
    open_skills = h.open_skills ∙ rw (e, same) refl;
  }

  -- The windows shrink.
  bump-IsInvoked :
      (name : Text) (at : Instant) (s s' : DeriveState J)
      → IsInvoked name at s.open_skills 50 s s'
      → IsInvoked name at (shrink_windows s.open_skills) 49 s (bump_skill_windows s')
  unfolding bump_skill_windows shrink_windows
  bump-IsInvoked name at s s' h = record {
    invocations = h.invocations;
    open_skills = ap shrink_windows h.open_skills ∙ shrink-append s.open_skills _ ∙ ground arith;
  }

  -- Right behind the event of an invoked skill, the new invocation is the last one of the skill that
  -- the payload names, or else the event's id. Its window stands behind the older ones, which have
  -- lost one event each: it has the name of the skill, the index of the invocation, and 49 events
  -- left, as its own event uses up one of the 50.
  pub invoke-window :
      (ev : Event J) (s : DeriveState J)
      → ev.kind ≡ EventKind.skill_invoked
      → IsInvoked
          (or_default ev.id ev.payload_name)
          ev.timestamp
          (shrink_windows s.open_skills)
          49
          s
          (step s ev)
  unfolding step dispatch on_skill_invoked resolve_payload_name
  invoke-window ev s e =
      let s₁ = accumulate_loaded_mcp_tools ev (observe_timestamp ev s) in
      let name = or_default ev.id ev.payload_name in
      let same = observed-same ev s in
      subst
        (λ k.
          IsInvoked name ev.timestamp (shrink_windows s.open_skills) 49 s
            (bump_skill_windows (dispatch k ev s₁)))
        (sym e)
        (moved-IsInvoked name ev.timestamp (shrink_windows s₁.open_skills)
          (shrink_windows s.open_skills) 49 s s₁ _ (ap shrink_windows same.0) same.1
          (bump-IsInvoked name ev.timestamp s₁ _ (name_or_id-IsInvoked ev.payload_name ev s₁)))
