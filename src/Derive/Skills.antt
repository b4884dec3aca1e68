-- ===== src/Derive/Skills.antt =====
-- derive.rs: skills, and the windows in which tool calls count as triggered by a skill.
use agentprof.Base.{
  ℕ, ◌-◌, Option, none, some, List, [], ◌∷◌, ◌++◌, ltb, if◌then◌else◌, length, modify_at,
}
use agentprof.Base.Words.{u32_max, saturating_add}
use agentprof.Order.{Text, text_ord}
use agentprof.Map.{BTreeMap, get, upsert, adjust, or_default}
use agentprof.Event.{Event, EventKind}
use agentprof.Episode.{
  CallRef, Turn, SkillEpisode, new_skill_episode, SkillInvocation, new_skill_invocation,
}
use agentprof.Derive.State.{DeriveState, OpenSkill, resolve_payload_name}

abbrev pub skill_trigger_window : ℕ
skill_trigger_window = 50

-- One more call for the invocation of an open window, and for its skill.
abbrev pub note_tool : CallRef → ℕ → SkillEpisode → SkillEpisode
note_tool tool_ref idx ep = record ep {
  invocations =
      modify_at idx (λ inv. record inv { triggered_tools = inv.triggered_tools ++ tool_ref ∷ [] })
        ep.invocations;
  subsequent_tool_calls = saturating_add u32_max ep.subsequent_tool_calls 1;
}

-- `for s in &self.open_skills` in `commit_tool_call`
unfoldable pub attribute_to_skills :
    CallRef → List OpenSkill → BTreeMap Text SkillEpisode → BTreeMap Text SkillEpisode
attribute_to_skills tool_ref [] skills = skills
attribute_to_skills tool_ref (o ∷ os) skills =
    attribute_to_skills tool_ref os (adjust o.name (note_tool tool_ref o.invocation_idx) skills)

-- `push` on the list of references of the turn at an index
abbrev pub push_skill_ref : Option ℕ → CallRef → List Turn → List Turn
push_skill_ref none skill_ref turns = turns
push_skill_ref (some idx) skill_ref turns =
    modify_at idx (λ turn. record turn { skill_calls = turn.skill_calls ++ skill_ref ∷ [] }) turns

abbrev pub add_invocation : SkillInvocation → SkillEpisode → SkillEpisode
add_invocation inv ep = record ep { invocations = ep.invocations ++ inv ∷ [] }

-- One step of the windows: each loses one event, and is dropped when none is left.
unfoldable pub shrink_windows : List OpenSkill → List OpenSkill
shrink_windows [] = []
shrink_windows (o ∷ os) =
    let kept = shrink_windows os in
    let left = o.window_remaining - 1 in
    if ltb 0 left then record o { window_remaining = left } ∷ kept else kept

module _ {J : Type 0} where
  unfoldable pub invoke : Event J → DeriveState J → Text → DeriveState J
  invoke ev s name =
      let fresh = new_skill_episode name in
      let new_idx = length (or_default fresh (get name s.skills)).invocations in
      record s {
        skills = upsert name fresh (add_invocation (new_skill_invocation ev.timestamp)) s.skills;
        turns = push_skill_ref s.open_turn_idx (record { name = name; index = new_idx }) s.turns;
        open_skills =
            s.open_skills
            ++ record {
              name = name;
              invocation_idx = new_idx;
              window_remaining = skill_trigger_window;
            }
              ∷ [];
      }

  unfoldable pub on_skill_invoked : Event J → DeriveState J → DeriveState J
  unfolding invoke resolve_payload_name
  on_skill_invoked ev s =
      let (s', name) = resolve_payload_name ev EventKind.skill_invoked s in invoke ev s' name

  unfoldable pub bump_skill_windows : DeriveState J → DeriveState J
  bump_skill_windows s = record s { open_skills = shrink_windows s.open_skills }
