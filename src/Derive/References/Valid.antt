-- ===== src/Derive/References/Valid.antt =====
-- Every reference that a derivation stores points to a call that it stores.
use agentprof.Base.{
  ℕ, ◌≤◌, ◌<◌, ◌≡◌, Option, none, some, List, [], ◌∷◌, arith, length, All, All-append, All-map,
  All-modify_at, refl,
}
use agentprof.Order.{Text, text_ord, eqb_iff}
use agentprof.Map.{
  BTreeMap, get, upsert, or_default, AllEntries, AllEntries-upsert, AllEntries-adjust,
  AllEntries-map,
}
use agentprof.Event.{Event}
use agentprof.Episode.{
  CallRef, Turn, ToolCall, ToolEpisode, new_tool_episode, HookCall, HookEpisode, new_hook_episode,
  SkillEpisode, new_skill_episode, new_skill_invocation,
}
use agentprof.Model.ToolSource.{ToolSource}
use agentprof.Derive.{
  DeriveState, OpenSkill, add_tool_call, add_hook_call, add_invocation, note_tool,
  attribute_to_skills, push_at, push_tool_ref, push_hook_ref, push_skill_ref, commit_tool_call,
  commit_hook_call, invoke,
}
use agentprof.Derive.References.Grow.{
  tools_of, hooks_of, invocations_of, AreBelow, AreBelow-mono, tools_of-upsert, hooks_of-upsert,
  invocations_of-upsert, invocations_of-attribute, grow_at,
}

-- The references of a turn, against the numbers of calls by name.
pub record TurnRefs (tools hooks skills : Text → ℕ) (t : Turn) : Type 0 where
  pub to_tools : AreBelow tools t.tool_calls
  pub to_hooks : AreBelow hooks t.hook_calls
  pub to_skills : AreBelow skills t.skill_calls

-- The calls that a skill is said to have triggered.
abbrev pub SkillRefs : (Text → ℕ) → Text → SkillEpisode → Type 0
SkillRefs tools name ep = All (λ inv. AreBelow tools inv.triggered_tools) ep.invocations

TurnRefs-mono :
    (f g h f' g' h' : Text → ℕ) (turns : List Turn)
    → ((k : Text) → f k ≤ f' k)
    → ((k : Text) → g k ≤ g' k)
    → ((k : Text) → h k ≤ h' k)
    → All (TurnRefs f g h) turns
    → All (TurnRefs f' g' h') turns
TurnRefs-mono f g h f' g' h' turns p q r = All-map (TurnRefs f g h) (TurnRefs f' g' h') turns λ t v.
    record {
      to_tools = AreBelow-mono f f' t.tool_calls p v.to_tools;
      to_hooks = AreBelow-mono g g' t.hook_calls q v.to_hooks;
      to_skills = AreBelow-mono h h' t.skill_calls r v.to_skills;
    }

module _ (f g h : Text → ℕ) where
  push_at-TurnRefs :
      (i : Option ℕ) (change : Turn → Turn) (turns : List Turn)
      → ((t : Turn) → TurnRefs f g h t → TurnRefs f g h (change t))
      → All (TurnRefs f g h) turns
      → All (TurnRefs f g h) (push_at i change turns)
  push_at-TurnRefs none change turns keep v = v
  push_at-TurnRefs (some i) change turns keep v =
      All-modify_at (TurnRefs f g h) i change turns keep v

  push_tool_ref-TurnRefs :
      (id : Option Text) (r : CallRef) (turns : List Turn)
      → r.index < f r.name
      → All (TurnRefs f g h) turns
      → All (TurnRefs f g h) (push_tool_ref id r turns)
  push_tool_ref-TurnRefs none r turns b v = v
  push_tool_ref-TurnRefs (some id) r turns b v =
      push_at-TurnRefs _ _ turns
        (λ t w. record {
          to_tools = All-append _ t.tool_calls (r ∷ []) w.to_tools (b, tt);
          to_hooks = w.to_hooks;
          to_skills = w.to_skills;
        })
        v

  push_hook_ref-TurnRefs :
      (id : Option Text) (r : CallRef) (turns : List Turn)
      → r.index < g r.name
      → All (TurnRefs f g h) turns
      → All (TurnRefs f g h) (push_hook_ref id r turns)
  push_hook_ref-TurnRefs none r turns b v = v
  push_hook_ref-TurnRefs (some id) r turns b v =
      push_at-TurnRefs _ _ turns
        (λ t w. record {
          to_tools = w.to_tools;
          to_hooks = All-append _ t.hook_calls (r ∷ []) w.to_hooks (b, tt);
          to_skills = w.to_skills;
        })
        v

  push_skill_ref-TurnRefs :
      (i : Option ℕ) (r : CallRef) (turns : List Turn)
      → r.index < h r.name
      → All (TurnRefs f g h) turns
      → All (TurnRefs f g h) (push_skill_ref i r turns)
  push_skill_ref-TurnRefs none r turns b v = v
  push_skill_ref-TurnRefs (some i) r turns b v =
      All-modify_at (TurnRefs f g h) i _ turns
        (λ t w. record {
          to_tools = w.to_tools;
          to_hooks = w.to_hooks;
          to_skills = All-append _ t.skill_calls (r ∷ []) w.to_skills (b, tt);
        })
        v

module _ (f : Text → ℕ) (r : CallRef) (below : r.index < f r.name) where
  note_tool-SkillRefs :
      (i : ℕ) (name : Text) (ep : SkillEpisode)
      → SkillRefs f name ep
      → SkillRefs f name (note_tool r i ep)
  note_tool-SkillRefs i name ep v =
      All-modify_at _ i _ ep.invocations
        (λ inv w. All-append _ inv.triggered_tools (r ∷ []) w (below, tt)) v

  attribute-SkillRefs :
      (os : List OpenSkill) (m : BTreeMap Text SkillEpisode)
      → AllEntries (SkillRefs f) m
      → AllEntries (SkillRefs f) (attribute_to_skills r os m)
  unfolding attribute_to_skills
  attribute-SkillRefs [] m v = v
  attribute-SkillRefs (o ∷ os) m v = attribute-SkillRefs os _ (
      AllEntries-adjust (SkillRefs f) o.name (note_tool r o.invocation_idx) m
        (note_tool-SkillRefs o.invocation_idx) v)

SkillRefs-mono :
    (f f' : Text → ℕ) (m : BTreeMap Text SkillEpisode)
    → ((k : Text) → f k ≤ f' k)
    → AllEntries (SkillRefs f) m
    → AllEntries (SkillRefs f') m
SkillRefs-mono f f' m p =
    AllEntries-map (SkillRefs f) (SkillRefs f') m
      λ k ep v. All-map _ _ ep.invocations (λ inv. AreBelow-mono f f' inv.triggered_tools p) v

-- All references of a state or of a result.
pub record AreValid {J : Type 0} (turns : List Turn) (tools : BTreeMap Text (ToolEpisode J))
    (hooks : BTreeMap Text HookEpisode) (skills : BTreeMap Text SkillEpisode) : Type 0 where
  pub of_turns : All (TurnRefs (tools_of tools) (hooks_of hooks) (invocations_of skills)) turns
  pub of_skills : AllEntries (SkillRefs (tools_of tools)) skills

-- The open windows point to invocations that are there.
abbrev pub WindowsBelow : (Text → ℕ) → List OpenSkill → Type 0
WindowsBelow f = All (λ o. o.invocation_idx < f o.name)

pub record RefInv {J : Type 0} (s : DeriveState J) : Type 0 where
  pub valid : AreValid s.turns s.tools s.hooks s.skills
  pub windows : WindowsBelow (invocations_of s.skills) s.open_skills

module _ {J : Type 0} where
  new_tool_index :
      (name : Text) (source : ToolSource) (m : BTreeMap Text (ToolEpisode J))
      → length (or_default (new_tool_episode name source) (get name m)).calls ≡ tools_of m name
  new_tool_index name source m = ground arith

  pub commit_tool_call-RefInv :
      (name : Text) (source : ToolSource) (call : ToolCall J) (s : DeriveState J)
      → RefInv s
      → RefInv (commit_tool_call name source call s)
  unfolding commit_tool_call
  commit_tool_call-RefInv name source call s v =
      let m : BTreeMap Text (ToolEpisode J) =
        upsert name (new_tool_episode name source) (add_tool_call call) s.tools in
      let r : CallRef = record {
        name = name;
        index = length (or_default (new_tool_episode name source) (get name s.tools)).calls;
      } in
      let more =
        grow_at (tools_of s.tools) (tools_of m) name (tools_of-upsert name source call s.tools) in
      let below : r.index < tools_of m name = ground (
        arith,
        new_tool_index name source s.tools,
        tools_of-upsert name source call s.tools name,
        (eqb_iff name name).1 refl,
      ) in
      let counts = invocations_of-attribute r s.open_skills s.skills in
      record {
        valid = record {
          of_turns = push_tool_ref-TurnRefs _ _ _ call.turn_id r s.turns below (
              TurnRefs-mono _ _ _ _ _ _ s.turns more (λ k. omega arith)
                (λ k. ground (arith, counts k)) v.valid.of_turns);
          of_skills =
              attribute-SkillRefs (tools_of m) r below s.open_skills s.skills
                (SkillRefs-mono _ _ s.skills more v.valid.of_skills);
        };
        windows = All-map _ _ s.open_skills (λ o b. ground (arith, counts o.name, b)) v.windows;
      }

  pub commit_hook_call-RefInv :
      (name : Text) (call : HookCall) (s : DeriveState J)
      → RefInv s
      → RefInv (commit_hook_call name call s)
  unfolding commit_hook_call
  commit_hook_call-RefInv name call s v =
      let m : BTreeMap Text HookEpisode =
        upsert name (new_hook_episode name) (add_hook_call call) s.hooks in
      let more = grow_at (hooks_of s.hooks) (hooks_of m) name (hooks_of-upsert name call s.hooks) in
      record {
        valid = record {
          of_turns =
              push_hook_ref-TurnRefs _ _ _ call.turn_id _ s.turns
                (ground (arith, hooks_of-upsert name call s.hooks name, (eqb_iff name name).1 refl))
                (TurnRefs-mono _ _ _ _ _ _ s.turns (λ k. omega arith) more (λ k. omega arith)
                  v.valid.of_turns);
          of_skills = v.valid.of_skills;
        };
        windows = v.windows;
      }

  pub invoke-RefInv :
      (ev : Event J) (s : DeriveState J) (name : Text) → RefInv s → RefInv (invoke ev s name)
  unfolding invoke
  invoke-RefInv ev s name v =
      let inv = new_skill_invocation ev.timestamp in
      let m : BTreeMap Text SkillEpisode =
        upsert name (new_skill_episode name) (add_invocation inv) s.skills in
      let counts = invocations_of-upsert name inv s.skills in
      let more = grow_at (invocations_of s.skills) (invocations_of m) name counts in
      let idx = length (or_default (new_skill_episode name) (get name s.skills)).invocations in
      let below : idx < invocations_of m name =
        ground (arith, counts name, (eqb_iff name name).1 refl) in
      record {
        valid = record {
          of_turns = push_skill_ref-TurnRefs _ _ _ s.open_turn_idx _ s.turns below (
              TurnRefs-mono _ _ _ _ _ _ s.turns (λ k. omega arith) (λ k. omega arith) more
                v.valid.of_turns);
          of_skills =
              AllEntries-upsert (SkillRefs (tools_of s.tools)) name (new_skill_episode name)
                (add_invocation inv) s.skills (tt, tt)
                (λ j ep e w. All-append _ ep.invocations (inv ∷ []) w (tt, tt)) v.valid.of_skills;
        };
        windows =
            All-append _ s.open_skills _
              (All-map _ _ s.open_skills (λ o b. omega (arith, more o.name)) v.windows) (below, tt);
      }
