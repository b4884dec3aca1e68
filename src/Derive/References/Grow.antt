-- ===== src/Derive/References/Grow.antt =====
-- The numbers of calls by name, and how the handlers make them grow.
use agentprof.Base.{
  ℕ, suc, ◌≤◌, ◌<◌, ◌≡◌, none, some, List, [], ◌∷◌, ◌++◌, arith, length, All, All-map,
  length-append, length-modify_at, if◌then◌else◌, Option-cases, Bool-cases, inl, inr, refl, ◌∙◌,
}
use agentprof.Order.{Text, text_ord, eqb, eqb_iff}
use agentprof.Map.{BTreeMap, get, upsert, adjust, get-upsert, get-adjust, or_default}
use agentprof.Episode.{
  CallRef, ToolCall, ToolEpisode, new_tool_episode, HookCall, HookEpisode, new_hook_episode,
  SkillEpisode, new_skill_episode, SkillInvocation,
}
use agentprof.Model.ToolSource.{ToolSource}
use agentprof.Derive.{
  OpenSkill, add_tool_call, add_hook_call, add_invocation, note_tool, attribute_to_skills,
}

-- How many calls a map has for a name.
abbrev pub tools_of : {J : Type 0} → BTreeMap Text (ToolEpisode J) → Text → ℕ
tools_of m k = elim (get k m) [ none ↦ 0 | some ep ↦ length ep.calls ]

abbrev pub hooks_of : BTreeMap Text HookEpisode → Text → ℕ
hooks_of m k = elim (get k m) [ none ↦ 0 | some ep ↦ length ep.calls ]

abbrev pub invocations_of : BTreeMap Text SkillEpisode → Text → ℕ
invocations_of m k = elim (get k m) [ none ↦ 0 | some ep ↦ length ep.invocations ]

-- Each reference points below the number of its name.
abbrev pub AreBelow : (Text → ℕ) → List CallRef → Type 0
AreBelow f = All (λ r. r.index < f r.name)

pub AreBelow-mono :
    (f g : Text → ℕ) (rs : List CallRef) → ((k : Text) → f k ≤ g k) → AreBelow f rs → AreBelow g rs
AreBelow-mono f g rs grow h =
    All-map (λ r. r.index < f r.name) (λ r. r.index < g r.name) rs
      (λ r below. omega (arith, grow r.name)) h

pub tools_of-upsert :
    {J : Type 0} (name : Text) (source : ToolSource) (call : ToolCall J)
    (m : BTreeMap Text (ToolEpisode J)) (k : Text)
    → tools_of (upsert name (new_tool_episode name source) (add_tool_call call) m) k
      ≡ (if eqb k name then suc (tools_of m name) else tools_of m k)
tools_of-upsert name source call m k = ground (
  arith,
  get-upsert k name (new_tool_episode name source) (add_tool_call call) m,
  length-append (or_default (new_tool_episode name source) (get name m)).calls (call ∷ []),
)

pub hooks_of-upsert :
    (name : Text) (call : HookCall) (m : BTreeMap Text HookEpisode) (k : Text)
    → hooks_of (upsert name (new_hook_episode name) (add_hook_call call) m) k
      ≡ (if eqb k name then suc (hooks_of m name) else hooks_of m k)
hooks_of-upsert name call m k = ground (
  arith,
  get-upsert k name (new_hook_episode name) (add_hook_call call) m,
  length-append (or_default (new_hook_episode name) (get name m)).calls (call ∷ []),
)

pub invocations_of-upsert :
    (name : Text) (inv : SkillInvocation) (m : BTreeMap Text SkillEpisode) (k : Text)
    → invocations_of (upsert name (new_skill_episode name) (add_invocation inv) m) k
      ≡ (if eqb k name then suc (invocations_of m name) else invocations_of m k)
invocations_of-upsert name inv m k = ground (
  arith,
  get-upsert k name (new_skill_episode name) (add_invocation inv) m,
  length-append (or_default (new_skill_episode name) (get name m)).invocations (inv ∷ []),
)

pub invocations_of-note :
    (name : Text) (r : CallRef) (i : ℕ) (m : BTreeMap Text SkillEpisode) (k : Text)
    → invocations_of (adjust name (note_tool r i) m) k ≡ invocations_of m k
invocations_of-note name r i m k = elim (Option-cases (get k m)) [
  | inl absent ↦ ground (arith, get-adjust k name (note_tool r i) m)
  | inr (ep, found) ↦ ground (
    arith,
    get-adjust k name (note_tool r i) m,
    length-modify_at i
        (λ (inv : SkillInvocation). record inv { triggered_tools = inv.triggered_tools ++ r ∷ [] })
        ep.invocations,
  )
]

pub invocations_of-attribute :
    (r : CallRef) (os : List OpenSkill) (m : BTreeMap Text SkillEpisode) (k : Text)
    → invocations_of (attribute_to_skills r os m) k ≡ invocations_of m k
unfolding attribute_to_skills
invocations_of-attribute r [] m k = refl
invocations_of-attribute r (o ∷ os) m k =
    invocations_of-attribute r os _ k ∙ invocations_of-note o.name r o.invocation_idx m k

-- A number that grows at one name by one grows everywhere or stays.
pub grow_at :
    (f g : Text → ℕ) (name : Text)
    → ((k : Text) → g k ≡ (if eqb k name then suc (f name) else f k))
    → (k : Text) → f k ≤ g k
grow_at f g name h k = elim (Bool-cases (eqb k name)) [
  | inl same ↦ rw ((eqb_iff k name).0 same) (ground (arith, h name, (eqb_iff name name).1 refl))
  | inr other ↦ ground (arith, h k)
]
