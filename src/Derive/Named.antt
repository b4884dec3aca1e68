-- ===== src/Derive/Named.antt =====
-- The calls and invocations that stand under a name.
use agentprof.Base.{
  ◌≡◌, refl, ◌==◌, ℕ, zero, suc, none, some, List, [], ◌∷◌, ◌++◌, arith, if◌then◌else◌, get_elem?,
  modify_at,
}
use agentprof.Order.{Text, text_ord, eqb}
use agentprof.Map.{BTreeMap, get, upsert, get-upsert, map_option}
use agentprof.Model.ToolSource.{ToolSource}
use agentprof.Episode.{
  ToolCall, ToolEpisode, new_tool_episode, HookCall, HookEpisode, new_hook_episode, SkillEpisode,
  new_skill_episode, SkillInvocation,
}
use agentprof.Derive.{add_tool_call, add_hook_call, add_invocation}

abbrev pub tool_calls_of : {J : Type 0} → Text → BTreeMap Text (ToolEpisode J) → List (ToolCall J)
tool_calls_of name m = elim (get name m) [ none ↦ [] | some ep ↦ ep.calls ]

abbrev pub hook_calls_of : Text → BTreeMap Text HookEpisode → List HookCall
hook_calls_of name m = elim (get name m) [ none ↦ [] | some ep ↦ ep.calls ]

abbrev pub invocations_of : Text → BTreeMap Text SkillEpisode → List SkillInvocation
invocations_of name m = elim (get name m) [ none ↦ [] | some ep ↦ ep.invocations ]

-- A list with one more element where a name is the one that is looked up.
abbrev pub added : {A : Type 0} → Text → Text → A → List A → List A
added name own x xs = if eqb name own then xs ++ x ∷ [] else xs

pub added_own :
    {A : Type 0} (name : Text) (x : A) (xs : List A) → added name name x xs ≡ xs ++ x ∷ []
added_own name x xs = ground (arith, (text_ord.cmp_eq name name).1 refl)

module _ (name own : Text) where
  pub tool_calls_of-upsert :
      {J : Type 0} (source : ToolSource) (call : ToolCall J) (m : BTreeMap Text (ToolEpisode J))
      → tool_calls_of name (upsert own (new_tool_episode own source) (add_tool_call call) m)
        ≡ added name own call (tool_calls_of name m)
  tool_calls_of-upsert source call m = ground (
    arith,
    get-upsert name own (new_tool_episode own source) (add_tool_call call) m,
    text_ord.cmp_eq name own,
  )

  pub hook_calls_of-upsert :
      (call : HookCall) (m : BTreeMap Text HookEpisode)
      → hook_calls_of name (upsert own (new_hook_episode own) (add_hook_call call) m)
        ≡ added name own call (hook_calls_of name m)
  hook_calls_of-upsert call m = ground (
    arith,
    get-upsert name own (new_hook_episode own) (add_hook_call call) m,
    text_ord.cmp_eq name own,
  )

  pub invocations_of-upsert :
      (inv : SkillInvocation) (m : BTreeMap Text SkillEpisode)
      → invocations_of name (upsert own (new_skill_episode own) (add_invocation inv) m)
        ≡ added name own inv (invocations_of name m)
  invocations_of-upsert inv m = ground (
    arith,
    get-upsert name own (new_skill_episode own) (add_invocation inv) m,
    text_ord.cmp_eq name own,
  )

module _ {A : Type 0} where
  -- Of a list only the element at the index is changed.
  pub get_elem?-modify_at :
      (j i : ℕ) (f : A → A) (xs : List A)
      → get_elem? (modify_at i f xs) j
        ≡ (if j == i then map_option f (get_elem? xs j) else get_elem? xs j)
  get_elem?-modify_at j i f [] = ground arith
  get_elem?-modify_at zero zero f (x ∷ xs) = ground arith
  get_elem?-modify_at (suc j) zero f (x ∷ xs) = ground arith
  get_elem?-modify_at zero (suc i) f (x ∷ xs) = ground arith
  get_elem?-modify_at (suc j) (suc i) f (x ∷ xs) = ground (arith, get_elem?-modify_at j i f xs)
