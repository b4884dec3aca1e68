-- ===== src/Model/Names.antt =====
-- What `ToolSource::infer` reads off a name, and which names it reads it off.
use agentprof.Base.{ℕ, ◌≡◌, none, some, [], ◌∷◌, ◌++◌, arith, refl, Option-cases, inl, inr}
use agentprof.Order.{Text, text}
use agentprof.Model.ToolSource.{
  ToolSource, mcp, skill, builtin, strip_prefix, split_once, bind_option, infer,
}

strip_prefix_lem : (p s rest : Text) → strip_prefix p s ≡ some rest → s ≡ p ++ rest
unfolding strip_prefix
strip_prefix_lem [] s rest h = ground arith
strip_prefix_lem (p ∷ ps) [] rest h = absurd (ground arith)
strip_prefix_lem (p ∷ ps) (c ∷ cs) rest h = ground (arith, strip_prefix_lem ps cs rest)

strip_prefix-append : (p rest : Text) → strip_prefix p (p ++ rest) ≡ some rest
unfolding strip_prefix
strip_prefix-append [] rest = refl
strip_prefix-append (p ∷ ps) rest = ground (arith, strip_prefix-append ps rest)

-- The pair of underscores that ends the name of a server or a skill.
abbrev pub separator : Text
separator = 95 ∷ 95 ∷ []

split_once_cons :
    (c : ℕ) (cs before after : Text)
    → strip_prefix (text "__") (c ∷ cs) ≡ none
    → split_once (c ∷ cs) ≡ some (before, after)
    → (rest : Text) × (split_once cs ≡ some (rest, after)) × (before ≡ c ∷ rest)
unfolding split_once
split_once_cons c cs before after e h = elim (Option-cases (split_once cs)) [
  | inl n ↦ absurd (ground arith)
  | inr ((rest, tail), n) ↦ (rest, ground arith, ground arith)
]

split_once_here :
    (s rest before after : Text)
    → strip_prefix (text "__") s ≡ some rest
    → split_once s ≡ some (before, after)
    → (before ≡ []) × (after ≡ rest)
unfolding split_once
split_once_here [] rest before after e h = absurd (ground arith)
split_once_here (c ∷ cs) rest before after e h = (ground arith, ground arith)

split_once_lem :
    (s before after : Text) → split_once s ≡ some (before, after) → s ≡ before ++ separator ++ after
unfolding split_once
split_once_lem [] before after h = absurd (ground arith)
split_once_lem (c ∷ cs) before after h = elim (Option-cases (strip_prefix (text "__") (c ∷ cs))) [
  | inl e ↦
      let (rest, split, same) = split_once_cons c cs before after e h in
      ground (arith, split_once_lem cs rest after split)
  | inr (rest, e) ↦
      let (first, last) = split_once_here (c ∷ cs) rest before after e h in
      ground (arith, strip_prefix_lem (text "__") (c ∷ cs) rest e)
]

split_once-append :
    (before after : Text)
    → split_once (before ++ 95 ∷ []) ≡ none
    → split_once (before ++ separator ++ after) ≡ some (before, after)
unfolding split_once strip_prefix
split_once-append [] after h = refl
split_once-append (c ∷ []) after h = ground arith
split_once-append (c ∷ d ∷ before) after h = ground (arith, split_once-append (d ∷ before) after)

-- A name with its prefix and the two parts that the separator stands between.
abbrev pub qualified : Text → Text → Text → Text
qualified prefix first second = prefix ++ (first ++ separator ++ second)

-- What a source says of the name it was read off.
abbrev pub Names : Text → ToolSource → Type 0
Names name builtin = Unit
Names name (mcp server) = (tool : Text) × (name ≡ qualified (text "mcp__") server tool)
Names name (skill skill_name) = (tool : Text) × (name ≡ qualified (text "skill__") skill_name tool)

qualified_lem :
    (prefix name first second : Text)
    → bind_option (strip_prefix prefix name) split_once ≡ some (first, second)
    → name ≡ qualified prefix first second
qualified_lem prefix name first second h = elim (Option-cases (strip_prefix prefix name)) [
  | inl e ↦ absurd (ground arith)
  | inr (rest, e) ↦
      ground
        (arith, strip_prefix_lem prefix name rest e, split_once_lem rest first second (rw e at h))
]

-- A name that is inferred to be of a server or of a skill has the prefix, that server or skill,
-- the separator and a rest.
pub infer-Names : (name : Text) → Names name (infer name)
unfolding infer
infer-Names name =
    let server = bind_option (strip_prefix (text "mcp__") name) split_once in
    let skill_name = bind_option (strip_prefix (text "skill__") name) split_once in
    elim (Option-cases server) [
      | inr ((first, second), e) ↦
          rw (e, Names) (second, qualified_lem (text "mcp__") name first second e)
      | inl e ↦ elim (Option-cases skill_name) [
        | inr ((first, second), k) ↦
            rw (e, k, Names) (second, qualified_lem (text "skill__") name first second k)
        | inl k ↦ rw (e, k, Names) tt
      ]
    ]

-- A server or a skill whose name, followed by one underscore, holds no separator is inferred from
-- every name that is built from it.
pub infer-qualified :
    (first second : Text)
    → split_once (first ++ 95 ∷ []) ≡ none
    → (infer (qualified (text "mcp__") first second) ≡ mcp first)
      × (infer (qualified (text "skill__") first second) ≡ skill first)
unfolding infer
infer-qualified first second h = rw (split_once-append first second h, infer) (refl, refl)
