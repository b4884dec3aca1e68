-- ===== src/Model/ToolSource.antt =====
-- crates/agentprof-core/src/model/tool_source.rs: the origin of a tool, read off its name.

use agentprof.Base.{Option, none, some, [], ◌∷◌, ◌==◌, if◌then◌else◌}
use agentprof.Order.{Text, text, text_ord}

pub data ToolSource : Type 0 where
  builtin : ToolSource
  mcp skill : Text → ToolSource

-- `s.strip_prefix(p)`
unfoldable pub strip_prefix : Text → Text → Option Text
strip_prefix [] s = some s
strip_prefix (p ∷ ps) [] = none
strip_prefix (p ∷ ps) (c ∷ cs) = if p == c then strip_prefix ps cs else none

-- `s.split_once("__")`: the parts before and behind the first pair of underscores.
unfoldable pub split_once : Text → Option (Text × Text)
split_once [] = none
split_once (c ∷ cs) = elim (strip_prefix (text "__") (c ∷ cs)) [
  | some rest ↦ some ([], rest)
  | none ↦ elim (split_once cs) [ none ↦ none | some (before, rest) ↦ some (c ∷ before, rest) ]
]

abbrev pub bind_option : {A B : Type 0} → Option A → (A → Option B) → Option B
bind_option none f = none
bind_option (some a) f = f a

-- `ToolSource::infer`
unfoldable pub infer : Text → ToolSource
unfolding strip_prefix split_once
infer name = elim (bind_option (strip_prefix (text "mcp__") name) split_once) [
  | some (server, tool) ↦ mcp server
  | none ↦ elim (bind_option (strip_prefix (text "skill__") name) split_once) [
    | some (skill_name, tool) ↦ skill skill_name
    | none ↦ builtin
  ]
]
