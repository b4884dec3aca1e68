-- ===== src/Model/Examples.antt =====
-- Tool names and the sources that are read off them.
use agentprof.Base.{◌≡◌, none, [], ◌∷◌, ◌++◌, refl}
use agentprof.Order.{text}
use agentprof.Model.ToolSource.{builtin, mcp, skill, infer, split_once, strip_prefix}
use agentprof.Model.Names.{Names, infer-Names, infer-qualified, qualified}

-- Only the first pair of underscores counts, and a name without a pair is a builtin.
sources :
    (infer (text "mcp__github__list__all") ≡ mcp (text "github"))
    × (infer (text "skill__plan__run") ≡ skill (text "plan"))
    × (infer (text "mcp__github") ≡ builtin)
    × (infer (text "bash") ≡ builtin)
unfolding infer
sources = (refl, refl, refl, refl)

infer-Names_example : Names (text "mcp__github__list") (infer (text "mcp__github__list"))
infer-Names_example = infer-Names (text "mcp__github__list")

no_separator : split_once (text "git_hub" ++ 95 ∷ []) ≡ none
unfolding split_once strip_prefix
no_separator = refl

infer-qualified_example :
    (infer (qualified (text "mcp__") (text "git_hub") (text "list")) ≡ mcp (text "git_hub"))
    × (infer (qualified (text "skill__") (text "git_hub") (text "list")) ≡ skill (text "git_hub"))
infer-qualified_example = infer-qualified (text "git_hub") (text "list") no_separator
