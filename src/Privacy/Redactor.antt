-- ===== src/Privacy/Redactor.antt =====
-- crates/agentprof-core/src/analyzer/redact.rs: `UuidRedactor`, which gives each name that it
-- redacts a placeholder, and the table that leads back.
use agentprof.Base.{ℕ, ◌+◌, Option, none, some, List, [], ◌∷◌, ◌++◌}
use agentprof.Base.Decimal.{decimal}
use agentprof.Order.{Text, text, text_ord}
use agentprof.Map.{BTreeMap, get, insert}

pub record UuidRedactor : Type 0 where
  pub counter : ℕ
  pub map : BTreeMap Text Text

abbrev pub new_redactor : UuidRedactor
new_redactor = record { counter = 0; map = [] }

unfoldable pub placeholder : ℕ → Text
unfolding decimal
placeholder n = text "<uuid-" ++ decimal n ++ text ">"

unfoldable pub redact_found : Option Text → Text → UuidRedactor → UuidRedactor × Text
redact_found (some r) original u = (u, r)
redact_found none original u = (
  record { counter = u.counter + 1; map = insert original (placeholder u.counter) u.map },
  placeholder u.counter,
)

unfoldable pub redact : Text → UuidRedactor → UuidRedactor × Text
unfolding redact_found placeholder
redact original u = redact_found (get original u.map) original u

-- The redactions of a report, one after another.
unfoldable pub redact_all : List Text → UuidRedactor → UuidRedactor
unfolding redact
redact_all [] u = u
redact_all (original ∷ originals) u = redact_all originals (redact original u).0

-- `collect` into a map: a later entry of a key overwrites an earlier one.
unfoldable pub collect_inverse : BTreeMap Text Text → BTreeMap Text Text → BTreeMap Text Text
collect_inverse [] inverse = inverse
collect_inverse ((o, r) ∷ m) inverse = collect_inverse m (insert r o inverse)

unfoldable pub into_inverse : UuidRedactor → BTreeMap Text Text
unfolding collect_inverse
into_inverse u = collect_inverse u.map []
