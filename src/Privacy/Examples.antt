-- ===== src/Privacy/Examples.antt =====
-- Three redactions, one of a name that was redacted before.
use agentprof.Base.{◌≡◌, some, [], ◌∷◌, refl}
use agentprof.Order.{text, text_ord, text_cmp}
use agentprof.Map.{get, insert}
use agentprof.Privacy.Redactor.{new_redactor, redact, redact_all, into_inverse}
use agentprof.Privacy.Inverse.{get-into_inverse}

second :
    (redact (text "b") (redact_all (text "a" ∷ text "a" ∷ []) new_redactor)).1 ≡ text "<uuid-1>"
unfolding redact redact_all text_cmp get insert
second = refl

get-into_inverse_example :
    get (redact (text "b") (redact_all (text "a" ∷ []) new_redactor)).1 (
      into_inverse (
        redact_all
          (text "a" ∷ text "c" ∷ [])
          (redact (text "b") (redact_all (text "a" ∷ []) new_redactor)).0))
    ≡ some (text "b")
get-into_inverse_example = get-into_inverse (text "a" ∷ []) (text "a" ∷ text "c" ∷ []) (text "b")
