-- ===== src/Privacy/Inverse.antt =====
-- The placeholders of a redactor lead back to the names they stand for.
use agentprof.Base.{
  ℕ, ◌+◌, ◌*◌, ◌<◌, ◌≡◌, ◌⊎◌, Option, none, some, List, [], ◌∷◌, if◌then◌else◌, arith, refl, sym,
  ap, ◌∙◌, inl, inr, Bool-cases,
}
use agentprof.Base.Decimal.{decimal, value, value-append, value-decimal}
use agentprof.Order.{Text, text_ord, eqb, eqb_iff, Ordering-cases}
use agentprof.Map.{
  BTreeMap, get, insert, get-insert, upsert-IsOrdered, IsOrdered, IsOrdered-get, AllEntries,
  AllEntries-map,
}
use agentprof.Privacy.Redactor.{
  UuidRedactor, new_redactor, placeholder, redact_found, redact, redact_all, collect_inverse,
  into_inverse,
}

-- The digits of a placeholder, with its last character as one more.
abbrev inside : Text → ℕ
inside (a ∷ b ∷ c ∷ d ∷ e ∷ f ∷ digits) = value 0 digits
inside _ = 0

inside-placeholder : (n : ℕ) → inside (placeholder n) ≡ n * 10 + 14
unfolding placeholder
inside-placeholder n = omega (arith, value-append 0 (decimal n) b'>', value-decimal n)

placeholder-injective : (m n : ℕ) → placeholder m ≡ placeholder n → m ≡ n
placeholder-injective m n h = omega (arith, inside-placeholder m, inside-placeholder n, ap inside h)

-- Each placeholder is from a number before the counter, and stands for one name.
pub record IsFresh (u : UuidRedactor) : Type 0 where
  pub ordered : IsOrdered u.map
  pub numbered : (a : Text) (n : ℕ) → get a u.map ≡ some (placeholder n) → n < u.counter
  pub distinct : (a b r : Text) → get a u.map ≡ some r → get b u.map ≡ some r → a ≡ b

abbrev or_text : Text → Option Text → Text
or_text d none = d
or_text d (some t) = t

insert-IsOrdered : (k v : Text) (m : BTreeMap Text Text) → IsOrdered m → IsOrdered (insert k v m)
unfolding insert
insert-IsOrdered k v m h = upsert-IsOrdered k v (λ w. v) m h

some-injective : {a b : Text} → some a ≡ some b → a ≡ b
some-injective {a} {b} h = ap (or_text a) h

-- What a lookup finds behind an insertion.
insert-cases :
    (a o r t : Text) (m : BTreeMap Text Text)
    → get a (insert o r m) ≡ some t
    → ((a ≡ o) × (r ≡ t)) ⊎ (get a m ≡ some t)
insert-cases a o r t m h = elim (Bool-cases (eqb a o)) [
  | inl e ↦ inl ((eqb_iff a o).0 e, some-injective (rw (get-insert a o r m, e, if◌then◌else◌) at h))
  | inr e ↦ inr (rw (get-insert a o r m, e, if◌then◌else◌) at h)
]

redact_found-IsFresh :
    (o : Option Text) (x : Text) (u : UuidRedactor)
    → get x u.map ≡ o
    → IsFresh u
    → IsFresh (redact_found o x u).0
unfolding redact_found
redact_found-IsFresh (some r) x u e h = h
redact_found-IsFresh none x u e h = record {
  ordered = insert-IsOrdered x (placeholder u.counter) u.map h.ordered;
  numbered = λ a n g. elim (insert-cases a x (placeholder u.counter) (placeholder n) u.map g) [
    | inl (p, q) ↦ omega (arith, placeholder-injective u.counter n q)
    | inr q ↦ omega (arith, h.numbered a n q)
  ];
  distinct = λ a b r g k.
      let p = placeholder u.counter in
      elim (insert-cases a x p r u.map g) [
        | inl (ax, pr) ↦ elim (insert-cases b x p r u.map k) [
          | inl (bx, _) ↦ ax ∙ sym bx
          | inr old ↦ ground (arith, h.numbered b u.counter (old ∙ ap some (sym pr)))
        ]
        | inr old ↦ elim (insert-cases b x p r u.map k) [
          | inl (bx, pr) ↦ ground (arith, h.numbered a u.counter (old ∙ ap some (sym pr)))
          | inr old' ↦ h.distinct a b r old old'
        ]
      ];
}

redact_all-IsFresh : (xs : List Text) (u : UuidRedactor) → IsFresh u → IsFresh (redact_all xs u)
unfolding redact_all redact
redact_all-IsFresh [] u h = h
redact_all-IsFresh (x ∷ xs) u h =
    redact_all-IsFresh xs (redact x u).0 (redact_found-IsFresh (get x u.map) x u refl h)

new_redactor-IsFresh : IsFresh new_redactor
unfolding get
new_redactor-IsFresh = record {
  ordered = tt;
  numbered = λ a n h. ground (arith, h);
  distinct = λ a b r h k. ground (arith, h);
}

-- A name that is redacted is found with its placeholder.
get-redact_found :
    (o : Option Text) (x : Text) (u : UuidRedactor)
    → get x u.map ≡ o
    → get x (redact_found o x u).0.map ≡ some (redact_found o x u).1
unfolding redact_found
get-redact_found (some r) x u e = e
get-redact_found none x u e =
    ground (arith, get-insert x x (placeholder u.counter) u.map, eqb_iff x x)

-- A later redaction keeps it.
redact_found_keeps :
    (o : Option Text) (x r y : Text) (u : UuidRedactor)
    → get y u.map ≡ o
    → get x u.map ≡ some r
    → get x (redact_found o y u).0.map ≡ some r
unfolding redact_found
redact_found_keeps (some t) x r y u e h = h
redact_found_keeps none x r y u e h = elim (Bool-cases (eqb x y)) [
  | inl q ↦ ground (arith, h, e, ap (λ z. get z u.map) ((eqb_iff x y).0 q))
  | inr q ↦ get-insert x y (placeholder u.counter) u.map ∙ rw (q, if◌then◌else◌) h
]

redact_all_keeps :
    (xs : List Text) (x r : Text) (u : UuidRedactor)
    → get x u.map ≡ some r
    → get x (redact_all xs u).map ≡ some r
unfolding redact_all redact
redact_all_keeps [] x r u h = h
redact_all_keeps (y ∷ xs) x r u h =
    redact_all_keeps xs x r (redact y u).0 (redact_found_keeps (get y u.map) x r y u refl h)

-- The table of a map in which a placeholder stands for one name.
get-collect_kept :
    (m inverse : BTreeMap Text Text) (r x : Text)
    → AllEntries (λ k v. v ≡ r → k ≡ x) m
    → get r inverse ≡ some x
    → get r (collect_inverse m inverse) ≡ some x
unfolding collect_inverse
get-collect_kept [] inverse r x h g = g
get-collect_kept ((k, v) ∷ m) inverse r x h g = get-collect_kept m (insert v k inverse) r x h.1 (
    get-insert r v k inverse ∙ elim (Bool-cases (eqb r v)) [
      | inl q ↦ rw (q, if◌then◌else◌) (ap some (h.0 (sym ((eqb_iff r v).0 q))))
      | inr q ↦ rw (q, if◌then◌else◌) g
    ])

get-collect_inverse :
    (m inverse : BTreeMap Text Text) (r x : Text)
    → AllEntries (λ k v. v ≡ r → k ≡ x) m
    → get x m ≡ some r
    → get r (collect_inverse m inverse) ≡ some x
unfolding collect_inverse get
get-collect_inverse [] inverse r x h g = ground (arith, g)
get-collect_inverse ((k, v) ∷ m) inverse r x h g = elim (Ordering-cases (text_ord.cmp x k)) [
  | inl c ↦ ground (arith, c, g)
  | inr (inl c) ↦
      let vr : v ≡ r = some-injective (rw (c, get) at g) in
      get-collect_kept m (insert v k inverse) r x h.1
        (get-insert r v k inverse ∙ rw ((eqb_iff r v).1 (sym vr), if◌then◌else◌) (ap some (h.0 vr)))
  | inr (inr c) ↦ get-collect_inverse m (insert v k inverse) r x h.1 (rw (c, get) at g)
]

-- Whatever else is redacted before and behind it, the placeholder of a name leads back to that name
-- in the table of the redactor.
pub get-into_inverse :
    (before after : List Text) (x : Text)
    → let answer = redact x (redact_all before new_redactor) in
      get answer.1 (into_inverse (redact_all after answer.0)) ≡ some x
unfolding into_inverse redact
get-into_inverse before after x =
    let u = redact_all before new_redactor in
    let answer = redact x u in
    let last = redact_all after answer.0 in
    let fresh : IsFresh last = redact_all-IsFresh after answer.0 (
      redact_found-IsFresh (get x u.map) x u refl
        (redact_all-IsFresh before new_redactor new_redactor-IsFresh)) in
    let found : get x last.map ≡ some answer.1 =
      redact_all_keeps after x answer.1 answer.0 (get-redact_found (get x u.map) x u refl) in
    get-collect_inverse last.map [] answer.1 x
      (AllEntries-map (λ k v. get k last.map ≡ some v) (λ k v. v ≡ answer.1 → k ≡ x) last.map
        (λ k v g q. fresh.distinct k x answer.1 (g ∙ ap some q) found)
        (IsOrdered-get last.map fresh.ordered))
      found
