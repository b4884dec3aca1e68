-- ===== src/Otlp/Admission.antt =====
-- The limits of the router, and that the admission of a session keeps them.
use agentprof.Base.{
  ℕ, ◌+◌, ◌-◌, ◌≤◌, ◌≡◌, ◌⊎◌, Bool, false, not, ◌&&◌, some, List, [], ◌∷◌, max, length, arith, refl,
  ltb, Bool-cases, Option-cases, inl, inr, sym, subst,
}
use agentprof.Order.{Text, text_ord, eqb, eqb_iff}
use agentprof.Map.{
  BTreeMap, get, upsert, contains_key, get-upsert, get-remove, or_default, upsert-IsOrdered,
}
use agentprof.Event.{Instant}
use agentprof.Otlp.Buffer.{CloseReason, SessionBufferCaps, SessionBuffer, new_buffer}
use agentprof.Otlp.Routing.{Env, SessionRouter, close_buffer, evict_front, admit}
use agentprof.Otlp.Index.{
  present, present_le, length-upsert, length-remove, present-upsert, present-remove, Indexes,
  close_buffer_fields, close_buffer-Indexes, evict_front-Indexes,
}

-- The bytes and events of a buffer are within the limits.
pub record IsCapped (cap : SessionBufferCaps) (b : SessionBuffer) : Type 0 where
  pub bytes : b.bytes_used ≤ cap.max_bytes
  pub events : length b.events ≤ cap.max_events

-- All open sessions are within the limits, and so is their number; with a limit of zero there is
-- still room for one.
pub record IsWithin (r : SessionRouter) : Type 0 where
  pub indexes : Indexes [] 0 r
  pub bounded : length r.buffers ≤ max 1 r.cap.max_open_sessions
  pub capped : (k : Text) (b : SessionBuffer) → get k r.buffers ≡ some b → IsCapped r.cap b

-- The same between the admission of a session and the touch of the index.
pub record IsAdmitted (sid : Text) (missing : ℕ) (r : SessionRouter) : Type 0 where
  pub indexes : Indexes sid missing r
  pub bounded : length r.buffers ≤ max 1 r.cap.max_open_sessions
  pub capped : (k : Text) (b : SessionBuffer) → get k r.buffers ≡ some b → IsCapped r.cap b
  pub here : present sid r.buffers ≡ 1

-- With nothing missing, it does not matter for which session.
pub Indexes-zero : (sid sid' : Text) (r : SessionRouter) → Indexes sid 0 r → Indexes sid' 0 r
Indexes-zero sid sid' r h = record {
  ordered = h.ordered;
  counted = λ k. ground (arith, h.counted k);
  sized = h.sized;
}

new_buffer-IsCapped :
    (cap : SessionBufferCaps) (sid : Text) (now : Instant) → IsCapped cap (new_buffer sid now)
new_buffer-IsCapped cap sid now = omega arith

pub get-upsert_cases :
    {V : Type 0} (k sid : Text) (d : V) (f : V → V) (m : BTreeMap Text V) (b : V)
    → get k (upsert sid d f m) ≡ some b
    → ((eqb k sid ≡ false) × (get k m ≡ some b)) ⊎ ((k ≡ sid) × (b ≡ f (or_default d (get sid m))))
get-upsert_cases k sid d f m b found = elim (Bool-cases (eqb k sid)) [
  | inl same ↦ inr ((eqb_iff k sid).0 same, ground (arith, get-upsert k sid d f m))
  | inr other ↦ inl (other, ground (arith, get-upsert k sid d f m))
]

module _ (env : Env) where
  -- A closing needs the limits of the other sessions only.
  pub close_buffer-IsWithin :
      (sid : Text) (reason : CloseReason) (r : SessionRouter)
      → Indexes sid 0 r
      → length r.buffers ≤ max 1 r.cap.max_open_sessions
      → ((k : Text) (b : SessionBuffer)
          → eqb k sid ≡ false
          → get k r.buffers ≡ some b
          → IsCapped r.cap b)
      → IsWithin (close_buffer env sid reason r).0
  close_buffer-IsWithin sid reason r indexes len capped =
      let fields = close_buffer_fields env sid reason r in
      record {
        indexes = Indexes-zero sid [] _ (close_buffer-Indexes env sid reason r indexes);
        bounded = rw (fields.0, fields.2) (omega (arith, len, length-remove sid r.buffers));
        capped = λ k b.
            rw (fields.0, fields.2)
              (λ found.
                capped k b (ground (arith, found, get-remove k sid r.buffers indexes.ordered))
                  (ground (arith, found, get-remove k sid r.buffers indexes.ordered)));
      }

  -- The buffers with one for the session.
  abbrev pub with_buffer : Instant → Text → SessionRouter → SessionRouter
  with_buffer now sid r = record r { buffers = upsert sid (new_buffer sid now) (λ b. b) r.buffers }

  with_buffer-Indexes :
      (now : Instant) (sid : Text) (r : SessionRouter)
      → Indexes [] 0 r
      → Indexes sid (1 - present sid r.buffers) (with_buffer now sid r)
  with_buffer-Indexes now sid r h = record {
    ordered = upsert-IsOrdered sid (new_buffer sid now) (λ b. b) r.buffers h.ordered;
    counted = λ k. ground (
      arith,
      h.counted k,
      eqb_iff k sid,
      present_le k r.buffers,
      present-upsert k sid (new_buffer sid now) (λ b. b) r.buffers,
    );
    sized = omega (
      arith,
      h.sized,
      present_le sid r.buffers,
      length-upsert sid (new_buffer sid now) (λ b. b) r.buffers,
    );
  }

  with_buffer-IsCapped :
      (now : Instant) (sid : Text) (r : SessionRouter)
      → IsWithin r
      → (k : Text) (b : SessionBuffer) → get k (with_buffer now sid r).buffers ≡ some b
      → IsCapped r.cap b
  with_buffer-IsCapped now sid r h k b found =
      elim (get-upsert_cases k sid (new_buffer sid now) (λ b. b) r.buffers b found) [
        | inl (other, old) ↦ h.capped k b old
        | inr (same, value) ↦ elim (Option-cases (get sid r.buffers)) [
          | inl absent ↦
              subst (IsCapped r.cap) (sym (ground (arith, absent, value)))
                (new_buffer-IsCapped r.cap sid now)
          | inr (b', old) ↦ h.capped sid b (ground (arith, old, value))
        ]
      ]

  evict_front-IsAdmitted :
      (sid : Text) (lru : List Text) (r : SessionRouter)
      → r.lru ≡ lru
      → Indexes sid 1 r
      → length r.buffers ≤ max 1 r.cap.max_open_sessions + 1
      → ((k : Text) (b : SessionBuffer) → get k r.buffers ≡ some b → IsCapped r.cap b)
      → present sid r.buffers ≡ 1
      → IsAdmitted sid 1 (evict_front env lru r)
  evict_front-IsAdmitted sid [] r e h len capped here =
      unfold evict_front in
      record { indexes = h; bounded = ground (arith, e, h.sized); capped = capped; here = here }
  evict_front-IsAdmitted sid (victim ∷ rest) r e h len capped here =
      let (indexes, shorter, same_cap, fields, found) =
        evict_front-Indexes env sid victim rest 1 r e h in
      record {
        indexes = indexes;
        bounded = rw same_cap (omega (arith, shorter, len));
        capped = λ k b.
            rw (same_cap, fields)
              (λ was. capped k b (ground (arith, was, get-remove k victim r.buffers h.ordered)));
        here = rw fields (
            ground (
              arith,
              h.counted sid,
              e,
              here,
              eqb_iff sid sid,
              present-remove sid victim r.buffers h.ordered,
            ));
      }

  -- A session is new, and with it the router is over the limit.
  abbrev pub is_over : Instant → Text → SessionRouter → Bool
  is_over now sid r =
      not (contains_key sid r.buffers)
      && ltb r.cap.max_open_sessions (length (with_buffer now sid r).buffers)

  pub admit-IsAdmitted :
      (now : Instant) (sid : Text) (r : SessionRouter)
      → IsWithin r
      → IsAdmitted sid (1 - present sid r.buffers) (admit env now sid r)
  unfolding admit
  admit-IsAdmitted now sid r h =
      let indexes = with_buffer-Indexes now sid r h.indexes in
      let longer = length-upsert sid (new_buffer sid now) (λ b. b) r.buffers in
      let here : present sid (with_buffer now sid r).buffers ≡ 1 =
        ground (
          arith,
          present-upsert sid sid (new_buffer sid now) (λ b. b) r.buffers,
          eqb_iff sid sid,
        ) in
      elim (Bool-cases (is_over now sid r)) [
        | inl over ↦
            let missing : 1 - present sid r.buffers ≡ 1 = ground (arith, over) in
            rw (missing, over, admit)
              (evict_front-IsAdmitted sid r.lru (with_buffer now sid r) refl
                (subst (λ m. Indexes sid m (with_buffer now sid r)) missing indexes)
                (omega (arith, longer, h.bounded)) (with_buffer-IsCapped now sid r h) here)
        | inr under ↦
            rw (under, admit)
              (record {
                indexes = indexes;
                bounded = ground (arith, under, longer, h.bounded);
                capped = with_buffer-IsCapped now sid r h;
                here = here;
              })
      ]
