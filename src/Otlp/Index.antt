-- ===== src/Otlp/Index.antt =====
-- The index of the recent sessions: it has exactly the open ones, through each step of the router.
use agentprof.Base.{
  ℕ, ◌+◌, ◌-◌, ◌≤◌, ◌≡◌, List, [], ◌∷◌, min, count, length, arith, refl, if◌then◌else◌,
  Option-cases, inl, inr, sym,
}
use agentprof.Order.{Text, text_ord, eqb, eqb_iff}
use agentprof.Map.{
  BTreeMap, get, upsert, remove, get-upsert, get-remove, remove-absent, sum_values, weight,
  sum_values-upsert_at, sum_values-remove, IsOrdered, remove-IsOrdered,
}
use agentprof.Otlp.Buffer.{CloseReason, capacity_evict}
use agentprof.Otlp.Routing.{Env, SessionRouter, forget, close_buffer, evict_front}

-- One for a session with a buffer, zero for one without.
abbrev pub present : {V : Type 0} → Text → BTreeMap Text V → ℕ
present k m = weight (λ _. 1) (get k m)

length-sum_values : {V : Type 0} (m : BTreeMap Text V) → length m ≡ sum_values (λ _. 1) m
length-sum_values [] = refl
length-sum_values (e ∷ m) = omega (arith, length-sum_values m)

pub length-upsert :
    {V : Type 0} (k : Text) (d : V) (f : V → V) (m : BTreeMap Text V)
    → length (upsert k d f m) + present k m ≡ length m + 1
length-upsert k d f m = omega (
  arith,
  length-sum_values m,
  length-sum_values (upsert k d f m),
  sum_values-upsert_at (λ _. 1) k d f m,
)

pub length-remove :
    {V : Type 0} (k : Text) (m : BTreeMap Text V) → length (remove k m) + present k m ≡ length m
length-remove k m =
    omega
      (arith, length-sum_values m, length-sum_values (remove k m), sum_values-remove (λ _. 1) k m)

pub present-upsert :
    {V : Type 0} (j k : Text) (d : V) (f : V → V) (m : BTreeMap Text V)
    → present j (upsert k d f m) ≡ (if eqb j k then 1 else present j m)
present-upsert j k d f m = ground (arith, get-upsert j k d f m)

pub present-remove :
    {V : Type 0} (j k : Text) (m : BTreeMap Text V)
    → IsOrdered m
    → present j (remove k m) ≡ (if eqb j k then 0 else present j m)
present-remove j k m h = ground (arith, get-remove j k m h)

pub count-forget :
    (j k : Text) (l : List Text)
    → count (eqb j) (forget k l) ≡ (if eqb j k then count (eqb j) l - 1 else count (eqb j) l)
unfolding forget
count-forget j k [] = ground arith
count-forget j k (s ∷ l) = ground (arith, count-forget j k l, eqb_iff j k, eqb_iff k s, eqb_iff j s)

pub length-forget :
    (k : Text) (l : List Text) → length (forget k l) + min 1 (count (eqb k) l) ≡ length l
unfolding forget
length-forget k [] = omega arith
length-forget k (s ∷ l) = ground (arith, length-forget k l)

-- The order of the buffers, and the index but for one session, which it lacks `missing` times.
pub record Indexes (sid : Text) (missing : ℕ) (r : SessionRouter) : Type 0 where
  pub ordered : IsOrdered r.buffers
  pub counted :
      (k : Text) → count (eqb k) r.lru + (if eqb k sid then missing else 0) ≡ present k r.buffers
  pub sized : length r.lru + missing ≡ length r.buffers

pub present_le : {V : Type 0} (k : Text) (m : BTreeMap Text V) → present k m ≤ 1
present_le k m = ground arith

module _ (env : Env) where
  -- What a closing does to the buffers and to the index, whether it finds a buffer or not.
  pub close_buffer_fields :
      (sid : Text) (reason : CloseReason) (r : SessionRouter)
      → let r' = (close_buffer env sid reason r).0 in
        (r'.buffers ≡ remove sid r.buffers) × (r'.lru ≡ forget sid r.lru) × (r'.cap ≡ r.cap)
  unfolding close_buffer
  close_buffer_fields sid reason r = elim (Option-cases (get sid r.buffers)) [
    | inl e ↦ rw (e, close_buffer) (sym (remove-absent sid r.buffers e), refl, refl)
    | inr (b, e) ↦ rw (e, close_buffer) (refl, refl, refl)
  ]

  -- A closing keeps the index right, where the session is not the one that it lacks.
  pub close_buffer-Indexes :
      (sid : Text) (reason : CloseReason) (r : SessionRouter)
      → Indexes sid 0 r
      → Indexes sid 0 (close_buffer env sid reason r).0
  close_buffer-Indexes sid reason r h =
      let fields = close_buffer_fields sid reason r in
      let r' = (close_buffer env sid reason r).0 in
      record {
        ordered = rw (fields.0) (remove-IsOrdered sid r.buffers h.ordered);
        counted = λ k.
            rw (fields.0, fields.1)
              (ground (
                arith,
                h.counted k,
                count-forget k sid r.lru,
                present_le k r.buffers,
                present-remove k sid r.buffers h.ordered,
              ));
        sized =
            rw (fields.0, fields.1)
              (ground (
                arith,
                h.counted sid,
                length-forget sid r.lru,
                length-remove sid r.buffers,
                h.sized,
                present_le sid r.buffers,
                eqb_iff sid sid,
              ));
      }

  evict_front_lem :
      (victim : Text) (rest : List Text) (r : SessionRouter)
      → evict_front env (victim ∷ rest) r
        ≡ (close_buffer env victim capacity_evict (record r { lru = rest })).0
  unfolding evict_front
  evict_front_lem victim rest r = refl

  -- The eviction of the least recent session closes one session, and keeps the index.
  pub evict_front-Indexes :
      (sid victim : Text) (rest : List Text) (missing : ℕ) (r : SessionRouter)
      → r.lru ≡ victim ∷ rest
      → Indexes sid missing r
      → let r' = evict_front env (victim ∷ rest) r in
        Indexes sid missing r'
        × (length r'.buffers + 1 ≡ length r.buffers)
        × (r'.cap ≡ r.cap)
        × (r'.buffers ≡ remove victim r.buffers)
        × (present victim r.buffers ≡ 1)
  evict_front-Indexes sid victim rest missing r e h =
      let fields = close_buffer_fields victim capacity_evict (record r { lru = rest }) in
      let popped : (k : Text)
          → count (eqb k) rest
              + (if eqb k victim then 1 else 0)
              + (if eqb k sid then missing else 0)
            ≡ present k r.buffers =
        λ k. ground (arith, h.counted k, e) in
      let here : present victim r.buffers ≡ 1 =
        ground (arith, popped victim, present_le victim r.buffers, eqb_iff victim victim) in
      rw (evict_front_lem victim rest r, fields.0, fields.2)
        (
          record {
            ordered = rw fields.0 (remove-IsOrdered victim r.buffers h.ordered);
            counted = λ k.
                rw (fields.0, fields.1)
                  (ground (
                    arith,
                    popped k,
                    count-forget k victim rest,
                    present_le k r.buffers,
                    present-remove k victim r.buffers h.ordered,
                  ));
            sized =
                rw (fields.0, fields.1)
                  (ground (
                    arith,
                    e,
                    here,
                    popped victim,
                    length-forget victim rest,
                    length-remove victim r.buffers,
                    h.sized,
                    eqb_iff victim victim,
                  ));
          },
          omega (arith, here, length-remove victim r.buffers),
          refl,
          refl,
          here,
        )
