-- ===== src/Otlp/Shutdown.antt =====
-- What a sweep and a shutdown leave open, whatever the sink answers.
use Prim.Native.Nat.{Ordering}
use agentprof.Base.{
  ◌≡◌, Bool, true, false, Option, none, some, List, [], ◌∷◌, filter, any, arith, refl,
  if◌then◌else◌, ap,
}
use agentprof.Order.{Text, text_ord, eqb, cmp_refl}
use agentprof.Map.{BTreeMap, get, get-remove, IsOrdered, IsBelow, IsBelow-trans, remove-IsOrdered}
use agentprof.Event.{Instant}
use agentprof.Otlp.Buffer.{CloseReason, idle, SessionBuffer}
use agentprof.Otlp.Routing.{
  Env, SessionRouter, close_buffer, close_each, keys, is_stale, sweep_idle, flush_all,
}
use agentprof.Otlp.Index.{close_buffer_fields}

-- The iteration over a map yields each of its keys.
abbrev pub Visits : Env → Type 0
Visits env = (k : Text) (ks : List Text) → any (eqb k) (env.visit ks) ≡ any (eqb k) ks

-- A buffer that may be absent passes a test.
abbrev pub passes : (SessionBuffer → Bool) → Option SessionBuffer → Bool
passes p none = false
passes p (some b) = p b

any_below :
    (k : Text) (p : SessionBuffer → Bool) (m : BTreeMap Text SessionBuffer)
    → IsBelow k m
    → any (eqb k) (keys (filter (λ e. p e.1) m)) ≡ false
any_below k p [] h = refl
any_below k p ((j, b) ∷ m) h = ground (arith, h.0, any_below k p m h.1)

any_below_lt :
    (k j : Text) (p : SessionBuffer → Bool) (m : BTreeMap Text SessionBuffer)
    → IsBelow j m
    → text_ord.cmp k j ≡ Ordering.lt
    → any (eqb k) (keys (filter (λ e. p e.1) m)) ≡ false
any_below_lt k j p m h e = any_below k p m (IsBelow-trans k j m e h)

any_below_eq :
    (k j : Text) (p : SessionBuffer → Bool) (m : BTreeMap Text SessionBuffer)
    → IsBelow j m
    → k ≡ j
    → any (eqb k) (keys (filter (λ e. p e.1) m)) ≡ false
any_below_eq k j p m h e = rw e (any_below j p m h)

any-keys :
    (k : Text) (p : SessionBuffer → Bool) (m : BTreeMap Text SessionBuffer)
    → IsOrdered m
    → any (eqb k) (keys (filter (λ e. p e.1) m)) ≡ passes p (get k m)
unfolding get
any-keys k p [] h = refl
any-keys k p ((j, b) ∷ m) h = ground (
  arith,
  text_ord.cmp_eq k j,
  any_below_lt k j p m h.0,
  any_below_eq k j p m h.0,
  any-keys k p m h.1,
)

filter-true : (m : BTreeMap Text SessionBuffer) → filter (λ e. true) m ≡ m
filter-true [] = refl
filter-true (e ∷ m) = ap (λ l. e ∷ l) (filter-true m)

-- A map in which nothing is found has no entry.
get-none : (m : BTreeMap Text SessionBuffer) → ((k : Text) → get k m ≡ none) → m ≡ []
unfolding get
get-none [] h = refl
get-none ((j, b) ∷ m) h = absurd (ground (arith, h j, cmp_refl j))

module _ (env : Env) where
  get-close_each :
      (ids : List Text) (reason : CloseReason) (k : Text) (r : SessionRouter)
      → IsOrdered r.buffers
      → get k (close_each env ids reason r).0.buffers
        ≡ (if any (eqb k) ids then none else get k r.buffers)
  unfolding close_each
  get-close_each [] reason k r h = refl
  get-close_each (id ∷ ids) reason k r h =
      let r' = (close_buffer env id reason r).0 in
      let fields = close_buffer_fields env id reason r in
      let ordered : IsOrdered r'.buffers = rw (fields.0) (remove-IsOrdered id r.buffers h) in
      ground (arith, fields.0, get-remove k id r.buffers h, get-close_each ids reason k r' ordered)

  -- A sweep closes exactly the sessions that were idle for longer than the timeout: behind it a
  -- session is found as before if it was not idle for so long, and not at all if it was.
  pub get-sweep_idle :
      (now : Instant) (k : Text) (r : SessionRouter)
      → Visits env
      → IsOrdered r.buffers
      → get k (sweep_idle env now r).0.buffers
        ≡ (if passes (is_stale now r.cap) (get k r.buffers) then none else get k r.buffers)
  unfolding sweep_idle
  get-sweep_idle now k r visits h = ground (
    arith,
    get-close_each (sweep_idle env now r).1 idle k r h,
    visits k (keys (filter (λ e. is_stale now r.cap e.1) r.buffers)),
    any-keys k (is_stale now r.cap) r.buffers h,
  )

  -- The shutdown leaves no session open, even if the sink fails.
  pub flush_all-buffers :
      (reason : CloseReason) (r : SessionRouter)
      → Visits env
      → IsOrdered r.buffers
      → (flush_all env reason r).0.buffers ≡ []
  unfolding flush_all
  flush_all-buffers reason r visits h = get-none _ λ k. ground (
    arith,
    get-close_each (env.visit (keys r.buffers)) reason k r h,
    visits k (keys r.buffers),
    any-keys k (λ b. true) r.buffers h,
    filter-true r.buffers,
  )
