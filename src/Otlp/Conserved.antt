-- ===== src/Otlp/Conserved.antt =====
-- No event is lost and none is doubled: what the router takes in stands in a buffer or has gone to
-- the sink.
use agentprof.Base.{
  ℕ, ◌+◌, ◌≡◌, Option, none, some, List, [], ◌∷◌, ◌++◌, map, arith, refl, Bool-cases, Option-cases,
  inl, inr, ap, ◌∙◌,
}
use agentprof.Base.Sort.{sum_by-append, sum_by, sum_by-sort_by}
use agentprof.Order.{Text, text_ord}
use agentprof.Map.{get, or_default, sum_values, weight, sum_values-upsert_at, sum_values-remove}
use agentprof.Event.{Instant}
use agentprof.Episode.{open_at_end_of_session}
use agentprof.Otlp.Typed.{TypedEvent, tool_result, session_id_of}
use agentprof.Otlp.Buffer.{
  CloseReason, capacity_evict, OpenCalls, SessionBuffer, new_buffer, push, note_event, open_result,
  earlier, into_persistable,
}
use agentprof.Otlp.Routing.{
  Env, SessionRouter, close_buffer, evict_front, admit, push_event, close_if, trigger, touch_lru,
  ingest_one, route, ingest, close_each,
}
use agentprof.Otlp.Admission.{with_buffer, is_over}
use agentprof.Otlp.Limits.{pushed, ingest_one_lem, route_lem}

pub push_events :
    (base : ℕ) (now : Instant) (event : TypedEvent) (b : SessionBuffer)
    → (push base now event b).events ≡ b.events ++ event ∷ []
unfolding push note_event
push_events base now event b = ground arith

-- The events of a batch that belong to a session.
abbrev pub accepted : List (Instant × Option TypedEvent) → List TypedEvent
accepted [] = []
accepted ((now, none) ∷ es) = accepted es
accepted ((now, some event) ∷ es) = elim (session_id_of event) [
  | none ↦ accepted es
  | some sid ↦ event ∷ accepted es
]

-- A number of an event that is zero for the results that close open calls.
abbrev pub IgnoresOpen : (TypedEvent → ℕ) → Type 0
IgnoresOpen g =
    (session_id : Text) (turn_id : Option Text) (tool_name : Text) (at : Instant)
    → g (tool_result session_id turn_id tool_name at open_at_end_of_session) ≡ 0

-- The sum of a number over the events of all buffers and of all sessions at the sink.
abbrev pub total : (TypedEvent → ℕ) → SessionRouter → ℕ
total g r =
    sum_values (λ b. sum_by g b.events) r.buffers + sum_by (λ p. sum_by g p.events) r.flushed

module _ (g : TypedEvent → ℕ) (ignores : IgnoresOpen g) where
  -- A session without a buffer counts as one with an empty buffer.
  weight_default :
      (sid : Text) (now : Instant) (o : Option SessionBuffer)
      → weight (λ b. sum_by g b.events) o ≡ sum_by g (or_default (new_buffer sid now) o).events
  weight_default sid now none = refl
  weight_default sid now (some b) = refl

  sum_by-push :
      (base : ℕ) (now : Instant) (event : TypedEvent) (b : SessionBuffer)
      → sum_by g (push base now event b).events ≡ sum_by g b.events + g event
  sum_by-push base now event b =
      rw (push_events base now event b) (omega (arith, sum_by-append g b.events (event ∷ [])))

  sum_by-open_result :
      (sid : Text) (at : Instant) (calls : OpenCalls)
      → sum_by g (map (open_result sid at) calls) ≡ 0
  sum_by-open_result sid at [] = refl
  sum_by-open_result sid at (((name, turn), t) ∷ calls) =
      omega (arith, ignores sid turn name at, sum_by-open_result sid at calls)

  sum_by-into_persistable :
      (drain : OpenCalls → OpenCalls) (utc_now : Instant) (b : SessionBuffer) (reason : CloseReason)
      → sum_by g (into_persistable drain utc_now b reason).events ≡ sum_by g b.events
  unfolding into_persistable
  sum_by-into_persistable drain utc_now b reason = omega (
    arith,
    sum_by-sort_by earlier g _,
    sum_by-append g b.events _,
    sum_by-open_result b.session_id _ (drain b.open_tool_calls),
  )

  module _ (env : Env) where
    pub close_buffer-total :
        (sid : Text) (reason : CloseReason) (r : SessionRouter)
        → total g (close_buffer env sid reason r).0 ≡ total g r
    unfolding close_buffer
    close_buffer-total sid reason r = elim (Option-cases (get sid r.buffers)) [
      | inl e ↦ rw (e, close_buffer) refl
      | inr (b, e) ↦
          rw (e, close_buffer)
            (omega (
              arith,
              sum_values-remove (λ b. sum_by g b.events) sid r.buffers,
              ap (weight (λ b. sum_by g b.events)) e,
              sum_by-append (λ p. sum_by g p.events) r.flushed _,
              sum_by-into_persistable env.drain env.utc_now b reason,
            ))
    ]

    evict_front-total :
        (lru : List Text) (r : SessionRouter) → total g (evict_front env lru r) ≡ total g r
    unfolding evict_front
    evict_front-total [] r = refl
    evict_front-total (victim ∷ rest) r =
        close_buffer-total victim capacity_evict (record r { lru = rest })

    with_buffer-total :
        (now : Instant) (sid : Text) (r : SessionRouter)
        → total g (with_buffer env now sid r) ≡ total g r
    with_buffer-total now sid r = omega (
      arith,
      sum_values-upsert_at (λ b. sum_by g b.events) sid (new_buffer sid now) (λ b. b) r.buffers,
      weight_default sid now (get sid r.buffers),
    )

    admit-total :
        (now : Instant) (sid : Text) (r : SessionRouter) → total g (admit env now sid r) ≡ total g r
    unfolding admit
    admit-total now sid r = elim (Bool-cases (is_over env now sid r)) [
      | inl e ↦
          rw (e, admit)
            (evict_front-total r.lru (with_buffer env now sid r) ∙ with_buffer-total now sid r)
      | inr e ↦ rw (e, admit) (with_buffer-total now sid r)
    ]

    close_if-total :
        (reason : Option CloseReason) (sid : Text) (r : SessionRouter)
        → total g (close_if env reason sid r) ≡ total g r
    unfolding close_if
    close_if-total none sid r = refl
    close_if-total (some reason) sid r = close_buffer-total sid reason r

    push_event-total :
        (now : Instant) (sid : Text) (event : TypedEvent) (r : SessionRouter)
        → total g (push_event env now sid event r) ≡ total g r + g event
    unfolding push_event touch_lru
    push_event-total now sid event r =
        let f = push env.event_size now event in
        let b = or_default (new_buffer sid now) (get sid r.buffers) in
        omega (
          arith,
          close_if-total (trigger r.cap event (f b)) sid (pushed env now sid event r),
          sum_values-upsert_at (λ b. sum_by g b.events) sid (new_buffer sid now) f r.buffers,
          weight_default sid now (get sid r.buffers),
          sum_by-push env.event_size now event b,
        )

    ingest_one-total :
        (now : Instant) (e : Option TypedEvent) (r : SessionRouter)
        → total g (ingest_one env (now, e) r) ≡ total g r + sum_by g (accepted ((now, e) ∷ []))
    ingest_one-total now none r = unfold ingest_one in omega arith
    ingest_one-total now (some event) r = elim (Option-cases (session_id_of event)) [
      | inl e ↦ rw (ingest_one_lem env now event r, e) (unfold route in (ground (arith, e)))
      | inr (sid, e) ↦
          rw (ingest_one_lem env now event r, e, route_lem env sid now event r)
            (ground (
              arith,
              e,
              push_event-total now sid event (admit env now sid r),
              admit-total now sid r,
            ))
    ]

    accepted_cons :
        (now : Instant) (e : Option TypedEvent) (es : List (Instant × Option TypedEvent))
        → sum_by g (accepted ((now, e) ∷ es))
          ≡ sum_by g (accepted ((now, e) ∷ [])) + sum_by g (accepted es)
    accepted_cons now none es = omega arith
    accepted_cons now (some event) es = ground arith

    -- A batch adds exactly its accepted events.
    pub ingest-total :
        (es : List (Instant × Option TypedEvent)) (r : SessionRouter)
        → total g (ingest env es r) ≡ total g r + sum_by g (accepted es)
    unfolding ingest
    ingest-total [] r = omega arith
    ingest-total ((now, e) ∷ es) r = omega (
      arith,
      ingest-total es (ingest_one env (now, e) r),
      ingest_one-total now e r,
      accepted_cons now e es,
    )

    -- Closings add and lose nothing.
    pub close_each-total :
        (ids : List Text) (reason : CloseReason) (r : SessionRouter)
        → total g (close_each env ids reason r).0 ≡ total g r
    unfolding close_each
    close_each-total [] reason r = refl
    close_each-total (id ∷ ids) reason r =
        close_each-total ids reason (close_buffer env id reason r).0
        ∙ close_buffer-total id reason r
