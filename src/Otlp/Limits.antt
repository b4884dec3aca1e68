-- ===== src/Otlp/Limits.antt =====
-- The router's limits: at most so many sessions are open, no open session is over its limits, and
-- the index of the recent sessions has exactly the open ones.
use agentprof.Base.{
  ℕ, ◌≤◌, ◌≡◌, Option, none, some, List, [], ◌∷◌, max, length, count-append, length-append, arith,
  refl, Option-cases, inl, inr, sym, subst,
}
use agentprof.Order.{Text, text_ord, eqb, eqb_iff}
use agentprof.Map.{get, upsert, get-upsert, or_default, upsert-IsOrdered}
use agentprof.Event.{Instant}
use agentprof.Otlp.Typed.{TypedEvent, session_id_of}
use agentprof.Otlp.Buffer.{CloseReason, SessionBufferCaps, SessionBuffer, new_buffer, push}
use agentprof.Otlp.Routing.{
  Env, SessionRouter, new_router, forget, touch_lru, close_buffer, admit, trigger, push_event,
  route, ingest_one, ingest, close_each,
}
use agentprof.Otlp.Admission.{
  IsCapped, IsWithin, IsAdmitted, Indexes-zero, get-upsert_cases, close_buffer-IsWithin,
  admit-IsAdmitted,
}
use agentprof.Otlp.Index.{
  present, length-upsert, present-upsert, count-forget, length-forget, Indexes,
}

module _ (env : Env) where
  -- The router behind a push and the touch of the index.
  abbrev pub pushed : Instant → Text → TypedEvent → SessionRouter → SessionRouter
  pushed now sid event r = touch_lru sid (record r {
    buffers = upsert sid (new_buffer sid now) (push env.event_size now event) r.buffers;
  })

  pushed-Indexes :
      (now : Instant) (sid : Text) (event : TypedEvent) (missing : ℕ) (r : SessionRouter)
      → Indexes sid missing r
      → present sid r.buffers ≡ 1
      → Indexes sid 0 (pushed now sid event r)
  unfolding touch_lru
  pushed-Indexes now sid event missing r h here =
      let f = push env.event_size now event in
      record {
        ordered = upsert-IsOrdered sid (new_buffer sid now) f r.buffers h.ordered;
        counted = λ k. ground (
          arith,
          h.counted k,
          here,
          eqb_iff k sid,
          count-forget k sid r.lru,
          count-append (eqb k) (forget sid r.lru) (sid ∷ []),
          present-upsert k sid (new_buffer sid now) f r.buffers,
        );
        sized = ground (
          arith,
          h.sized,
          h.counted sid,
          here,
          eqb_iff sid sid,
          length-forget sid r.lru,
          length-append (forget sid r.lru) (sid ∷ []),
          length-upsert sid (new_buffer sid now) f r.buffers,
        );
      }

  trigger-IsCapped :
      (cap : SessionBufferCaps) (event : TypedEvent) (b : SessionBuffer)
      → trigger cap event b ≡ none
      → IsCapped cap b
  unfolding trigger
  trigger-IsCapped cap event b h = record { bytes = ground arith; events = ground arith }

  push_event-IsWithin :
      (now : Instant) (sid : Text) (event : TypedEvent) (missing : ℕ) (r : SessionRouter)
      → IsAdmitted sid missing r
      → IsWithin (push_event env now sid event r)
  unfolding push_event touch_lru
  push_event-IsWithin now sid event missing r h =
      let f = push env.event_size now event in
      let buf = f (or_default (new_buffer sid now) (get sid r.buffers)) in
      let r' = pushed now sid event r in
      let indexes = pushed-Indexes now sid event missing r h.indexes h.here in
      let len : length r'.buffers ≤ max 1 r.cap.max_open_sessions =
        omega (arith, length-upsert sid (new_buffer sid now) f r.buffers, h.here, h.bounded) in
      elim (Option-cases (trigger r.cap event buf)) [
        | inr (reason, e) ↦
            rw (e, push_event)
              (close_buffer-IsWithin env sid reason r' indexes len (λ k b other found.
                h.capped k b (
                  ground (arith, found, other, get-upsert k sid (new_buffer sid now) f r.buffers))))
        | inl e ↦
            rw (e, push_event)
              (record {
                indexes = Indexes-zero sid [] r' indexes;
                bounded = len;
                capped = λ k b found.
                    elim (get-upsert_cases k sid (new_buffer sid now) f r.buffers b found) [
                      | inl (other, old) ↦ h.capped k b old
                      | inr (same, value) ↦
                          subst (IsCapped r.cap) (sym value) (trigger-IsCapped r.cap event buf e)
                    ];
              })
      ]

  pub ingest_one_lem :
      (now : Instant) (event : TypedEvent) (r : SessionRouter)
      → ingest_one env (now, some event) r ≡ route env (session_id_of event) now event r
  unfolding ingest_one
  ingest_one_lem now event r = refl

  pub route_lem :
      (sid : Text) (now : Instant) (event : TypedEvent) (r : SessionRouter)
      → route env (some sid) now event r ≡ push_event env now sid event (admit env now sid r)
  unfolding route
  route_lem sid now event r = refl

  ingest_one-IsWithin :
      (e : Instant × Option TypedEvent) (r : SessionRouter)
      → IsWithin r
      → IsWithin (ingest_one env e r)
  ingest_one-IsWithin (now, none) r h = unfold ingest_one in h
  ingest_one-IsWithin (now, some event) r h = elim (Option-cases (session_id_of event)) [
    | inl e ↦ rw (ingest_one_lem now event r, e) (unfold route in h)
    | inr (sid, e) ↦
        rw (ingest_one_lem now event r, e, route_lem sid now event r)
          (push_event-IsWithin now sid event _ (admit env now sid r)
            (admit-IsAdmitted env now sid r h))
  ]

  -- A batch keeps the limits.
  pub ingest-IsWithin :
      (es : List (Instant × Option TypedEvent)) (r : SessionRouter)
      → IsWithin r
      → IsWithin (ingest env es r)
  unfolding ingest
  ingest-IsWithin [] r h = h
  ingest-IsWithin (e ∷ es) r h = ingest-IsWithin es (ingest_one env e r) (ingest_one-IsWithin e r h)

  -- So do any closings.
  pub close_each-IsWithin :
      (ids : List Text) (reason : CloseReason) (r : SessionRouter)
      → IsWithin r
      → IsWithin (close_each env ids reason r).0
  unfolding close_each
  close_each-IsWithin [] reason r h = h
  close_each-IsWithin (id ∷ ids) reason r h =
      close_each-IsWithin ids reason (close_buffer env id reason r).0 (
        close_buffer-IsWithin env id reason r (Indexes-zero [] id r h.indexes) h.bounded
          (λ k b other. h.capped k b))

-- A router starts within its limits.
pub new_router-IsWithin : (caps : SessionBufferCaps) → IsWithin (new_router caps)
unfolding get
new_router-IsWithin caps = record {
  indexes = record { ordered = tt; counted = λ k. ground arith; sized = omega arith };
  bounded = omega arith;
  capped = λ k b found. absurd (ground arith);
}
