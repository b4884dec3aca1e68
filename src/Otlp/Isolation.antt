-- ===== src/Otlp/Isolation.antt =====
-- A session gets its own events only, in the buffers and at the sink.
use agentprof.Base.{
  ℕ, ◌≡◌, Option, none, some, List, [], ◌∷◌, map, arith, refl, All, All-append, Bool-cases,
  Option-cases, inl, inr, sym, subst,
}
use agentprof.Base.Sort.{All-sort_by}
use agentprof.Order.{Text, text_ord}
use agentprof.Map.{BTreeMap, get, upsert, remove, AllEntries, AllEntries-upsert, AllEntries-get}
use agentprof.Event.{Instant}
use agentprof.Otlp.Typed.{TypedEvent, session_id_of}
use agentprof.Otlp.Buffer.{
  CloseReason, capacity_evict, OpenCalls, SessionBuffer, new_buffer, push, note_event, open_result,
  earlier, into_persistable,
}
use agentprof.Otlp.Routing.{
  Env, SessionRouter, close_buffer, evict_front, admit, push_event, close_if, touch_lru, ingest_one,
  route, ingest, close_each,
}
use agentprof.Otlp.Conserved.{push_events}
use agentprof.Otlp.Admission.{with_buffer, is_over}
use agentprof.Otlp.Limits.{pushed, ingest_one_lem, route_lem}

-- All events are of one session.
abbrev pub AllOf : Text → List TypedEvent → Type 0
AllOf sid events = All (λ e. session_id_of e ≡ some sid) events

abbrev pub IsOwn : Text → SessionBuffer → Type 0
IsOwn sid b = (b.session_id ≡ sid) × AllOf sid b.events

-- No buffer and no session at the sink has an event of another session.
pub record IsIsolated (r : SessionRouter) : Type 0 where
  pub buffered : AllEntries IsOwn r.buffers
  pub flushed : All (λ p. AllOf p.session_id p.events) r.flushed

AllEntries-remove :
    (P : Text → SessionBuffer → Type 0) (k : Text) (m : BTreeMap Text SessionBuffer)
    → AllEntries P m
    → AllEntries P (remove k m)
unfolding remove
AllEntries-remove P k [] h = tt
AllEntries-remove P k ((j, b) ∷ m) h = ground (arith, AllEntries-remove P k m)

pub push_session_id :
    (base : ℕ) (now : Instant) (event : TypedEvent) (b : SessionBuffer)
    → (push base now event b).session_id ≡ b.session_id
unfolding push note_event
push_session_id base now event b = ground arith

push-IsOwn :
    (sid : Text) (base : ℕ) (now : Instant) (event : TypedEvent) (b : SessionBuffer)
    → session_id_of event ≡ some sid
    → IsOwn sid b
    → IsOwn sid (push base now event b)
push-IsOwn sid base now event b e h =
    rw (IsOwn, push_session_id base now event b, push_events base now event b)
      (h.0, All-append (λ e. session_id_of e ≡ some sid) b.events (event ∷ []) h.1 (e, tt))

open_results-AllOf :
    (sid : Text) (at : Instant) (calls : OpenCalls) → AllOf sid (map (open_result sid at) calls)
open_results-AllOf sid at [] = tt
open_results-AllOf sid at (c ∷ calls) = (refl, open_results-AllOf sid at calls)

into_persistable-AllOf :
    (drain : OpenCalls → OpenCalls) (utc_now : Instant) (sid : Text) (b : SessionBuffer)
    (reason : CloseReason)
    → IsOwn sid b
    → let p = into_persistable drain utc_now b reason in AllOf p.session_id p.events
unfolding into_persistable
into_persistable-AllOf drain utc_now sid b reason h =
    All-sort_by earlier (λ e. session_id_of e ≡ some b.session_id) _
      (All-append (λ e. session_id_of e ≡ some b.session_id) b.events _
        (subst (λ s. AllOf s b.events) (sym h.0) h.1)
        (open_results-AllOf b.session_id _ (drain b.open_tool_calls)))

module _ (env : Env) where
  close_buffer-IsIsolated :
      (sid : Text) (reason : CloseReason) (r : SessionRouter)
      → IsIsolated r
      → IsIsolated (close_buffer env sid reason r).0
  unfolding close_buffer
  close_buffer-IsIsolated sid reason r h = elim (Option-cases (get sid r.buffers)) [
    | inl e ↦ rw (e, close_buffer) (record { buffered = h.buffered; flushed = h.flushed })
    | inr (b, e) ↦
        rw (e, close_buffer)
          (record {
            buffered = AllEntries-remove IsOwn sid r.buffers h.buffered;
            flushed =
                All-append (λ p. AllOf p.session_id p.events) r.flushed _ h.flushed
                  (
                    into_persistable-AllOf env.drain env.utc_now sid b reason
                        (AllEntries-get IsOwn sid b r.buffers h.buffered e),
                    tt,
                  );
          })
  ]

  evict_front-IsIsolated :
      (lru : List Text) (r : SessionRouter) → IsIsolated r → IsIsolated (evict_front env lru r)
  unfolding evict_front
  evict_front-IsIsolated [] r h = h
  evict_front-IsIsolated (victim ∷ rest) r h =
      close_buffer-IsIsolated victim capacity_evict (record r { lru = rest })
        (record { buffered = h.buffered; flushed = h.flushed })

  upsert-IsOwn :
      (now : Instant) (sid : Text) (f : SessionBuffer → SessionBuffer)
      (m : BTreeMap Text SessionBuffer)
      → ((b : SessionBuffer) → IsOwn sid b → IsOwn sid (f b))
      → AllEntries IsOwn m
      → AllEntries IsOwn (upsert sid (new_buffer sid now) f m)
  upsert-IsOwn now sid f m keep h =
      AllEntries-upsert IsOwn sid (new_buffer sid now) f m (keep (new_buffer sid now) (refl, tt))
        (λ j b same own.
          subst (λ s. IsOwn s (f b)) same (keep b (subst (λ s. IsOwn s b) (sym same) own)))
        h

  admit-IsIsolated :
      (now : Instant) (sid : Text) (r : SessionRouter)
      → IsIsolated r
      → IsIsolated (admit env now sid r)
  unfolding admit
  admit-IsIsolated now sid r h =
      let wider : IsIsolated (with_buffer env now sid r) = record {
        buffered = upsert-IsOwn now sid (λ b. b) r.buffers (λ b own. own) h.buffered;
        flushed = h.flushed;
      } in
      elim (Bool-cases (is_over env now sid r)) [
        | inl e ↦ rw (e, admit) (evict_front-IsIsolated r.lru (with_buffer env now sid r) wider)
        | inr e ↦ rw (e, admit) wider
      ]

  close_if-IsIsolated :
      (reason : Option CloseReason) (sid : Text) (r : SessionRouter)
      → IsIsolated r
      → IsIsolated (close_if env reason sid r)
  unfolding close_if
  close_if-IsIsolated none sid r h = h
  close_if-IsIsolated (some reason) sid r h = close_buffer-IsIsolated sid reason r h

  push_event-IsIsolated :
      (now : Instant) (sid : Text) (event : TypedEvent) (r : SessionRouter)
      → session_id_of event ≡ some sid
      → IsIsolated r
      → IsIsolated (push_event env now sid event r)
  unfolding push_event touch_lru
  push_event-IsIsolated now sid event r e h =
      let f = push env.event_size now event in
      close_if-IsIsolated _ sid (pushed env now sid event r) (record {
        buffered =
            upsert-IsOwn now sid f r.buffers
              (λ b own. push-IsOwn sid env.event_size now event b e own) h.buffered;
        flushed = h.flushed;
      })

  ingest_one-IsIsolated :
      (e : Instant × Option TypedEvent) (r : SessionRouter)
      → IsIsolated r
      → IsIsolated (ingest_one env e r)
  ingest_one-IsIsolated (now, none) r h = unfold ingest_one in h
  ingest_one-IsIsolated (now, some event) r h = elim (Option-cases (session_id_of event)) [
    | inl e ↦ rw (ingest_one_lem env now event r, e) (unfold route in h)
    | inr (sid, e) ↦
        rw (ingest_one_lem env now event r, e, route_lem env sid now event r)
          (push_event-IsIsolated now sid event (admit env now sid r) e
            (admit-IsIsolated now sid r h))
  ]

  -- A batch keeps the sessions apart.
  pub ingest-IsIsolated :
      (es : List (Instant × Option TypedEvent)) (r : SessionRouter)
      → IsIsolated r
      → IsIsolated (ingest env es r)
  unfolding ingest
  ingest-IsIsolated [] r h = h
  ingest-IsIsolated (e ∷ es) r h =
      ingest-IsIsolated es (ingest_one env e r) (ingest_one-IsIsolated e r h)

  -- So do closings.
  pub close_each-IsIsolated :
      (ids : List Text) (reason : CloseReason) (r : SessionRouter)
      → IsIsolated r
      → IsIsolated (close_each env ids reason r).0
  unfolding close_each
  close_each-IsIsolated [] reason r h = h
  close_each-IsIsolated (id ∷ ids) reason r h =
      close_each-IsIsolated ids reason (close_buffer env id reason r).0
        (close_buffer-IsIsolated id reason r h)
