-- ===== src/Otlp/History.antt =====
-- The router over its whole life: any sequence of batches, sweeps, closings and flushes.
use agentprof.Base.{ℕ, ◌≡◌, Option, List, [], ◌++◌, arith, ◌∙◌}
use agentprof.Base.Sort.{sum_by-append, sum_by}
use agentprof.Order.{Text}
use agentprof.Event.{Instant}
use agentprof.Otlp.Typed.{TypedEvent}
use agentprof.Otlp.Buffer.{CloseReason, idle, SessionBufferCaps}
use agentprof.Otlp.Routing.{
  Env, SessionRouter, new_router, ingest, close_each, sweep_idle, flush_all, keys,
}
use agentprof.Otlp.Admission.{IsWithin}
use agentprof.Otlp.Limits.{new_router-IsWithin, ingest-IsWithin, close_each-IsWithin}
use agentprof.Otlp.Conserved.{accepted, IgnoresOpen, total, ingest-total, close_each-total}
use agentprof.Otlp.Shutdown.{Visits, flush_all-buffers}
use agentprof.Otlp.Isolation.{IsIsolated, ingest-IsIsolated, close_each-IsIsolated}

-- The routers that a sequence of calls leads to, with the events that they accepted. The clocks,
-- the iteration orders and the sink may differ from call to call.
pub data Reach (caps : SessionBufferCaps) : List TypedEvent → SessionRouter → Type 0 where
  start : Reach caps [] (new_router caps)
  batch :
      {es : List TypedEvent} {r : SessionRouter}
      → Reach caps es r
      → (env : Env) (b : List (Instant × Option TypedEvent))
      → Reach caps (es ++ accepted b) (ingest env b r)
  sweep :
      {es : List TypedEvent} {r : SessionRouter}
      → Reach caps es r
      → (env : Env) (now : Instant) → Reach caps es (sweep_idle env now r).0
  close :
      {es : List TypedEvent} {r : SessionRouter}
      → Reach caps es r
      → (env : Env) (ids : List Text) (reason : CloseReason)
      → Reach caps es (close_each env ids reason r).0
  flush :
      {es : List TypedEvent} {r : SessionRouter}
      → Reach caps es r
      → (env : Env) (reason : CloseReason) → Reach caps es (flush_all env reason r).0

-- A sweep and a flush are closings.
sweep_idle_rule :
    (P : SessionRouter → Type 0) (env : Env) (now : Instant) (r : SessionRouter)
    → ((ids : List Text) → P (close_each env ids idle r).0)
    → P (sweep_idle env now r).0
unfolding sweep_idle
sweep_idle_rule P env now r closes = closes (sweep_idle env now r).1

flush_all_rule :
    (P : SessionRouter → Type 0) (env : Env) (reason : CloseReason) (r : SessionRouter)
    → ((ids : List Text) → P (close_each env ids reason r).0)
    → P (flush_all env reason r).0
unfolding flush_all
flush_all_rule P env reason r closes = closes (env.visit (keys r.buffers))

sweep_idle-total :
    (g : TypedEvent → ℕ) (i : IgnoresOpen g) (env : Env) (now : Instant) (r : SessionRouter)
    → total g (sweep_idle env now r).0 ≡ total g r
sweep_idle-total g i env now r =
    sweep_idle_rule (λ r'. total g r' ≡ total g r) env now r
      (λ ids. close_each-total g i env ids idle r)

flush_all-total :
    (g : TypedEvent → ℕ) (i : IgnoresOpen g) (env : Env) (reason : CloseReason) (r : SessionRouter)
    → total g (flush_all env reason r).0 ≡ total g r
flush_all-total g i env reason r =
    flush_all_rule (λ r'. total g r' ≡ total g r) env reason r
      (λ ids. close_each-total g i env ids reason r)

module _ (caps : SessionBufferCaps) where
  -- At every point of its life the router is within its limits: the open sessions are at most
  -- `max_open_sessions`, or one if that is zero, each open session is within the limits on bytes
  -- and events, and the index of the recent sessions has each open one once and no other.
  pub Reach-IsWithin : {es : List TypedEvent} {r : SessionRouter} → Reach caps es r → IsWithin r
  Reach-IsWithin start = new_router-IsWithin caps
  Reach-IsWithin (batch h env b) = ingest-IsWithin env b _ (Reach-IsWithin h)
  Reach-IsWithin (sweep h env now) =
      sweep_idle_rule IsWithin env now _
        (λ ids. close_each-IsWithin env ids idle _ (Reach-IsWithin h))
  Reach-IsWithin (close h env ids reason) = close_each-IsWithin env ids reason _ (Reach-IsWithin h)
  Reach-IsWithin (flush h env reason) =
      flush_all_rule IsWithin env reason _
        (λ ids. close_each-IsWithin env ids reason _ (Reach-IsWithin h))

  -- At every point of the router's life no buffer and no session at the sink holds an event of
  -- another session.
  pub Reach-IsIsolated : {es : List TypedEvent} {r : SessionRouter} → Reach caps es r → IsIsolated r
  Reach-IsIsolated start = record { buffered = tt; flushed = tt }
  Reach-IsIsolated (batch h env b) = ingest-IsIsolated env b _ (Reach-IsIsolated h)
  Reach-IsIsolated (sweep h env now) =
      sweep_idle_rule IsIsolated env now _
        (λ ids. close_each-IsIsolated env ids idle _ (Reach-IsIsolated h))
  Reach-IsIsolated (close h env ids reason) =
      close_each-IsIsolated env ids reason _ (Reach-IsIsolated h)
  Reach-IsIsolated (flush h env reason) =
      flush_all_rule IsIsolated env reason _
        (λ ids. close_each-IsIsolated env ids reason _ (Reach-IsIsolated h))

  -- No accepted event is lost or doubled: every number of events that ignores the results by
  -- which the router closes open calls adds up, over the buffers and the sessions at the sink, to
  -- its sum over the accepted events.
  pub Reach-total :
      {es : List TypedEvent} {r : SessionRouter}
      → Reach caps es r
      → (g : TypedEvent → ℕ) → IgnoresOpen g
      → total g r ≡ sum_by g es
  Reach-total start g i = omega arith
  Reach-total (batch h env b) g i =
      omega (arith, ingest-total g i env b _, Reach-total h g i, sum_by-append g _ (accepted b))
  Reach-total (sweep h env now) g i = sweep_idle-total g i env now _ ∙ Reach-total h g i
  Reach-total (close h env ids reason) g i =
      close_each-total g i env ids reason _ ∙ Reach-total h g i
  Reach-total (flush h env reason) g i = flush_all-total g i env reason _ ∙ Reach-total h g i

  -- A flush, whose iteration visits each buffer, leaves no session open and has given every
  -- accepted event to the sink exactly once, whatever the sink answers.
  pub flush_all_delivers :
      {es : List TypedEvent} {r : SessionRouter}
      → Reach caps es r
      → (env : Env) (reason : CloseReason) → Visits env
      → (g : TypedEvent → ℕ) → IgnoresOpen g
      → let r' = (flush_all env reason r).0 in
        (r'.buffers ≡ []) × (sum_by (λ p. sum_by g p.events) r'.flushed ≡ sum_by g es)
  flush_all_delivers {es} {r} h env reason visits g i =
      let r' = (flush_all env reason r).0 in
      let empty : r'.buffers ≡ [] =
        flush_all-buffers env reason r visits (Reach-IsWithin h).indexes.ordered in
      (empty, ground (arith, empty, Reach-total (flush h env reason) g i))
