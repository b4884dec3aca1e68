-- ===== src/Otlp/Sweeper.antt =====
-- crates/agentprof-storage/src/otlp/sweeper.rs: the task that sweeps the router at each tick until
-- it is cancelled, and then flushes it. The calls of the listeners come before it here; History
-- has them between its steps.
use agentprof.Base.{ℕ, ◌≡◌, List, [], ◌∷◌}
use agentprof.Base.Sort.{sum_by}
use agentprof.Event.{Instant}
use agentprof.Otlp.Typed.{TypedEvent}
use agentprof.Otlp.Buffer.{SessionBufferCaps, shutdown}
use agentprof.Otlp.Routing.{Env, SessionRouter, sweep_idle, flush_all}
use agentprof.Otlp.Conserved.{IgnoresOpen}
use agentprof.Otlp.Shutdown.{Visits}
use agentprof.Otlp.History.{Reach, sweep, flush_all_delivers}

-- The ticks before the cancellation.
unfoldable pub tick_all : List (Env × Instant) → SessionRouter → SessionRouter
tick_all [] r = r
tick_all ((env, now) ∷ ticks) r = tick_all ticks (sweep_idle env now r).0

unfoldable pub run_sweeper : List (Env × Instant) → Env → SessionRouter → SessionRouter
unfolding tick_all
run_sweeper ticks env r = (flush_all env shutdown (tick_all ticks r)).0

module _ (caps : SessionBufferCaps) where
  tick_all-Reach :
      (ticks : List (Env × Instant)) (es : List TypedEvent) (r : SessionRouter)
      → Reach caps es r
      → Reach caps es (tick_all ticks r)
  unfolding tick_all
  tick_all-Reach [] es r h = h
  tick_all-Reach ((env, now) ∷ ticks) es r h =
      tick_all-Reach ticks es (sweep_idle env now r).0 (sweep h env now)

  -- When the sweeper of a router, with any life so far and any ticks, has been cancelled and has
  -- flushed, no session is open and every accepted event has gone to the sink exactly once,
  -- whatever the sink answers, if the flush's iteration visits each buffer.
  pub run_sweeper_delivers :
      (es : List TypedEvent) (r : SessionRouter)
      → Reach caps es r
      → (ticks : List (Env × Instant)) (env : Env) → Visits env
      → (g : TypedEvent → ℕ) → IgnoresOpen g
      → let r' = run_sweeper ticks env r in
        (r'.buffers ≡ []) × (sum_by (λ p. sum_by g p.events) r'.flushed ≡ sum_by g es)
  unfolding run_sweeper
  run_sweeper_delivers es r h ticks env visits g i =
      flush_all_delivers caps (tick_all-Reach ticks es r h) env shutdown visits g i
