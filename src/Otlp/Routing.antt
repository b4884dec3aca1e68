-- ===== src/Otlp/Routing.antt =====
-- crates/agentprof-storage/src/otlp/router.rs: `SessionRouter`. Each call runs on its own; calls
-- of several threads that interleave are not modelled. The sink gets the sessions that it was
-- given so far, so that it may keep a state.
use agentprof.Base.{
  ℕ, ◌-◌, Bool, true, false, ◌&&◌, not, Option, none, some, List, [], ◌∷◌, ◌++◌, map, length, ltb,
  filter, if◌then◌else◌,
}
use agentprof.Order.{Text, text_ord, eqb}
use agentprof.Map.{BTreeMap, get, upsert, remove, contains_key, or_default}
use agentprof.Event.{Instant}
use agentprof.Otlp.Typed.{TypedEvent, session_end, session_id_of}
use agentprof.Otlp.Buffer.{
  CloseReason, explicit_end, oom_bytes, oom_events, idle, capacity_evict, SessionBufferCaps,
  PersistableSession, OpenCalls, SessionBuffer, new_buffer, push, into_persistable,
}

-- `Result<(), RouterError>`; the error is a message.
pub data FlushResult : Type 0 where
  flushed_ok : FlushResult
  flush_error : Text → FlushResult

-- What the router gets from outside: the size of an event in memory, the clock of last resort, the
-- iteration orders of the hash maps, and the sink.
pub record Env : Type 0 where
  pub event_size : ℕ
  pub utc_now : Instant
  pub drain : OpenCalls → OpenCalls
  pub visit : List Text → List Text
  pub flush : List PersistableSession → PersistableSession → FlushResult

-- `lru` has the oldest session first; `flushed` is what the sink was given, in order.
pub record SessionRouter : Type 0 where
  pub buffers : BTreeMap Text SessionBuffer
  pub cap : SessionBufferCaps
  pub lru : List Text
  pub flushed : List PersistableSession

abbrev pub new_router : SessionBufferCaps → SessionRouter
new_router cap = record { buffers = []; cap = cap; lru = []; flushed = [] }

-- `position` and `remove` of a session in the index.
unfoldable pub forget : Text → List Text → List Text
forget sid [] = []
forget sid (s ∷ lru) = if eqb sid s then lru else s ∷ forget sid lru

unfoldable pub touch_lru : Text → SessionRouter → SessionRouter
touch_lru sid r = record r { lru = forget sid r.lru ++ sid ∷ [] }

unfoldable pub evict_from_lru : Text → SessionRouter → SessionRouter
evict_from_lru sid r = record r { lru = forget sid r.lru }

abbrev pub is_end : TypedEvent → Bool
is_end (session_end id at) = true
is_end _ = false

-- The three triggers, behind a push.
unfoldable pub trigger : SessionBufferCaps → TypedEvent → SessionBuffer → Option CloseReason
trigger cap event buf =
    if is_end event
    then some explicit_end
    else if ltb cap.max_bytes buf.bytes_used
    then some oom_bytes
    else if ltb cap.max_events (length buf.events)
    then some oom_events
    else none

abbrev pub keys : BTreeMap Text SessionBuffer → List Text
keys m = map (λ e. e.0) m

abbrev pub is_stale : Instant → SessionBufferCaps → SessionBuffer → Bool
is_stale now cap buf = ltb cap.idle_timeout (now - buf.last_seen)

module _ (env : Env) where
  -- The buffer of a session goes to the sink.
  unfoldable pub close_found :
      Option SessionBuffer → Text → CloseReason → SessionRouter → SessionRouter × FlushResult
  unfolding evict_from_lru
  close_found none sid reason r = (evict_from_lru sid r, flushed_ok)
  close_found (some buf) sid reason r =
      let persistable = into_persistable env.drain env.utc_now buf reason in
      let r' = evict_from_lru sid (record r { buffers = remove sid r.buffers }) in
      (record r' { flushed = r'.flushed ++ persistable ∷ [] }, env.flush r'.flushed persistable)

  unfoldable pub close_buffer : Text → CloseReason → SessionRouter → SessionRouter × FlushResult
  unfolding close_found
  close_buffer sid reason r = close_found (get sid r.buffers) sid reason r

  -- The eviction behind an admission.
  unfoldable pub evict_front : List Text → SessionRouter → SessionRouter
  unfolding close_buffer
  evict_front [] r = r
  evict_front (victim ∷ rest) r = (close_buffer victim capacity_evict (record r { lru = rest })).0

  -- An empty buffer for a new session; above the limit the least recent one is evicted.
  unfoldable pub admit : Instant → Text → SessionRouter → SessionRouter
  unfolding evict_front
  admit now sid r =
      let was_admitted = not (contains_key sid r.buffers) in
      let r' = record r { buffers = upsert sid (new_buffer sid now) (λ b. b) r.buffers } in
      if was_admitted && ltb r'.cap.max_open_sessions (length r'.buffers)
      then evict_front r'.lru r'
      else r'

  unfoldable pub close_if : Option CloseReason → Text → SessionRouter → SessionRouter
  unfolding close_buffer
  close_if none sid r = r
  close_if (some reason) sid r = (close_buffer sid reason r).0

  -- The push and what follows it.
  unfoldable pub push_event : Instant → Text → TypedEvent → SessionRouter → SessionRouter
  unfolding trigger close_if touch_lru
  push_event now sid event r =
      let buf =
        push env.event_size now event (or_default (new_buffer sid now) (get sid r.buffers)) in
      let r' = record r {
        buffers = upsert sid (new_buffer sid now) (push env.event_size now event) r.buffers;
      } in
      close_if (trigger r.cap event buf) sid (touch_lru sid r')

  unfoldable pub route : Option Text → Instant → TypedEvent → SessionRouter → SessionRouter
  unfolding admit push_event
  route none now event r = r
  route (some sid) now event r = push_event now sid event (admit now sid r)

  -- One element of a batch, with the time of the clock; `none` is an error of the mapper.
  unfoldable pub ingest_one : Instant × Option TypedEvent → SessionRouter → SessionRouter
  unfolding route
  ingest_one (now, none) r = r
  ingest_one (now, some event) r = route (session_id_of event) now event r

  unfoldable pub ingest : List (Instant × Option TypedEvent) → SessionRouter → SessionRouter
  ingest [] r = r
  ingest (e ∷ es) r = ingest es (ingest_one e r)

  -- `close_buffer` for each id.
  unfoldable pub close_each :
      List Text → CloseReason → SessionRouter → SessionRouter × List FlushResult
  close_each [] reason r = (r, [])
  close_each (id ∷ ids) reason r =
      let (r', result) = close_buffer id reason r in
      let (r'', results) = close_each ids reason r' in (r'', result ∷ results)

  -- The closed sessions are returned.
  unfoldable pub sweep_idle : Instant → SessionRouter → SessionRouter × List Text
  unfolding close_each
  sweep_idle now r =
      let stale = env.visit (keys (filter (λ e. is_stale now r.cap e.1) r.buffers)) in
      ((close_each stale idle r).0, stale)

  unfoldable pub flush_all : CloseReason → SessionRouter → SessionRouter × List FlushResult
  unfolding close_each
  flush_all reason r = close_each (env.visit (keys r.buffers)) reason r
