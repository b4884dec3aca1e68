-- ===== src/Otlp/Examples.antt =====
-- A router with room for two sessions, and the theorems at it.
use agentprof.Base.{
  ℕ, ◌≡◌, true, Option, none, some, List, [], ◌∷◌, map, refl, count, length, if◌then◌else◌,
}
use agentprof.Base.Sort.{sum_by, sort_by, insert_by}
use agentprof.Order.{Text, text, text_ord, text_cmp}
use agentprof.Map.{get, upsert, remove}
use agentprof.Event.{Instant}
use agentprof.Model.ToolSource.{builtin}
use agentprof.Episode.{success}
use agentprof.Otlp.Typed.{TypedEvent, user_prompt, tool_decision_start, tool_result, session_end}
use agentprof.Otlp.Buffer.{
  shutdown, SessionBufferCaps, default_caps, CallKey, key_eqb, new_buffer, push, note_event,
  estimate_bytes, status_string_len, utf8_len, insert_call, remove_call, into_persistable,
}
use agentprof.Otlp.Routing.{
  Env, SessionRouter, new_router, flushed_ok, forget, touch_lru, close_found, evict_front, admit,
  trigger, close_if, push_event, route, ingest_one, ingest, close_each, is_stale, sweep_idle,
  flush_all,
}
use agentprof.Otlp.Admission.{IsWithin}
use agentprof.Otlp.Conserved.{accepted, IgnoresOpen, total}
use agentprof.Otlp.Shutdown.{Visits, passes, get-sweep_idle}
use agentprof.Otlp.Isolation.{IsIsolated}
use agentprof.Otlp.History.{Reach, start, batch, Reach-IsWithin, Reach-IsIsolated, Reach-total}
use agentprof.Otlp.Sweeper.{run_sweeper, run_sweeper_delivers}
use agentprof.Otlp.Pairing.{Drains, closes, IsPaired, push_all, into_persistable-IsPaired}

abbrev caps : SessionBufferCaps
caps = record default_caps { max_open_sessions = 2 }

abbrev env : Env
env = record {
  event_size = 100;
  utc_now = 0;
  drain = λ calls. calls;
  visit = λ ids. ids;
  flush = λ before p. flushed_ok;
}

env-Visits : Visits env
env-Visits k ks = refl

env-Drains : Drains env.drain
env-Drains k calls = refl

abbrev prompt : Text → ℕ → TypedEvent
prompt sid at = user_prompt sid (text "t") at none

abbrev decision : Text → ℕ → TypedEvent
decision sid at = tool_decision_start sid none (text "bash") builtin at true

-- Three sessions, of which the first is evicted and the second ends.
abbrev events : List (Instant × Option TypedEvent)
events =
    (1, some (prompt (text "a") 1))
    ∷ (2, some (decision (text "b") 2))
    ∷ (3, none)
    ∷ (4, some (prompt (text "c") 4))
    ∷ (5, some (session_end (text "b") 5))
    ∷ []

routing : Unit {0}
unfolding ingest ingest_one route admit push_event close_found trigger close_if touch_lru forget
    evict_front push note_event estimate_bytes status_string_len utf8_len insert_call remove_call
    into_persistable sort_by insert_by upsert remove get text_cmp key_eqb close_each sweep_idle
    flush_all
routing = tt

abbrev routed : SessionRouter
routed = ingest env events (new_router caps)

-- What is open, what has gone to the sink and how many events it had; the open call of the second
-- session has got a result.
routed_run :
    (map {B = Text} (λ e. e.0) routed.buffers ≡ text "c" ∷ [])
    × (routed.lru ≡ text "c" ∷ [])
    × (map {B = Text} (λ p. p.session_id) routed.flushed ≡ text "a" ∷ text "b" ∷ [])
    × (map {B = ℕ} (λ p. length p.events) routed.flushed ≡ 1 ∷ 3 ∷ [])
unfolding routing
routed_run = (refl, refl, refl, refl)

routed-Reach : Reach caps (accepted events) routed
routed-Reach = batch start env events

Reach-IsWithin_example : IsWithin routed
Reach-IsWithin_example = Reach-IsWithin caps routed-Reach

Reach-IsIsolated_example : IsIsolated routed
Reach-IsIsolated_example = Reach-IsIsolated caps routed-Reach

-- Prompts are counted.
abbrev prompts : TypedEvent → ℕ
prompts (user_prompt id turn at size) = 1
prompts _ = 0

prompts-IgnoresOpen : IgnoresOpen prompts
prompts-IgnoresOpen session_id turn_id tool_name at = refl

Reach-total_example : total prompts routed ≡ 2
Reach-total_example = Reach-total caps routed-Reach prompts prompts-IgnoresOpen

run_sweeper_delivers_example :
    ((run_sweeper ((env, 9) ∷ []) env routed).buffers ≡ [])
    × (sum_by (λ p. sum_by prompts p.events) (run_sweeper ((env, 9) ∷ []) env routed).flushed ≡ 2)
run_sweeper_delivers_example =
    run_sweeper_delivers caps (accepted events) routed routed-Reach ((env, 9) ∷ []) env env-Visits
      prompts prompts-IgnoresOpen

get-sweep_idle_example : get (text "c") (sweep_idle env 400000000000 routed).0.buffers ≡ (
    if passes (is_stale 400000000000 routed.cap) (get (text "c") routed.buffers)
    then none
    else get (text "c") routed.buffers)
get-sweep_idle_example =
    get-sweep_idle env 400000000000 (text "c") routed env-Visits
      (Reach-IsWithin caps routed-Reach).indexes.ordered

-- The only session that is left has been idle for long enough.
swept : (sweep_idle env 400000000000 routed).1 ≡ text "c" ∷ []
unfolding routing
swept = refl

abbrev pushes : List (Instant × TypedEvent)
pushes =
    (1, decision (text "a") 3)
    ∷ (2, tool_result (text "a") (some (text "t")) (text "bash") 1 success)
    ∷ []

pushes_plain : (k : CallKey) → count (closes k) (map (λ e. e.1) pushes) ≡ 0
pushes_plain k = refl

into_persistable-IsPaired_example :
    IsPaired
      (text "a")
      pushes
      (into_persistable env.drain 0 (push_all 100 pushes (new_buffer (text "a") 0)) shutdown).events
into_persistable-IsPaired_example =
    into_persistable-IsPaired env.drain 0 100 (text "a") 0 pushes shutdown env-Drains pushes_plain
