-- ===== src/Otlp/Buffer.antt =====
-- crates/agentprof-storage/src/otlp/router.rs: the buffer of one session, what it counts and what
-- it is closed into. The flag `closed`, which nothing reads, is left out.
use agentprof.Base.{
  ℕ, ◌+◌, Bool, true, false, ◌&&◌, Option, none, some, List, [], ◌∷◌, ◌++◌, map, leb, ltb, or_else,
  if◌then◌else◌,
}
use agentprof.Base.Sort.{sort_by}
use agentprof.Base.Words.{u64_max, saturating_add}
use agentprof.Order.{Text, text_ord, eqb}
use agentprof.Map.{or_default}
use agentprof.Event.{Instant}
use agentprof.Episode.{ToolCallStatus, failure, open_at_end_of_session}
use agentprof.Otlp.Typed.{
  TypedEvent, session_start, user_prompt, tool_decision_start, tool_result, token_usage,
  session_end, unrecognized,
}

pub data CloseReason : Type 0 where
  explicit_end oom_bytes oom_events idle shutdown capacity_evict : CloseReason

-- The limits; the timeout is in nanoseconds.
pub record SessionBufferCaps : Type 0 where
  pub max_bytes : ℕ
  pub max_events : ℕ
  pub idle_timeout : ℕ
  pub max_open_sessions : ℕ

abbrev pub default_caps : SessionBufferCaps
default_caps = record {
  max_bytes = 16777216;
  max_events = 100000;
  idle_timeout = 300000000000;
  max_open_sessions = 1024;
}

pub record PersistableSession : Type 0 where
  pub session_id : Text
  pub close_reason : CloseReason
  pub events : List TypedEvent
  pub started_at : Option Instant
  pub ended_at : Option Instant

-- The name and the turn of a call.
abbrev pub CallKey : Type 0
CallKey = Text × Option Text

abbrev pub turn_eqb : Option Text → Option Text → Bool
turn_eqb none none = true
turn_eqb (some a) (some b) = eqb a b
turn_eqb _ _ = false

unfoldable pub key_eqb : CallKey → CallKey → Bool
key_eqb a b = eqb a.0 b.0 && turn_eqb a.1 b.1

-- A `HashMap` from keys to the starts of the calls.
abbrev pub OpenCalls : Type 0
OpenCalls = List (CallKey × Instant)

unfoldable pub remove_call : CallKey → OpenCalls → OpenCalls
remove_call k [] = []
remove_call k ((j, at) ∷ m) = if key_eqb k j then m else (j, at) ∷ remove_call k m

unfoldable pub insert_call : CallKey → Instant → OpenCalls → OpenCalls
insert_call k at [] = (k, at) ∷ []
insert_call k at ((j, t) ∷ m) = if key_eqb k j then (j, at) ∷ m else (j, t) ∷ insert_call k at m

pub record SessionBuffer : Type 0 where
  pub session_id : Text
  pub started_at : Option Instant
  pub ended_at : Option Instant
  pub events : List TypedEvent
  pub open_tool_calls : OpenCalls
  pub bytes_used : ℕ
  pub last_seen : Instant
  pub last_event_ts : Option Instant

-- `SessionBuffer::new`, at a time of the clock.
abbrev pub new_buffer : Text → Instant → SessionBuffer
new_buffer session_id now = record {
  session_id = session_id;
  started_at = none;
  ended_at = none;
  events = [];
  open_tool_calls = [];
  bytes_used = 0;
  last_seen = now;
  last_event_ts = none;
}

-- `String::len`, the length in UTF-8.
unfoldable pub utf8_len : Text → ℕ
utf8_len [] = 0
utf8_len (c ∷ cs) =
    (if ltb c 128 then 1 else if ltb c 2048 then 2 else if ltb c 65536 then 3 else 4) + utf8_len cs

abbrev pub len_or_zero : Option Text → ℕ
len_or_zero none = 0
len_or_zero (some t) = utf8_len t

unfoldable pub status_string_len : ToolCallStatus → ℕ
status_string_len (failure message) = len_or_zero message
status_string_len _ = 0

-- `base` is the size of the enum in memory.
unfoldable pub estimate_bytes : ℕ → TypedEvent → ℕ
unfolding status_string_len
estimate_bytes base (session_start id agent at model cwd) =
    base + (utf8_len id + len_or_zero model + len_or_zero cwd)
estimate_bytes base (user_prompt id turn at size) = base + (utf8_len id + utf8_len turn)
estimate_bytes base (tool_decision_start id turn name source at approved) =
    base + (utf8_len id + len_or_zero turn + utf8_len name)
estimate_bytes base (tool_result id turn name at status) =
    base + (utf8_len id + len_or_zero turn + utf8_len name + status_string_len status)
estimate_bytes base (token_usage id model direction value at) =
    base + (utf8_len id + utf8_len model)
estimate_bytes base (session_end id at) = base + utf8_len id
estimate_bytes base (unrecognized signal identity) = base + utf8_len identity

-- The `match` of `push`.
unfoldable pub note_event : TypedEvent → SessionBuffer → SessionBuffer
note_event (session_start id agent at model cwd) b = record b {
  started_at = some at;
  last_event_ts = some at;
}
note_event (session_end id at) b = record b { ended_at = some at; last_event_ts = some at }
note_event (tool_decision_start id turn name source at approved) b = record b {
  open_tool_calls = insert_call (name, turn) at b.open_tool_calls;
  last_event_ts = some at;
}
note_event (tool_result id turn name at status) b = record b {
  open_tool_calls = remove_call (name, turn) b.open_tool_calls;
  last_event_ts = some at;
}
note_event (user_prompt id turn at size) b = record b { last_event_ts = some at }
note_event (token_usage id model direction value at) b = record b { last_event_ts = some at }
note_event (unrecognized signal identity) b = b

-- `SessionBuffer::push`, at a time of the clock.
unfoldable pub push : ℕ → Instant → TypedEvent → SessionBuffer → SessionBuffer
push base now event b =
    let counted = record b {
      bytes_used = saturating_add u64_max b.bytes_used (estimate_bytes base event);
      last_seen = now;
    } in
    let noted = note_event event counted in record noted { events = noted.events ++ event ∷ [] }

-- `DateTime::MIN_UTC` is the least instant.
abbrev pub event_timestamp : TypedEvent → Instant
event_timestamp (session_start id agent at model cwd) = at
event_timestamp (user_prompt id turn at size) = at
event_timestamp (tool_decision_start id turn name source at approved) = at
event_timestamp (tool_result id turn name at status) = at
event_timestamp (token_usage id model direction value at) = at
event_timestamp (session_end id at) = at
event_timestamp (unrecognized signal identity) = 0

abbrev pub earlier : TypedEvent → TypedEvent → Bool
earlier a b = leb (event_timestamp a) (event_timestamp b)

-- The result that closes a call which is still open.
abbrev pub open_result : Text → Instant → CallKey × Instant → TypedEvent
open_result session_id at ((tool_name, turn_id), started_at) =
    tool_result session_id turn_id tool_name at open_at_end_of_session

-- `into_persistable`. `drain` is the order in which the hash map yields its entries, and `utc_now`
-- the time of the clock.
unfoldable pub into_persistable :
    (OpenCalls → OpenCalls) → Instant → SessionBuffer → CloseReason → PersistableSession
into_persistable drain utc_now b reason =
    let synthesis_ts = or_default utc_now (or_else b.ended_at b.last_event_ts) in
    record {
      session_id = b.session_id;
      close_reason = reason;
      events =
          sort_by earlier
            (b.events ++ map (open_result b.session_id synthesis_ts) (drain b.open_tool_calls));
      started_at = b.started_at;
      ended_at = b.ended_at;
    }
