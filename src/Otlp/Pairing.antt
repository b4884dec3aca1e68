-- ===== src/Otlp/Pairing.antt =====
-- Which tool calls a closed session has as open, and the order of its events.
use mathlib.Core.List.{Perm}
use agentprof.Base.{
  ℕ, ◌-◌, ◌≡◌, ◌↔◌, Bool, true, false, Option, none, some, List, [], ◌∷◌, ◌++◌, map, count, max,
  arith, refl, count-append, append-nil, append_assoc, subst, or_else, if◌then◌else◌, sym, ap, ◌∙◌,
}
use agentprof.Base.Sort.{
  sort_by, count-sum_by, IsSortedBy, IsPreorder, sort_by-IsSortedBy, sort_by-perm, sum_by-sort_by,
}
use agentprof.Map.{or_default}
use agentprof.Order.{Text, text_ord, eqb_iff}
use agentprof.Event.{Instant}
use agentprof.Episode.{open_at_end_of_session}
use agentprof.Otlp.Typed.{TypedEvent, tool_decision_start, tool_result}
use agentprof.Otlp.Conserved.{push_events}
use agentprof.Otlp.Isolation.{push_session_id}
use agentprof.Otlp.Buffer.{
  CloseReason, OpenCalls, CallKey, key_eqb, turn_eqb, insert_call, remove_call, SessionBuffer,
  new_buffer, push, note_event, open_result, earlier, into_persistable,
}

turn_eqb_iff : (a b : Option Text) → (turn_eqb a b ≡ true) ↔ (a ≡ b)
turn_eqb_iff none none = ground arith
turn_eqb_iff none (some b) = ground arith
turn_eqb_iff (some a) none = ground arith
turn_eqb_iff (some a) (some b) = ground (arith, eqb_iff a b)

key_eqb_iff : (a b : CallKey) → (key_eqb a b ≡ true) ↔ (a ≡ b)
unfolding key_eqb
key_eqb_iff (a, s) (b, t) = ground (arith, eqb_iff a b, turn_eqb_iff s t)

earlier-IsPreorder : IsPreorder earlier
earlier-IsPreorder = record { total = λ a b. ground arith; trans = λ a b c h k. ground arith }

abbrev pub count_key : CallKey → OpenCalls → ℕ
count_key k = count (λ e. key_eqb k e.0)

count_key-insert_call :
    (j k : CallKey) (at : Instant) (m : OpenCalls)
    → count_key j (insert_call k at m)
      ≡ (if key_eqb j k then max 1 (count_key j m) else count_key j m)
unfolding insert_call
count_key-insert_call j k at [] = ground arith
count_key-insert_call j k at ((i, t) ∷ m) =
    ground
      (arith, count_key-insert_call j k at m, key_eqb_iff j k, key_eqb_iff k i, key_eqb_iff j i)

count_key-remove_call :
    (j k : CallKey) (m : OpenCalls)
    → count_key j (remove_call k m) ≡ (if key_eqb j k then count_key j m - 1 else count_key j m)
unfolding remove_call
count_key-remove_call j k [] = ground arith
count_key-remove_call j k ((i, t) ∷ m) =
    ground (arith, count_key-remove_call j k m, key_eqb_iff j k, key_eqb_iff k i, key_eqb_iff j i)

-- Whether a call is open behind an event: a start opens it and a result closes it.
abbrev pub open_behind : CallKey → TypedEvent → Bool → Bool
open_behind k (tool_decision_start id turn name source at approved) b =
    if key_eqb k (name, turn) then true else b
open_behind k (tool_result id turn name at status) b = if key_eqb k (name, turn) then false else b
open_behind k _ b = b

-- The same behind a list of events.
abbrev pub is_open_behind : CallKey → Bool → List (Instant × TypedEvent) → Bool
is_open_behind k b [] = b
is_open_behind k b ((now, e) ∷ es) = is_open_behind k (open_behind k e b) es

-- A result by which an open call is closed.
abbrev pub closes : CallKey → TypedEvent → Bool
closes k (tool_result id turn name at open_at_end_of_session) = key_eqb k (name, turn)
closes k _ = false

-- A buffer behind a list of pushes, each at a time of the clock.
pub push_all : ℕ → List (Instant × TypedEvent) → SessionBuffer → SessionBuffer
push_all base [] b = b
push_all base ((now, e) ∷ es) b = push_all base es (push base now e b)

abbrev pub bit : Bool → ℕ
bit true = 1
bit false = 0

push-open :
    (k : CallKey) (base : ℕ) (now : Instant) (e : TypedEvent) (b : SessionBuffer) (was : Bool)
    → count_key k b.open_tool_calls ≡ bit was
    → count_key k (push base now e b).open_tool_calls ≡ bit (open_behind k e was)
unfolding push note_event
push-open k base now (tool_decision_start id turn name source at approved) b was h =
    ground (arith, count_key-insert_call k (name, turn) at b.open_tool_calls)
push-open k base now (tool_result id turn name at status) b was h =
    ground (arith, count_key-remove_call k (name, turn) b.open_tool_calls)
push-open k base now _ b was h = h

push_all-open :
    (k : CallKey) (base : ℕ) (es : List (Instant × TypedEvent)) (b : SessionBuffer) (was : Bool)
    → count_key k b.open_tool_calls ≡ bit was
    → count_key k (push_all base es b).open_tool_calls ≡ bit (is_open_behind k was es)
unfolding push_all
push_all-open k base [] b was h = h
push_all-open k base ((now, e) ∷ es) b was h =
    push_all-open k base es (push base now e b) (open_behind k e was)
      (push-open k base now e b was h)

push_all_events :
    (base : ℕ) (es : List (Instant × TypedEvent)) (b : SessionBuffer)
    → (push_all base es b).events ≡ b.events ++ map (λ e. e.1) es
unfolding push_all
push_all_events base [] b = sym (append-nil b.events)
push_all_events base ((now, e) ∷ es) b =
    push_all_events base es (push base now e b)
    ∙ rw (push_events base now e b) (append_assoc b.events (e ∷ []) (map (λ e. e.1) es))

count-open_result :
    (k : CallKey) (sid : Text) (at : Instant) (calls : OpenCalls)
    → count (closes k) (map (open_result sid at) calls) ≡ count_key k calls
count-open_result k sid at [] = refl
count-open_result k sid at (((name, turn), t) ∷ calls) =
    omega (arith, count-open_result k sid at calls)

count-sort_by :
    {A : Type 0} (le : A → A → Bool) (p : A → Bool) (xs : List A)
    → count p (sort_by le xs) ≡ count p xs
count-sort_by le p xs =
    count-sum_by p (sort_by le xs)
    ∙ sum_by-sort_by le (λ x. if p x then 1 else 0) xs
    ∙ sym (count-sum_by p xs)

-- The iteration over the open calls yields each as often as it is there.
abbrev pub Drains : (OpenCalls → OpenCalls) → Type 0
Drains drain = (k : CallKey) (calls : OpenCalls) → count_key k (drain calls) ≡ count_key k calls

push_all_session_id :
    (base : ℕ) (es : List (Instant × TypedEvent)) (b : SessionBuffer)
    → (push_all base es b).session_id ≡ b.session_id
unfolding push_all
push_all_session_id base [] b = refl
push_all_session_id base ((now, e) ∷ es) b =
    push_all_session_id base es (push base now e b) ∙ push_session_id base now e b

pair : {A B : Type 0} {a a' : A} {b b' : B} → a ≡ a' → b ≡ b' → ◌≡◌ {A = A × B} (a, b) (a', b')
pair p q = rw (p, q) refl

-- A closed session is sorted by time, is a permutation of the pushed events and the closing
-- results, and has exactly one closing result for each call that was still open.
pub record IsPaired (sid : Text) (es : List (Instant × TypedEvent)) (out : List TypedEvent)
    : Type 0 where
  pub sorted : IsSortedBy earlier out
  pub permuted :
      (at : Instant) × (calls : OpenCalls) × Perm out
        (map (λ e. e.1) es ++ map (open_result sid at) calls)
  pub closed : (k : CallKey) → count (closes k) out ≡ bit (is_open_behind k false es)

-- A buffer of a session that got events, none of them a closing result, is closed into its events
-- in the order of time, with exactly one closing result for each call whose last event, in the
-- order of arrival, is its start, and none for the others, if the iteration yields each open call.
-- A call is a tool and a turn: a second start of it stands for the first, and one result ends both.
pub into_persistable-IsPaired :
    (drain : OpenCalls → OpenCalls) (utc_now : Instant) (base : ℕ) (sid : Text) (now : Instant)
    (es : List (Instant × TypedEvent)) (reason : CloseReason)
    → Drains drain
    → ((k : CallKey) → count (closes k) (map (λ e. e.1) es) ≡ 0)
    → IsPaired sid es
        (into_persistable drain utc_now (push_all base es (new_buffer sid now)) reason).events
unfolding into_persistable
into_persistable-IsPaired drain utc_now base sid now es reason drains plain =
    let b = push_all base es (new_buffer sid now) in
    let same_id : b.session_id ≡ sid = push_all_session_id base es (new_buffer sid now) in
    let same : b.events ≡ map (λ e. e.1) es = push_all_events base es (new_buffer sid now) in
    let at = or_default utc_now (or_else b.ended_at b.last_event_ts) in
    let calls = drain b.open_tool_calls in
    let all = b.events ++ map (open_result b.session_id at) calls in
    record {
      sorted = sort_by-IsSortedBy earlier earlier-IsPreorder all;
      permuted = (
        at,
        calls,
        subst (λ t. Perm (sort_by earlier all) (t.0 ++ map (open_result t.1 at) calls))
            (pair same same_id) (sort_by-perm earlier all),
      );
      closed = λ k. omega (
        arith,
        count-sort_by earlier (closes k) all,
        count-append (closes k) b.events (map (open_result b.session_id at) calls),
        ap (count (closes k)) same,
        plain k,
        count-open_result k b.session_id at calls,
        drains k b.open_tool_calls,
        push_all-open k base es (new_buffer sid now) false refl,
      );
    }
