-- ===== src/Derive/Requests.antt =====
-- Arguments that are announced before a call, and marks that it was requested by the user.
use agentprof.Base.{
  ◌≡◌, Option, none, some, List, [], ◌∷◌, ◌++◌, arith, if◌then◌else◌, Option-cases, inl, inr, refl,
  or_else,
}
use agentprof.Order.{Text, text_ord, eqb, eqb_iff}
use agentprof.Map.{
  BTreeMap, get, insert, get-insert, remove-absent, remove-insert_elem, contains-insert_elem,
}
use agentprof.Event.{Event}
use agentprof.Derive.{
  DeriveState, collect_requests, collect_args, mark_requested, on_tool_start,
  on_tool_user_requested,
}

-- The first value that is listed for an id.
abbrev pub first_value : {J : Type 0} → Text → List (Text × J) → Option J
first_value id [] = none
first_value id ((call_id, value) ∷ rest) =
    if eqb id call_id then some value else first_value id rest

module _ {J : Type 0} where
  get-collect_requests :
      (id : Text) (requests : List (Text × J)) (args : BTreeMap Text J)
      → get id (collect_requests requests args) ≡ or_else (get id args) (first_value id requests)
  unfolding collect_requests
  get-collect_requests id [] args = ground arith
  get-collect_requests id ((call_id, value) ∷ requests) args =
      elim (Option-cases (get call_id args)) [
        | inl absent ↦ ground (
          arith,
          get-collect_requests id requests (insert call_id value args),
          get-insert id call_id value args,
          eqb_iff id call_id,
        )
        | inr (v, found) ↦ ground (arith, get-collect_requests id requests args, eqb_iff id call_id)
      ]

  abbrev pub all_requests : List (Event J) → List (Text × J)
  all_requests [] = []
  all_requests (ev ∷ events) = ev.payload_tool_requests ++ all_requests events

  first_value-append :
      (id : Text) (xs ys : List (Text × J))
      → first_value id (xs ++ ys) ≡ or_else (first_value id xs) (first_value id ys)
  first_value-append id [] ys = refl
  first_value-append id ((call_id, value) ∷ xs) ys = ground (arith, first_value-append id xs ys)

  get-collect_args_from :
      (id : Text) (events : List (Event J)) (args : BTreeMap Text J)
      → get id (collect_args events args)
        ≡ or_else (get id args) (first_value id (all_requests events))
  unfolding collect_args
  get-collect_args_from id [] args = ground arith
  get-collect_args_from id (ev ∷ events) args = ground (
    arith,
    get-collect_args_from id events (collect_requests ev.payload_tool_requests args),
    get-collect_requests id ev.payload_tool_requests args,
    first_value-append id ev.payload_tool_requests (all_requests events),
  )

  -- The arguments that the first pass finds for an id are those of its first announcement in the
  -- order of the events, and there are none exactly if no event announces the id.
  pub get-collect_args :
      (id : Text) (events : List (Event J))
      → get id (collect_args events []) ≡ first_value id (all_requests events)
  unfolding get
  get-collect_args id events = get-collect_args_from id events []

  -- A mark that comes right before the start of its call has the same effect as one that comes
  -- right behind it, if no open call and no earlier mark has the id.
  pub user_requested_comm :
      (mark start : Event J) (s : DeriveState J) (id : Text)
      → mark.tool_call_id ≡ some id
      → start.tool_call_id ≡ some id
      → mark_requested id s.open_tool_calls ≡ none
      → get id s.pending_user_requested_tool_call_ids ≡ none
      → on_tool_start start (on_tool_user_requested mark s)
        ≡ on_tool_user_requested mark (on_tool_start start s)
  unfolding on_tool_user_requested on_tool_start mark_requested
  user_requested_comm mark start s id m b fresh unmarked =
      let pending = s.pending_user_requested_tool_call_ids in
      ground (
        arith,
        contains-insert_elem id id pending,
        (eqb_iff id id).1 refl,
        remove-absent id pending,
        remove-insert_elem id pending,
      )
