-- ===== src/Aggregate/Models.antt =====
-- The buckets by model: each sums exactly the sessions of its model.
use agentprof.Base.{
  ℕ, ◌+◌, ◌≤◌, ◌≡◌, Option-cases, ap, subst, sym, Bool, false, Option, none, some, List, [], ◌∷◌,
  min, count, length, arith, refl, if◌then◌else◌, Bool-cases, inl, inr, ◌∙◌,
}
use agentprof.Base.Int.{ℤ, pos, ◌+ℤ◌, +ℤ_assoc, +ℤ-zero}
use agentprof.Base.Words.{u64_max}
use agentprof.Order.{Text, text_ord, eqb, eqb_iff}
use agentprof.Map.{
  BTreeMap, get, get-upsert, IsOrdered, upsert-IsOrdered, IsOrdered-get, AllEntries, AllEntries-map,
  or_default, sum_values,
}
use agentprof.Event.{ModelUsage}
use agentprof.Episode.{Episodes}
use agentprof.Analyzer.{AnalysisReport}
use agentprof.Aggregate.Wall.{compute_wall}
use agentprof.Aggregate.ByModel.{
  TempModelAcc, new_model_acc, fold_field, sum_cache_fields, sum_output_tokens, first_model,
  add_session, collect_models, note_session,
}

fold_field_lem :
    (field : ModelUsage → ℕ) (total : ℕ) (m : BTreeMap Text ModelUsage)
    → total ≤ u64_max
    → fold_field field total m ≡ min (total + sum_values field m) u64_max
unfolding fold_field
fold_field_lem field total [] h = omega arith
fold_field_lem field total ((k, u) ∷ m) h =
    omega (arith, fold_field_lem field (min (total + field u) u64_max) m (omega arith))

-- The sum of a field over the model metrics of a report, zero without metrics.
abbrev pub metric : (ModelUsage → ℕ) → AnalysisReport → ℕ
metric field report = elim report.model_metrics [ none ↦ 0 | some m ↦ sum_values field m ]

sum_cache_fields_lem :
    (report : AnalysisReport)
    → ((sum_cache_fields report).0 ≡ min (metric (λ u. u.input_tokens) report) u64_max)
      × ((sum_cache_fields report).1 ≡ min (metric (λ u. u.cache_read_tokens) report) u64_max)
      × ((sum_cache_fields report).2 ≡ min (metric (λ u. u.cache_write_tokens) report) u64_max)
unfolding sum_cache_fields
sum_cache_fields_lem report = elim (Option-cases report.model_metrics) [
  | inl e ↦ (ground arith, ground arith, ground arith)
  | inr (m, e) ↦ (
    ground (arith, fold_field_lem (λ u. u.input_tokens) 0 m (omega arith)),
    ground (arith, fold_field_lem (λ u. u.cache_read_tokens) 0 m (omega arith)),
    ground (arith, fold_field_lem (λ u. u.cache_write_tokens) 0 m (omega arith)),
  )
]

record InRange (t : TempModelAcc) : Type 0 where
  output : t.total_output_tokens ≤ u64_max
  input : t.total_input_tokens ≤ u64_max
  read : t.total_cache_read ≤ u64_max
  creation : t.total_cache_creation ≤ u64_max

add_session-InRange : (r : AnalysisReport) (w : ℤ) (t : TempModelAcc) → InRange (add_session r w t)
add_session-InRange r w t = record {
  output = omega arith;
  input = omega arith;
  read = omega arith;
  creation = omega arith;
}

new_model_acc-InRange : (name : Text) → InRange (new_model_acc name)
new_model_acc-InRange name = record {
  output = omega arith;
  input = omega arith;
  read = omega arith;
  creation = omega arith;
}

abbrev is_model : Text → Option Text → Bool
is_model name none = false
is_model name (some own) = eqb name own

get-note_session :
    (name : Text) (own : Option Text) (report : AnalysisReport) (w : ℤ)
    (acc : BTreeMap Text TempModelAcc)
    → or_default (new_model_acc name) (get name (note_session own report w acc)) ≡ (
        let t = or_default (new_model_acc name) (get name acc) in
        if is_model name own then add_session report w t else t)
get-note_session name none report w acc = refl
get-note_session name (some own) report w acc = elim (Bool-cases (eqb name own)) [
  | inl same ↦
      rw (get-upsert name own (new_model_acc own) (add_session report w) acc, same)
        (rw ((eqb_iff name own).0 same) refl)
  | inr other ↦ rw (get-upsert name own (new_model_acc own) (add_session report w) acc, other) refl
]

note_session-IsOrdered :
    (own : Option Text) (report : AnalysisReport) (w : ℤ) (acc : BTreeMap Text TempModelAcc)
    → IsOrdered acc
    → IsOrdered (note_session own report w acc)
note_session-IsOrdered none report w acc h = h
note_session-IsOrdered (some own) report w acc h =
    upsert-IsOrdered own (new_model_acc own) (add_session report w) acc h

module _ {J : Type 0} where
  -- The session's first turn has a given model.
  abbrev pub has_model : Text → AnalysisReport × Episodes J → Bool
  has_model name s = is_model name (first_model s.0)

  -- A number summed over the sessions of a model.
  abbrev pub sum_of :
      Text → (AnalysisReport × Episodes J → ℕ) → List (AnalysisReport × Episodes J) → ℕ
  sum_of name g [] = 0
  sum_of name g (s ∷ ss) = (if has_model name s then g s else 0) + sum_of name g ss

  abbrev pub wall_of : Text → List (AnalysisReport × Episodes J) → ℤ
  wall_of name [] = pos 0
  wall_of name (s ∷ ss) =
      let rest = wall_of name ss in
      if has_model name s then compute_wall s.1 s.0.meta.started_at +ℤ rest else rest

  -- What the sessions of a model add to an entry; the 64-bit sums stop at their largest value.
  pub record Adds (name : Text) (ss : List (AnalysisReport × Episodes J)) (t t' : TempModelAcc)
      : Type 0 where
    pub model : t'.model ≡ t.model
    pub sessions : t'.session_count ≡ t.session_count + count (has_model name) ss
    pub turns : t'.turn_count ≡ t.turn_count + sum_of name (λ s. length s.0.turn_summary) ss
    pub output :
        t'.total_output_tokens
        ≡ min
            (t.total_output_tokens + sum_of name (λ s. sum_output_tokens s.0.turn_summary) ss)
            u64_max
    pub input :
        t'.total_input_tokens
        ≡ min
            (t.total_input_tokens + sum_of name (λ s. metric (λ u. u.input_tokens) s.0) ss)
            u64_max
    pub read :
        t'.total_cache_read
        ≡ min
            (t.total_cache_read + sum_of name (λ s. metric (λ u. u.cache_read_tokens) s.0) ss)
            u64_max
    pub creation :
        t'.total_cache_creation
        ≡ min
            (t.total_cache_creation + sum_of name (λ s. metric (λ u. u.cache_write_tokens) s.0) ss)
            u64_max
    pub duration : t'.total_duration ≡ t.total_duration +ℤ wall_of name ss

  -- The entry of a model behind some sessions.
  abbrev entry_after : Text → TempModelAcc → List (AnalysisReport × Episodes J) → TempModelAcc
  entry_after name t [] = t
  entry_after name t (s ∷ ss) =
      entry_after name
        (if has_model name s then add_session s.0 (compute_wall s.1 s.0.meta.started_at) t else t)
        ss

  entry_after-Adds :
      (name : Text) (t : TempModelAcc) (ss : List (AnalysisReport × Episodes J))
      → InRange t
      → Adds name ss t (entry_after name t ss)
  entry_after-Adds name t [] h = record {
    model = refl;
    sessions = omega arith;
    turns = omega arith;
    output = omega (arith, h.output);
    input = omega (arith, h.input);
    read = omega (arith, h.read);
    creation = omega (arith, h.creation);
    duration = sym (+ℤ-zero t.total_duration);
  }
  entry_after-Adds name t (s ∷ ss) h =
      let w : ℤ = compute_wall s.1 s.0.meta.started_at in
      let t' : TempModelAcc = add_session s.0 w t in
      let next : Adds name ss t' (entry_after name t' ss) =
        entry_after-Adds name t' ss (add_session-InRange s.0 w t) in
      let same : Adds name ss t (entry_after name t ss) = entry_after-Adds name t ss h in
      let fields = sum_cache_fields_lem s.0 in
      elim (Bool-cases (has_model name s)) [
        | inl e ↦ rw e (record {
          model = next.model;
          sessions = ground (arith, e, next.sessions);
          turns = ground (arith, e, next.turns);
          output = ground (arith, e, next.output);
          input = ground (arith, e, next.input, fields.0);
          read = ground (arith, e, next.read, fields.1);
          creation = ground (arith, e, next.creation, fields.2);
          duration = rw e (next.duration ∙ +ℤ_assoc t.total_duration w (wall_of name ss));
        })
        | inr e ↦ rw e (record {
          model = same.model;
          sessions = ground (arith, e, same.sessions);
          turns = ground (arith, e, same.turns);
          output = ground (arith, e, same.output);
          input = ground (arith, e, same.input);
          read = ground (arith, e, same.read);
          creation = ground (arith, e, same.creation);
          duration = rw e same.duration;
        })
      ]

  collect_models-entry :
      (name : Text) (acc : BTreeMap Text TempModelAcc) (ss : List (AnalysisReport × Episodes J))
      → or_default (new_model_acc name) (get name (collect_models acc ss))
        ≡ entry_after name (or_default (new_model_acc name) (get name acc)) ss
  unfolding collect_models
  collect_models-entry name acc [] = refl
  collect_models-entry name acc ((report, episodes) ∷ ss) =
      let w = compute_wall episodes report.meta.started_at in
      collect_models-entry name (note_session (first_model report) report w acc) ss
      ∙ ap (λ t. entry_after name t ss) (get-note_session name (first_model report) report w acc)

  collect_models-IsOrdered :
      (acc : BTreeMap Text TempModelAcc) (ss : List (AnalysisReport × Episodes J))
      → IsOrdered acc
      → IsOrdered (collect_models acc ss)
  unfolding collect_models
  collect_models-IsOrdered acc [] h = h
  collect_models-IsOrdered acc ((report, episodes) ∷ ss) h =
      let w = compute_wall episodes report.meta.started_at in
      collect_models-IsOrdered (note_session (first_model report) report w acc) ss
        (note_session-IsOrdered (first_model report) report w acc h)

  -- Of the map that the loop makes, each entry sums the sessions of its model.
  pub collect_models-Adds :
      (ss : List (AnalysisReport × Episodes J))
      → AllEntries (λ name t. Adds name ss (new_model_acc name) t) (collect_models [] ss)
  unfolding get
  collect_models-Adds ss =
      AllEntries-map _ _ (collect_models [] ss)
        (λ name t found.
          let whole : t ≡ entry_after name (new_model_acc name) ss =
            ap (or_default (new_model_acc name)) (sym found) ∙ collect_models-entry name [] ss in
          subst (Adds name ss (new_model_acc name)) (sym whole)
            (entry_after-Adds name (new_model_acc name) ss (new_model_acc-InRange name)))
        (IsOrdered-get (collect_models [] ss) (collect_models-IsOrdered [] ss tt))
