-- ===== src/Aggregate/Buckets.antt =====
-- The report by model: its buckets, their order, and that no session is left out.
use agentprof.Base.{
  ◌+◌, ◌≡◌, ◌⊎◌, Bool, true, Option, none, some, List, [], ◌∷◌, map, min, count, length, arith,
  refl, if◌then◌else◌, ◌==◌, All, ◌∙◌, subst, sym, is_some,
}
use agentprof.Base.Int.{ℤ, pos, ◌+ℤ◌, zero-+ℤ, +ℤ-zero, +ℤ_assoc}
use agentprof.Base.Sort.{
  IsSortedBy, IsPreorder, sort_by-IsSortedBy, All-sort_by, sum_by, sum_by-sort_by,
}
use agentprof.Base.Words.{u64_max}
use agentprof.Order.{Text, text_ord}
use agentprof.Map.{BTreeMap, AllEntries, sum_values, sum_values-upsert, values}
use agentprof.Episode.{Episodes}
use agentprof.Analyzer.{AnalysisReport}
use agentprof.Aggregate.Wall.{compute_wall}
use agentprof.Aggregate.ByModel.{
  AggregateReport, ModelBucket, TempModelAcc, new_model_acc, sum_output_tokens, first_model,
  model_bucket, bucket_le, note_session, add_session, collect_models, collect_wall, zip,
  aggregate_by_model,
}
use agentprof.Aggregate.Models.{has_model, sum_of, wall_of, metric, Adds, collect_models-Adds}

bucket_le_total : (a b : ModelBucket) → (bucket_le a b ≡ true) ⊎ (bucket_le b a ≡ true)
unfolding bucket_le
bucket_le_total a b =
    ground (arith, text_ord.cmp_swap a.model b.model, text_ord.cmp_swap b.model a.model)

bucket_le_trans :
    (a b c : ModelBucket) → bucket_le a b ≡ true → bucket_le b c ≡ true → bucket_le a c ≡ true
unfolding bucket_le
bucket_le_trans a b c h k =
    let x = a.model in
    let y = b.model in
    let z = c.model in
    grind (
      arith,
      text_ord.cmp_eq x y,
      text_ord.cmp_eq y z,
      text_ord.cmp_eq x z,
      text_ord.cmp_trans x y z,
    )

bucket_le-IsPreorder : IsPreorder bucket_le
bucket_le-IsPreorder = record { total = bucket_le_total; trans = bucket_le_trans }

All-values :
    {K V W : Type 0} (P : K → V → Type 0) (Q : W → Type 0) (f : V → W) (m : BTreeMap K V)
    → ((k : K) (v : V) → P k v → Q (f v))
    → AllEntries P m
    → All Q (map f (values m))
All-values P Q f [] g h = tt
All-values P Q f ((k, v) ∷ m) g h = (g k v h.0, All-values P Q f m g h.1)

sum_by-values :
    (m : BTreeMap Text TempModelAcc)
    → sum_by (λ b. b.session_count) (map model_bucket (values m))
      ≡ sum_values (λ t. t.session_count) m
sum_by-values [] = refl
sum_by-values ((k, t) ∷ m) = omega (arith, sum_by-values m)

sum_values-note_session :
    (own : Option Text) (report : AnalysisReport) (w : ℤ) (acc : BTreeMap Text TempModelAcc)
    → sum_values (λ t. t.session_count) (note_session own report w acc)
      ≡ sum_values (λ t. t.session_count) acc + (if is_some own then 1 else 0)
sum_values-note_session none report w acc = omega arith
sum_values-note_session (some own) report w acc =
    sum_values-upsert (λ t. t.session_count) 1 own (new_model_acc own) (add_session report w) acc
      refl (λ t. refl)

module _ {J : Type 0} where
  -- A bucket with the sums over the sessions of a model; 64-bit sums stop at their largest value.
  pub record SumsModel (name : Text) (ss : List (AnalysisReport × Episodes J)) (b : ModelBucket)
      : Type 0 where
    pub sessions : b.session_count ≡ count (has_model name) ss
    pub turns : b.turn_count ≡ sum_of name (λ s. length s.0.turn_summary) ss
    pub output :
        b.total_output_tokens
        ≡ min (sum_of name (λ s. sum_output_tokens s.0.turn_summary) ss) u64_max
    pub input :
        b.total_input_tokens ≡ min (sum_of name (λ s. metric (λ u. u.input_tokens) s.0) ss) u64_max
    pub read :
        b.total_cache_read
        ≡ min (sum_of name (λ s. metric (λ u. u.cache_read_tokens) s.0) ss) u64_max
    pub creation :
        b.total_cache_creation
        ≡ min (sum_of name (λ s. metric (λ u. u.cache_write_tokens) s.0) ss) u64_max
    pub duration : b.total_duration ≡ wall_of name ss

  model_bucket-SumsModel :
      (name : Text) (ss : List (AnalysisReport × Episodes J)) (t : TempModelAcc)
      → Adds name ss (new_model_acc name) t
      → SumsModel (model_bucket t).model ss (model_bucket t)
  model_bucket-SumsModel name ss t h =
      subst (λ n. SumsModel n ss (model_bucket t)) (sym h.model)
        (record {
          sessions = omega (arith, h.sessions);
          turns = omega (arith, h.turns);
          output = omega (arith, h.output);
          input = omega (arith, h.input);
          read = omega (arith, h.read);
          creation = omega (arith, h.creation);
          duration = h.duration ∙ zero-+ℤ (wall_of name ss);
        })

  -- The sessions whose first turn has a model.
  abbrev pub is_counted : AnalysisReport × Episodes J → Bool
  is_counted s = is_some (first_model s.0)

  sum_values-collect_models :
      (acc : BTreeMap Text TempModelAcc) (ss : List (AnalysisReport × Episodes J))
      → sum_values (λ t. t.session_count) (collect_models acc ss)
        ≡ sum_values (λ t. t.session_count) acc + count is_counted ss
  unfolding collect_models
  sum_values-collect_models acc [] = omega arith
  sum_values-collect_models acc ((report, episodes) ∷ ss) =
      let w = compute_wall episodes report.meta.started_at in
      omega (
        arith,
        sum_values-note_session (first_model report) report w acc,
        sum_values-collect_models (note_session (first_model report) report w acc) ss,
      )

  -- The sum of the wall durations of all sessions.
  abbrev pub sum_wall : List (AnalysisReport × Episodes J) → ℤ
  sum_wall [] = pos 0
  sum_wall (s ∷ ss) = compute_wall s.1 s.0.meta.started_at +ℤ sum_wall ss

  collect_wall_lem :
      (total : ℤ) (ss : List (AnalysisReport × Episodes J))
      → collect_wall total ss ≡ total +ℤ sum_wall ss
  unfolding collect_wall
  collect_wall_lem total [] = sym (+ℤ-zero total)
  collect_wall_lem total (s ∷ ss) =
      let w = compute_wall s.1 s.0.meta.started_at in
      collect_wall_lem (total +ℤ w) ss ∙ +ℤ_assoc total w (sum_wall ss)

  -- A report over sessions: what its buckets and totals say.
  pub record AggregatesModels (ss : List (AnalysisReport × Episodes J))
      (r : AggregateReport ModelBucket) : Type 0 where
    pub sums : All (λ b. SumsModel b.model ss b) r.buckets
    pub complete : sum_by (λ b. b.session_count) r.buckets ≡ count is_counted ss
    pub sorted : IsSortedBy bucket_le r.buckets
    pub wall : r.total_wall_duration ≡ sum_wall ss

  -- Where there is one list of episodes for each report, there is a result. Each bucket sums
  -- exactly the sessions whose first turn has its model, the buckets together count each session
  -- with such a model once, the ones with more sessions go first and then the names in order, and
  -- the total wall duration is that of all sessions.
  pub aggregate_by_model-Aggregates :
      (reports : List AnalysisReport) (es : List (Episodes J))
      → length reports ≡ length es
      → (r : AggregateReport ModelBucket) × (aggregate_by_model reports es ≡ some r)
        × (r.session_count ≡ length reports)
        × AggregatesModels (zip reports es) r
  unfolding aggregate_by_model
  aggregate_by_model-Aggregates reports es h =
      let ss = zip reports es in
      let m = collect_models [] ss in
      let same : (length reports == length es) ≡ true = ground arith in
      rw same (
        _,
        refl,
        refl,
        record {
          sums = All-sort_by bucket_le _ _ (
              All-values _ _ model_bucket m (λ name t. model_bucket-SumsModel name ss t)
                (collect_models-Adds ss));
          complete = omega (
            arith,
            sum_by-sort_by bucket_le (λ b. b.session_count) (map model_bucket (values m)),
            sum_by-values m,
            sum_values-collect_models [] ss,
          );
          sorted = sort_by-IsSortedBy bucket_le bucket_le-IsPreorder (map model_bucket (values m));
          wall = collect_wall_lem (pos 0) ss ∙ zero-+ℤ (sum_wall ss);
        },
      )
