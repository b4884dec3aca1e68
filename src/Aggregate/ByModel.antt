-- ===== src/Aggregate/ByModel.antt =====
-- analyzer/aggregate/group_by_model.rs with its types of bucket.rs and mod.rs: the sessions by the
-- model of their first turn.
use Prim.Native.Nat.{compare, Ordering}
use agentprof.Base.{
  ℕ, ◌+◌, Bool, true, false, Option, none, some, List, [], ◌∷◌, map, length, ◌==◌, if◌then◌else◌,
}
use agentprof.Base.Int.{ℤ, pos, ◌+ℤ◌}
use agentprof.Base.Sort.{sort_by}
use agentprof.Base.Words.{u64_max, saturating_add}
use agentprof.Order.{Text, text_cmp, text_ord}
use agentprof.Map.{BTreeMap, upsert, values}
use agentprof.Event.{ModelUsage}
use agentprof.Episode.{Episodes}
use agentprof.Model.ToolSource.{bind_option}
use agentprof.Analyzer.{AnalysisReport, TurnSummaryRow}
use agentprof.Aggregate.Wall.{compute_wall}

pub data AggregateKey : Type 0 where
  tool mcp_server day model : AggregateKey

pub record AggregateReport (B : Type 0) : Type 0 where
  pub by : AggregateKey
  pub since : Option ℤ
  pub session_count : ℕ
  pub failure_count : ℕ
  pub total_wall_duration : ℤ
  pub buckets : List B

pub record ModelBucket : Type 0 where
  pub model : Text
  pub session_count : ℕ
  pub turn_count : ℕ
  pub total_output_tokens : ℕ
  pub total_input_tokens : ℕ
  pub total_cache_read : ℕ
  pub total_cache_creation : ℕ
  pub total_duration : ℤ

pub record TempModelAcc : Type 0 where
  pub model : Text
  pub session_count : ℕ
  pub turn_count : ℕ
  pub total_output_tokens : ℕ
  pub total_input_tokens : ℕ
  pub total_cache_read : ℕ
  pub total_cache_creation : ℕ
  pub total_duration : ℤ

abbrev pub new_model_acc : Text → TempModelAcc
new_model_acc name = record {
  model = name;
  session_count = 0;
  turn_count = 0;
  total_output_tokens = 0;
  total_input_tokens = 0;
  total_cache_read = 0;
  total_cache_creation = 0;
  total_duration = pos 0;
}

-- `m.values().map(field).fold(0, u64::saturating_add)`
unfoldable pub fold_field : (ModelUsage → ℕ) → ℕ → BTreeMap Text ModelUsage → ℕ
fold_field field total [] = total
fold_field field total ((k, u) ∷ m) = fold_field field (saturating_add u64_max total (field u)) m

abbrev pub CacheFields : Type 0
CacheFields = ℕ × ℕ × ℕ

unfoldable pub sum_cache_fields : AnalysisReport → CacheFields
unfolding fold_field
sum_cache_fields report = elim report.model_metrics [
  | none ↦ (0, 0, 0)
  | some m ↦ (
    fold_field (λ u. u.input_tokens) 0 m,
    fold_field (λ u. u.cache_read_tokens) 0 m,
    fold_field (λ u. u.cache_write_tokens) 0 m,
  )
]

-- The sum of the tokens of the turns that have a count. Its overflow, at more than 2 ^ 32 turns,
-- is not modelled.
abbrev pub sum_output_tokens : List TurnSummaryRow → ℕ
sum_output_tokens [] = 0
sum_output_tokens (t ∷ ts) = elim t.output_tokens [
  | none ↦ sum_output_tokens ts
  | some n ↦ n + sum_output_tokens ts
]

abbrev pub first : List TurnSummaryRow → Option TurnSummaryRow
first [] = none
first (t ∷ ts) = some t

-- `report.turn_summary.first().and_then(|t| t.model.clone())`
abbrev pub first_model : AnalysisReport → Option Text
first_model report = bind_option (first report.turn_summary) (λ t. t.model)

-- One session more for the model.
abbrev pub add_session : AnalysisReport → ℤ → TempModelAcc → TempModelAcc
add_session report session_wall entry =
    let (in_tokens, cache_read, cache_creation) = sum_cache_fields report in
    record entry {
      session_count = entry.session_count + 1;
      turn_count = entry.turn_count + length report.turn_summary;
      total_output_tokens =
          saturating_add u64_max entry.total_output_tokens (sum_output_tokens report.turn_summary);
      total_input_tokens = saturating_add u64_max entry.total_input_tokens in_tokens;
      total_cache_read = saturating_add u64_max entry.total_cache_read cache_read;
      total_cache_creation = saturating_add u64_max entry.total_cache_creation cache_creation;
      total_duration = entry.total_duration +ℤ session_wall;
    }

-- A session whose first turn has no model is skipped.
abbrev pub note_session :
    Option Text → AnalysisReport → ℤ → BTreeMap Text TempModelAcc → BTreeMap Text TempModelAcc
note_session none report session_wall acc = acc
note_session (some name) report session_wall acc =
    upsert name (new_model_acc name) (add_session report session_wall) acc

-- `ModelBucket::new(..).with_cache_metrics(..)`
abbrev pub model_bucket : TempModelAcc → ModelBucket
model_bucket t = record {
  model = t.model;
  session_count = t.session_count;
  turn_count = t.turn_count;
  total_output_tokens = t.total_output_tokens;
  total_input_tokens = t.total_input_tokens;
  total_cache_read = t.total_cache_read;
  total_cache_creation = t.total_cache_creation;
  total_duration = t.total_duration;
}

abbrev pub not_gt : Ordering → Bool
not_gt Ordering.gt = false
not_gt _ = true

-- More sessions first, then by the name of the model.
unfoldable pub bucket_le : ModelBucket → ModelBucket → Bool
bucket_le a b = elim (compare b.session_count a.session_count) [
  | Ordering.lt ↦ true
  | Ordering.gt ↦ false
  | Ordering.eq ↦ not_gt (text_cmp a.model b.model)
]

module _ {J : Type 0} where
  -- The loop over the pairs of a report and its episodes.
  unfoldable pub collect_models :
      BTreeMap Text TempModelAcc → List (AnalysisReport × Episodes J) → BTreeMap Text TempModelAcc
  collect_models acc [] = acc
  collect_models acc ((report, episodes) ∷ sessions) =
      collect_models
        (note_session (first_model report) report (compute_wall episodes report.meta.started_at)
          acc)
        sessions

  -- The same loop, for `total_wall`.
  unfoldable pub collect_wall : ℤ → List (AnalysisReport × Episodes J) → ℤ
  collect_wall total_wall [] = total_wall
  collect_wall total_wall ((report, episodes) ∷ sessions) =
      collect_wall (total_wall +ℤ compute_wall episodes report.meta.started_at) sessions

  abbrev pub zip : List AnalysisReport → List (Episodes J) → List (AnalysisReport × Episodes J)
  zip [] es = []
  zip (r ∷ rs) [] = []
  zip (r ∷ rs) (e ∷ es) = (r, e) ∷ zip rs es

  -- `none` where the lengths differ, at which the code panics.
  unfoldable pub aggregate_by_model :
      List AnalysisReport → List (Episodes J) → Option (AggregateReport ModelBucket)
  aggregate_by_model reports episodes_per_report =
      let sessions = zip reports episodes_per_report in
      if length reports == length episodes_per_report
      then some (record {
        by = AggregateKey.model;
        since = none;
        session_count = length reports;
        failure_count = 0;
        total_wall_duration = collect_wall (pos 0) sessions;
        buckets = sort_by bucket_le (map model_bucket (values (collect_models [] sessions)));
      })
      else none
