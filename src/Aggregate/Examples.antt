-- ===== src/Aggregate/Examples.antt =====
-- Two sessions under one model and one without a model, and the theorems at them.
use agentprof.Base.{ℕ, ◌≡◌, false, none, some, List, [], ◌∷◌, refl, length, map}
use agentprof.Base.Int.{pos, ◌+ℤ◌, sub_ℕ}
use agentprof.Base.Sort.{sort_by, insert_by}
use agentprof.Order.{text, text_ord, text_cmp}
use agentprof.Map.{upsert}
use agentprof.Episode.{Episodes, Turn, new_turn}
use agentprof.Analyzer.{AnalysisReport, SessionMeta, copilot, analyze, turn_summary, turn_row}
use agentprof.Aggregate.Wall.{compute_wall, latest_end, latest_of, latest_of_all}
use agentprof.Aggregate.ByModel.{
  AggregateKey, AggregateReport, ModelBucket, aggregate_by_model, collect_models, collect_wall,
  sum_cache_fields, fold_field, bucket_le, zip,
}
use agentprof.Aggregate.Duration.{IsWall, compute_wall-IsWall}
use agentprof.Aggregate.Buckets.{AggregatesModels, aggregate_by_model-Aggregates}

abbrev turn : ℕ → ℕ → Turn
turn from to = record (new_turn (text "t") from) {
  ended_at = some to;
  model = some (text "gpt");
  output_tokens = some 40;
}

abbrev episodes_of : List Turn → Episodes ℕ
episodes_of turns = record {
  turns = turns;
  tools = [];
  hooks = [];
  skills = [];
  mode_segments = [];
  aborts = [];
  warnings = [];
  model_metrics = none;
  loaded_mcp_tools = [];
}

abbrev meta : SessionMeta
meta = record {
  id = text "s";
  agent = copilot;
  producer = none;
  agent_version = none;
  started_at = 1;
  cwd = none;
  repository = none;
  branch = none;
  is_live = false;
}

abbrev sessions : List (Episodes ℕ)
sessions =
    episodes_of (turn 2 9 ∷ turn 9 12 ∷ []) ∷ episodes_of [] ∷ episodes_of (turn 1 4 ∷ []) ∷ []

abbrev reports : List AnalysisReport
reports = map (λ e. analyze e meta []) sessions

walls : map (λ e. compute_wall e 1) sessions ≡ pos 11 ∷ pos 0 ∷ pos 3 ∷ []
unfolding compute_wall latest_end latest_of latest_of_all sub_ℕ
walls = refl

compute_wall-IsWall_example :
    IsWall (episodes_of (turn 2 9 ∷ [])) 1 (compute_wall (episodes_of (turn 2 9 ∷ [])) 1)
compute_wall-IsWall_example = compute_wall-IsWall (episodes_of (turn 2 9 ∷ [])) 1

one_bucket :
    aggregate_by_model reports sessions
    ≡ some (record {
      by = AggregateKey.model;
      since = none;
      session_count = 3;
      failure_count = 0;
      total_wall_duration = pos 14;
      buckets =
          record {
            model = text "gpt";
            session_count = 2;
            turn_count = 3;
            total_output_tokens = 120;
            total_input_tokens = 0;
            total_cache_read = 0;
            total_cache_creation = 0;
            total_duration = pos 14;
          }
          ∷ [];
    })
unfolding aggregate_by_model collect_models collect_wall sum_cache_fields fold_field bucket_le
    compute_wall latest_end latest_of latest_of_all sub_ℕ ◌+ℤ◌ sort_by insert_by upsert analyze
    turn_summary turn_row text_cmp
one_bucket = refl

three : length reports ≡ length sessions
unfolding analyze
three = refl

aggregate_by_model-Aggregates_example :
    (r : AggregateReport ModelBucket) × (aggregate_by_model reports sessions ≡ some r)
    × (r.session_count ≡ length reports)
    × AggregatesModels (zip reports sessions) r
aggregate_by_model-Aggregates_example = aggregate_by_model-Aggregates reports sessions three
