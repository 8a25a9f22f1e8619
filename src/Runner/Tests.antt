-- ===== src/Runner/Tests.antt =====
-- The theorems on a feed run at one registered source and one new run.
use null.Prelude.{
  arith, eq_iff, ℕ, ◌+◌, String, ◌≡◌, refl, true, none, some, [], ◌∷◌, if◌then◌else◌,
}
use null.Dict.{lookup}
use null.Errors.{Error, ok, transient_error, permanent_error, other_error}
use null.Enums.{failed, success}
use null.Json.{end}
use null.Models.{RunContext, RunResult}
use null.Tables.{Table}
use null.Tables.Assoc.{text_table, number_table, find}
use null.Breaker.{
  CircuitBreaker, opened, before, record_metric, new_breaker, get_breaker, on_failure,
}
use null.Pipeline.{
  one, group, cons, nil, PipelineEnd, finished, broken, returns, raises, run_with_outcome,
  run_result, any_error, flatten,
}
use null.Retry.{RetryPolicy, with_retry}
use null.Retry.Instance.{attempts_in_turn}
use null.State.{SourceRow, FeedRunRow, Database, is_success}
use null.Runner.{Source, Clock, Pipeline, World, caught, execute}
use null.Runner.Once.{with_retry_once}
use null.Runner.Effects.{running_row}
use null.Runner.Unregistered.{passed_breaker, execute_unregistered}
use null.Runner.Settled.{
  after, execute_settles, execute_strands, execute_dead_letters, execute_rejects,
}

abbrev sources : Table String SourceRow
sources = text_table SourceRow

abbrev runs : Table ℕ FeedRunRow
runs = number_table FeedRunRow

abbrev retry : RetryPolicy
retry = record { max_attempts = 5; initial_seconds = 1; max_seconds = 60; jitter_seconds = 5 }

abbrev source : Source
source = record {
  id = "feed";
  retry = retry;
  circuit = record { failure_threshold = 2; recovery_seconds = 300 };
}

abbrev clock : Clock
clock = record {
  before_at = 0;
  opened_at = 1;
  started_at = λ n. 2 + n;
  ended_at = λ n. 3 + n;
  finalized_at = 10;
  failed_at = 11;
}

abbrev row : SourceRow
row = record {
  id = "feed";
  name = none;
  plugin = "builtin.http_json";
  config_hash = "";
  enabled = true;
  watermark = none;
  last_etag = none;
  last_modified = none;
  last_seen_id = none;
  created_at = 0;
  updated_at = 0;
}

abbrev db : Database sources runs
db = record { source_rows = ("feed", row) ∷ []; run_rows = []; dead_letters = [] }

abbrev world : World sources runs attempts_in_turn
world = record { breakers = []; db = db; pipeline_calls = 0; plugins_closed = 0 }

-- All stages end normally.
abbrev sound : Pipeline
sound ctx n = finished (run_result ctx (2 + n) (3 + n))

abbrev context : RunContext
context = record { run_id = 7; source_id = "feed"; watermark = end; raw_uri = none }

-- A stage meets a permanent error, in a group as a task group raises it.
abbrev refusing : Pipeline
refusing ctx n =
    broken (group (cons (one (record { cls = permanent_error; message = "bad" })) nil)) ctx

-- A stage meets an exception that is no `CTIError`.
abbrev other : Error
other = record { cls = other_error; message = "boom" }

abbrev crashing : Pipeline
crashing ctx n = broken (group (cons (one other) nil)) ctx

abbrev result : RunResult
result = record (run_result context 2 3) { state = success }

execute_settles_example :
    let (outcome, w') = execute sources runs attempts_in_turn source 7 clock (ok sound) world in
    (outcome ≡ returns result.state)
    × (runs.get 7 w'.db.run_rows
        ≡ some (record {
          id = 7;
          source_id = "feed";
          state = success;
          started_at = 1;
          finished_at = some 10;
          fetched_bytes = 0;
          records_in = 0;
          records_out = 0;
          error = none;
          watermark = some end;
          raw_uri = none;
        }))
    × (sources.get "feed" w'.db.source_rows
        ≡ some (
            if is_success result.state
            then record row { watermark = some result.watermark }
            else row))
    × (w'.db.dead_letters ≡ [])
    × (lookup "feed" w'.breakers
        ≡ some (after result.state 11 (before 0 (new_breaker "feed" source.circuit)).1))
    × (w'.pipeline_calls ≡ 1)
    × (w'.plugins_closed ≡ 1)
unfolding get_breaker lookup new_breaker before record_metric run_with_outcome run_result find
execute_settles_example =
    execute_settles sources runs attempts_in_turn source 7 clock sound world {row = row} refl refl
      refl result refl

execute_strands_example :
    let (outcome, w') = execute sources runs attempts_in_turn source 7 clock (ok crashing) world in
    let raised = group (cons (one other) nil) in
    (outcome ≡ (if caught raised then returns failed else raises raised))
    × (runs.get 7 w'.db.run_rows ≡ some (running_row source 7 clock))
    × (w'.db.source_rows ≡ db.source_rows)
    × (w'.db.dead_letters ≡ [])
    × (lookup "feed" w'.breakers
        ≡ some (
            let b = (before 0 (new_breaker "feed" source.circuit)).1 in
            if caught raised then on_failure 11 b else b))
    × (w'.pipeline_calls ≡ 1)
    × (w'.plugins_closed ≡ 1)
unfolding get_breaker lookup new_breaker before record_metric run_with_outcome flatten any_error
    find
execute_strands_example =
    execute_strands sources runs attempts_in_turn source 7 clock crashing world {row = row} refl
      refl refl (group (cons (one other) nil)) refl

execute_dead_letters_example :
    (execute sources runs attempts_in_turn source 7 clock (ok refusing) world).1.db.dead_letters
    ≡ []
unfolding get_breaker lookup new_breaker before record_metric find
execute_dead_letters_example =
    execute_dead_letters sources runs attempts_in_turn source 7 clock refusing world {row = row}
      refl refl refl

abbrev tripped : CircuitBreaker
tripped = record {
  source_id = "feed";
  policy = source.circuit;
  state = opened;
  failures = 2;
  opened_at = 0;
  metric = some 2;
}

abbrev resting : World sources runs attempts_in_turn
resting = record world { breakers = ("feed", tripped) ∷ [] }

execute_rejects_example :
    let (outcome, w') = execute sources runs attempts_in_turn source 7 clock (ok sound) resting in
    (outcome ≡ returns failed)
    × (w'.db ≡ resting.db)
    × (w'.pipeline_calls ≡ 0)
    × (w'.plugins_closed ≡ 0)
    × ((b : CircuitBreaker) × (lookup "feed" w'.breakers ≡ some b)
        × (b.state ≡ opened)
        × (b.opened_at ≡ 0)
        × (b.failures ≡ 2))
    × (lookup "other" w'.breakers ≡ lookup "other" resting.breakers)
unfolding lookup before
execute_rejects_example =
    execute_rejects sources runs attempts_in_turn source 7 clock (ok sound) resting tripped "other"
      (λ e. ground (arith, eq_iff "feed" "other")) refl refl (omega arith)

-- Five attempts are allowed, and each would raise a transient error.
abbrev unavailable : ℕ → PipelineEnd
unavailable n =
    broken (group (cons (one (record { cls = transient_error; message = "503" })) nil)) context

with_retry_once_example :
    with_retry attempts_in_turn retry (λ n. run_with_outcome (2 + n) (3 + n) (unavailable n))
    ≡ (run_with_outcome 2 3 (unavailable 0), 1)
with_retry_once_example =
    with_retry_once attempts_in_turn retry (λ n. 2 + n) (λ n. 3 + n) unavailable

-- The source has no row.
abbrev unregistered : World sources runs attempts_in_turn
unregistered = record world { db = record { source_rows = []; run_rows = []; dead_letters = [] } }

execute_unregistered_example :
    let (outcome, w') =
      execute sources runs attempts_in_turn source 7 clock (ok sound) unregistered in
    (outcome ≡ returns failed)
    × (w'.db ≡ unregistered.db)
    × (w'.pipeline_calls ≡ 0)
    × (lookup "feed" w'.breakers
        ≡ some (
            on_failure 11
              (passed_breaker sources runs attempts_in_turn source 7 clock sound unregistered)))
unfolding lookup before get_breaker new_breaker record_metric
execute_unregistered_example =
    execute_unregistered sources runs attempts_in_turn source 7 clock sound unregistered refl refl
