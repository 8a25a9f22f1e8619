-- ===== src/Runner.antt =====
-- manager/runner.py: one feed run from the breaker to the finalised row.
pub mod Once
pub mod Effects
pub mod Settled
pub mod Unregistered
mod Tests
use null.Prelude.{
  ℕ, ◌+◌, String, ◌&&◌, Bool, true, false, Option, none, some, List, [], ◌∷◌, ◌++◌, if◌then◌else◌,
}
use null.Dict.{insert}
use null.Errors.{Error, Result, ok, err, is_permanent, is_exception, other_error}
use null.Enums.{RunState, failed}
use null.Models.{RunContext, RunResult}
use null.Json.{Fields}
use null.Tables.{Table}
use null.Breaker.{
  CircuitPolicy, CircuitBreaker, BreakerRegistry, get_breaker, before, on_success, on_failure,
}
use null.Pipeline.{
  Raised, RaisedList, nil, cons, one, group, PipelineEnd, Outcome, returns, raises,
  run_with_outcome,
}
use null.Retry.{RetryPolicy, Attempts, AsyncRetrying, with_retry}
use null.State.{
  SourceRow, FeedRunRow, Database, is_success, open_run, mark_running, finalize_run,
  record_dead_letter,
}

-- The fields of `SourceConfig` that a run uses.
pub record Source : Type 0 where
  pub id : String
  pub retry : RetryPolicy
  pub circuit : CircuitPolicy

-- The readings of the clocks during one run.
pub record Clock : Type 0 where
  pub before_at : ℕ
  pub opened_at : ℕ
  pub started_at : ℕ → ℕ
  pub ended_at : ℕ → ℕ
  pub finalized_at : ℕ
  pub failed_at : ℕ

-- The pipeline that `build_pipeline_spec` makes: how each attempt ends, on the context of the run.
abbrev pub Pipeline : Type 0
Pipeline = RunContext → ℕ → PipelineEnd

-- Whether an `except Exception` takes it: a group is an `ExceptionGroup` if all its parts are.
unfoldable mutual
  pub caught : Raised → Bool
  caught (one e) = is_exception e.cls
  caught (group es) = caught_all es

  pub caught_all : RaisedList → Bool
  caught_all nil = true
  caught_all (cons r rs) = caught r && caught_all rs

module _ (sources : Table String SourceRow) (runs : Table ℕ FeedRunRow)
    (retrying : AsyncRetrying) where
  -- What a run reads and changes, and how often it has called the pipeline and closed its plugins.
  pub record World : Type 0 where
    pub breakers : BreakerRegistry
    pub db : Database sources runs
    pub pipeline_calls : ℕ
    pub plugins_closed : ℕ

  -- The breaker is an object of the registry: what a call changes is changed there.
  abbrev pub set_breaker : Source → CircuitBreaker → World → World
  set_breaker source b w = record w { breakers = insert source.id b w.breakers }

  abbrev pub breaker_failed : Source → Clock → CircuitBreaker → World → World
  breaker_failed source clock b w = set_breaker source (on_failure clock.failed_at b) w

  -- `except PermanentError` of the run.
  abbrev pub dead_letter :
      Source → ℕ → Clock → CircuitBreaker → Error → World → Result RunState × World
  dead_letter source run_id clock b e w =
      let w' = breaker_failed source clock b w in
      (
        ok failed,
        record w' { db = record_dead_letter sources runs run_id source.id e clock.failed_at w'.db },
      )

  -- The two `except` clauses of the run.
  unfoldable pub handle :
      Source → ℕ → Clock → CircuitBreaker → Raised → World → Outcome RunState × World
  handle source run_id clock b (one e) w =
      if is_permanent e.cls
      then (returns failed, (dead_letter source run_id clock b e w).1)
      else if is_exception e.cls
      then (returns failed, breaker_failed source clock b w)
      else (raises (one e), w)
  handle source run_id clock b (group es) w =
      if caught_all es
      then (returns failed, breaker_failed source clock b w)
      else (raises (group es), w)

  abbrev pub settle : RunState → Source → Clock → CircuitBreaker → World → World
  settle state source clock b w =
      if is_success state
      then set_breaker source (on_success b) w
      else breaker_failed source clock b w

  -- The second session and the breaker, once the pipeline has a result. `assert row is not None`.
  abbrev pub finish :
      Source
      → ℕ
      → Clock
      → CircuitBreaker
      → RunResult
      → Option FeedRunRow
      → World
      → Outcome RunState × World
  finish source run_id clock b result none w =
      handle source run_id clock b (one (record { cls = other_error; message = "assertion" })) w
  finish source run_id clock b result (some row) w =
      let db =
        finalize_run sources runs row result.state clock.finalized_at result.fetched_bytes
          result.records_in result.records_out result.error (some result.watermark) result.raw_uri
          w.db in
      (returns result.state, settle result.state source clock b (record w { db = db }))

  abbrev pub after_retry :
      Source → ℕ → Clock → CircuitBreaker → Outcome RunResult × ℕ → World → Outcome RunState × World
  after_retry source run_id clock b (returns result, made) w =
      let w' = record w { pipeline_calls = w.pipeline_calls + made } in
      finish source run_id clock b result (runs.get run_id w'.db.run_rows) w'
  after_retry source run_id clock b (raises r, made) w =
      handle source run_id clock b r (record w { pipeline_calls = w.pipeline_calls + made })

  -- The body of the `try`, after the first session has opened the run.
  abbrev pub after_open :
      Source
      → ℕ
      → Clock
      → CircuitBreaker
      → Pipeline
      → Result (FeedRunRow × Fields × Database sources runs)
      → World
      → Outcome RunState × World
  after_open source run_id clock b pipeline (err e) w = handle source run_id clock b (one e) w
  after_open source run_id clock b pipeline (ok (row, watermark, db)) w =
      let (row', db') = mark_running sources runs row db in
      let ctx : RunContext = record {
        run_id = run_id;
        source_id = source.id;
        watermark = watermark;
        raw_uri = none;
      } in
      let run =
        λ (n : ℕ). run_with_outcome (clock.started_at n) (clock.ended_at n) (pipeline ctx n) in
      after_retry source run_id clock b (with_retry retrying source.retry run)
        (record w { db = db' })

  -- The body of the `try`.
  abbrev pub attempt_run :
      Source → ℕ → Clock → CircuitBreaker → Pipeline → World → Outcome RunState × World
  attempt_run source run_id clock b pipeline w =
      after_open source run_id clock b pipeline
        (open_run sources runs source.id run_id clock.opened_at w.db) w

  -- `finally`: every plugin of the pipeline is closed.
  abbrev pub closing : Outcome RunState × World → Outcome RunState × World
  closing (outcome, w) = (outcome, record w { plugins_closed = w.plugins_closed + 1 })

  abbrev pub admitted :
      Source → ℕ → Clock → CircuitBreaker → Result Pipeline → World → Outcome RunState × World
  admitted source run_id clock b (err e) w = (raises (one e), w)
  admitted source run_id clock b (ok pipeline) w =
      closing (attempt_run source run_id clock b pipeline w)

  -- `except CircuitOpen` around `breaker.before()`, and what follows it.
  abbrev pub after_before :
      Source
      → ℕ
      → Clock
      → Result (Unit {0})
      → CircuitBreaker
      → Result Pipeline
      → World
      → Outcome RunState × World
  after_before source run_id clock (err e) b built w = (returns failed, w)
  after_before source run_id clock (ok _) b built w = admitted source run_id clock b built w

  -- `FeedRunner.execute`, given what `build_pipeline_spec` makes of the source. The semaphores are
  -- taken and given back around it.
  unfoldable pub execute : Source → ℕ → Clock → Result Pipeline → World → Outcome RunState × World
  unfolding handle
  execute source run_id clock built w =
      let (breaker, store) = get_breaker source.id source.circuit w.breakers in
      let (passed, b) = before clock.before_at breaker in
      after_before source run_id clock passed b built
        (set_breaker source b (record w { breakers = store }))
