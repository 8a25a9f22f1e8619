-- ===== src/Runner/Effects.antt =====
-- What one feed run leaves behind: the row of the run, the source's watermark, the dead letters.
use null.Prelude.{
  ℕ, ◌+◌, String, ◌≡◌, refl, ap, ◌∙◌, false, Option, none, some, arith, if◌then◌else◌,
}
use null.Errors.{ErrorClass, Result, ok, is_permanent, is_cti_error}
use null.Enums.{pending, running, failed}
use null.Json.{Fields, end}
use null.Models.{RunContext, RunResult}
use null.Tables.{Table}
use null.Breaker.{CircuitBreaker}
use null.Pipeline.{Raised, one, group, flatten, Outcome, returns, raises, run_with_outcome}
use null.Pipeline.Mapping.{NoCtiError}
use null.Retry.{AsyncRetrying}
use null.State.{SourceRow, FeedRunRow, Database, or_empty, open_run, mark_running}
use null.Runner.{
  Source, Clock, Pipeline, World, attempt_run, after_open, after_retry, finish, handle, caught,
  breaker_failed,
}
use null.Runner.Once.{with_retry_once}

module _ (source : Source) (run_id : ℕ) (clock : Clock) where
  -- The row that `open_run` inserts, and that row once `mark_running` has written it.
  abbrev pub pending_row : FeedRunRow
  pending_row = record {
    id = run_id;
    source_id = source.id;
    state = pending;
    started_at = clock.opened_at;
    finished_at = none;
    fetched_bytes = 0;
    records_in = 0;
    records_out = 0;
    error = none;
    watermark = some end;
    raw_uri = none;
  }

  abbrev pub running_row : FeedRunRow
  running_row = record pending_row { state = running }

  -- The context of the run: it starts from the source's watermark.
  abbrev pub context : SourceRow → RunContext
  context row = record {
    run_id = run_id;
    source_id = source.id;
    watermark = or_empty row.watermark;
    raw_uri = none;
  }

  -- The outcome of the first attempt.
  abbrev pub first_attempt : Pipeline → SourceRow → Outcome RunResult
  first_attempt pipeline row =
      run_with_outcome (clock.started_at 0) (clock.ended_at 0) (pipeline (context row) 0)

module _ (sources : Table String SourceRow) (runs : Table ℕ FeedRunRow) (retrying : AsyncRetrying)
    (source : Source) (run_id : ℕ) (clock : Clock) (w : World sources runs retrying) where
  -- The database while the pipeline runs, and the world after its one attempt.
  abbrev pub running_db : Database sources runs
  running_db = record w.db {
    run_rows =
        runs.put run_id (running_row source run_id clock)
          (runs.put run_id (pending_row source run_id clock) w.db.run_rows);
  }

  abbrev pub counted_world : World sources runs retrying
  counted_world = record w { db = running_db; pipeline_calls = w.pipeline_calls + 1 }

module _ (sources : Table String SourceRow) (runs : Table ℕ FeedRunRow) (retrying : AsyncRetrying)
    (source : Source) (run_id : ℕ) (clock : Clock) (pipeline : Pipeline)
    (w : World sources runs retrying) {row : SourceRow}
    (registered : sources.get source.id w.db.source_rows ≡ some row)
    (fresh : runs.get run_id w.db.run_rows ≡ none) where
  opened :
      open_run sources runs source.id run_id clock.opened_at w.db
      ≡ ok (
        (pending_row source run_id clock),
        or_empty row.watermark,
        record w.db { run_rows = runs.put run_id (pending_row source run_id clock) w.db.run_rows },
      )
  unfolding open_run
  opened = ground arith

  attempt_run_lem :
      (b : CircuitBreaker)
      → attempt_run sources runs retrying source run_id clock b pipeline w
        ≡ after_retry sources runs retrying source run_id clock b
            (first_attempt source run_id clock pipeline row, 1)
            (record w { db = running_db sources runs retrying source run_id clock w })
  unfolding mark_running
  attempt_run_lem b =
      ap
        (λ (r : Result (FeedRunRow × Fields × Database sources runs)).
          after_open sources runs retrying source run_id clock b pipeline r w)
        opened
      ∙ ap
          (λ (o : Outcome RunResult × ℕ).
            after_retry sources runs retrying source run_id clock b o
              (record w { db = running_db sources runs retrying source run_id clock w }))
          (with_retry_once retrying source.retry clock.started_at clock.ended_at
            (pipeline (context source run_id clock row)))

  -- The run's row is found again by the second session.
  pub found_again :
      runs.get run_id (running_db sources runs retrying source run_id clock w).run_rows
      ≡ some (running_row source run_id clock)
  found_again =
      runs.get-put_self run_id (running_row source run_id clock)
        (runs.put run_id (pending_row source run_id clock) w.db.run_rows)

  pub attempt_returns :
      (b : CircuitBreaker) (result : RunResult)
      → first_attempt source run_id clock pipeline row ≡ returns result
      → attempt_run sources runs retrying source run_id clock b pipeline w
        ≡ finish sources runs retrying source run_id clock b result
            (some (running_row source run_id clock))
            (counted_world sources runs retrying source run_id clock w)
  attempt_returns b result e =
      attempt_run_lem b
      ∙ ap
          (λ (o : Outcome RunResult).
            after_retry sources runs retrying source run_id clock b (o, 1)
              (record w { db = running_db sources runs retrying source run_id clock w }))
          e
      ∙ ap
          (λ (o : Option FeedRunRow).
            finish sources runs retrying source run_id clock b result o (record w {
              db = running_db sources runs retrying source run_id clock w;
              pipeline_calls = w.pipeline_calls + 1;
            }))
          found_again

  pub attempt_raises :
      (b : CircuitBreaker) (r : Raised)
      → first_attempt source run_id clock pipeline row ≡ raises r
      → attempt_run sources runs retrying source run_id clock b pipeline w
        ≡ handle sources runs retrying source run_id clock b r
            (counted_world sources runs retrying source run_id clock w)
  attempt_raises b r e =
      attempt_run_lem b
      ∙ ap
          (λ (o : Outcome RunResult).
            after_retry sources runs retrying source run_id clock b (o, 1)
              (record w { db = running_db sources runs retrying source run_id clock w }))
          e

not_permanent : (c : ErrorClass) → is_cti_error c ≡ false → is_permanent c ≡ false
not_permanent c h = ground arith

-- An exception that is no `CTIError` is no permanent error either: nothing is dead-lettered.
pub handle_other :
    (sources : Table String SourceRow) (runs : Table ℕ FeedRunRow) (retrying : AsyncRetrying)
    (source : Source) (run_id : ℕ) (clock : Clock) (b : CircuitBreaker) (r : Raised)
    (w : World sources runs retrying)
    → NoCtiError (flatten r)
    → handle sources runs retrying source run_id clock b r w ≡ (
        if caught r
        then (returns failed, breaker_failed sources runs retrying source clock b w)
        else (raises r, w))
unfolding handle caught flatten
handle_other sources runs retrying source run_id clock b (one e) w h =
    ground (arith, not_permanent e.cls h.0)
handle_other sources runs retrying source run_id clock b (group es) w h = refl
