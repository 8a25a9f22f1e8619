-- ===== src/Runner/Unregistered.antt =====
-- A run of a source that has no row in the table of sources.
use null.Prelude.{ℕ, String, str_append, ◌≡◌, refl, ap, ◌∙◌, none, some, arith}
use null.Dict.{lookup, lookup-insert_self}
use null.Errors.{Error, Result, ok, err, watermark_conflict}
use null.Enums.{failed}
use null.Tables.{Table}
use null.Json.{Fields}
use null.Breaker.{CircuitBreaker, get_breaker, before, on_failure}
use null.Pipeline.{returns}
use null.Retry.{AsyncRetrying}
use null.State.{SourceRow, FeedRunRow, Database, open_run}
use null.Runner.{
  Source, Clock, Pipeline, World, set_breaker, after_before, after_open, attempt_run, closing,
  handle, execute,
}

module _ (sources : Table String SourceRow) (runs : Table ℕ FeedRunRow) (retrying : AsyncRetrying)
    (source : Source) (run_id : ℕ) (clock : Clock) (pipeline : Pipeline)
    (w : World sources runs retrying) where
  -- The breaker after `before`.
  abbrev pub passed_breaker : CircuitBreaker
  passed_breaker = (before clock.before_at (get_breaker source.id source.circuit w.breakers).0).1

  abbrev started : World sources runs retrying
  started =
      set_breaker sources runs retrying source passed_breaker
        (record w { breakers = (get_breaker source.id source.circuit w.breakers).1 })

  open_run-unregistered :
      sources.get source.id w.db.source_rows ≡ none
      → (e : Error) × (e.cls ≡ watermark_conflict)
        × (open_run sources runs source.id run_id clock.opened_at w.db ≡ err e)
  unfolding open_run
  open_run-unregistered missing =
      let e : Error = record {
        cls = watermark_conflict;
        message = str_append "source not registered: " source.id;
      } in
      (e, refl, rw (missing, open_run) refl)

  attempt_run-unregistered :
      (b : CircuitBreaker) (e : Error)
      → e.cls ≡ watermark_conflict
      → open_run sources runs source.id run_id clock.opened_at w.db ≡ err e
      → attempt_run sources runs retrying source run_id clock b pipeline started ≡ (
        returns failed,
        set_breaker sources runs retrying source (on_failure clock.failed_at b) started,
      )
  unfolding handle
  attempt_run-unregistered b e conflict failed_open =
      ap
        (λ (r : Result (FeedRunRow × Fields × Database sources runs)).
          after_open sources runs retrying source run_id clock b pipeline r started)
        failed_open
      ∙ ground (arith, conflict)

  -- Past the breaker, a run of a source that has no row in the table of sources ends as failed, and
  -- the breaker counts the failure; the pipeline is not called, and the database, where a row of
  -- the run is neither written nor a dead letter recorded, is as it was.
  pub execute_unregistered :
      (before clock.before_at (get_breaker source.id source.circuit w.breakers).0).0 ≡ ok tt
      → sources.get source.id w.db.source_rows ≡ none
      → let (outcome, w') = execute sources runs retrying source run_id clock (ok pipeline) w in
        (outcome ≡ returns failed)
        × (w'.db ≡ w.db)
        × (w'.pipeline_calls ≡ w.pipeline_calls)
        × (lookup source.id w'.breakers ≡ some (on_failure clock.failed_at passed_breaker))
  unfolding execute
  execute_unregistered passed missing =
      let (e, conflict, failed_open) = open_run-unregistered missing in
      let ends =
        ap
          (λ (r : Result (Unit {0})).
            after_before sources runs retrying source run_id clock r passed_breaker (ok pipeline)
              started)
          passed
        ∙ ap (closing sources runs retrying)
            (attempt_run-unregistered passed_breaker e conflict failed_open) in
      rw ends (
        refl,
        refl,
        refl,
        lookup-insert_self source.id (on_failure clock.failed_at passed_breaker) started.breakers,
      )
