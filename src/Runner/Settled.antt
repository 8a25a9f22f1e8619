-- ===== src/Runner/Settled.antt =====
-- `FeedRunner.execute` on a registered source, with a new run id, past the circuit breaker.
use null.Prelude.{
  ℕ, ◌+◌, ◌<◌, String, str_append, ◌≡◌, ◌≢◌, refl, ap, ◌∙◌, inl, inr, none, some, arith, Bool-cases,
  if◌then◌else◌,
}
use null.Dict.{lookup, lookup-insert_self, lookup-insert_ne}
use null.Errors.{Error, Result, ok, err, circuit_open}
use null.Enums.{RunState, failed}
use null.Models.{RunResult}
use null.Tables.{Table}
use null.Breaker.Registry.{get_breaker_known}
use null.Breaker.{
  opened, record_metric, BreakerRegistry, CircuitBreaker, get_breaker, before, on_success,
  on_failure,
}
use null.Pipeline.{Raised, Outcome, returns, raises}
use null.Pipeline.Mapping.{Outcome-cases, run_with_outcome-raises}
use null.Retry.{AsyncRetrying}
use null.State.Lifecycle.{finalize_run_self}
use null.State.{SourceRow, FeedRunRow, is_success, finalized}
use null.Runner.{
  Source, Clock, Pipeline, World, after_before, attempt_run, caught, settle, closing, execute,
  set_breaker,
}
use null.Runner.Effects.{
  running_row, running_db, first_attempt, counted_world, attempt_returns, attempt_raises,
  handle_other, context, found_again,
}

-- The breaker after a run, by the run's state.
abbrev pub after : RunState → ℕ → CircuitBreaker → CircuitBreaker
after state t b = if is_success state then on_success b else on_failure t b

settle_lem :
    (sources : Table String SourceRow) (runs : Table ℕ FeedRunRow) (retrying : AsyncRetrying)
    (state : RunState) (source : Source) (clock : Clock) (b : CircuitBreaker)
    (w : World sources runs retrying)
    → settle sources runs retrying state source clock b w
      ≡ set_breaker sources runs retrying source (after state clock.failed_at b) w
settle_lem sources runs retrying state source clock b w = elim (Bool-cases (is_success state)) [
  | inl h ↦ ground (arith, h)
  | inr h ↦ ground (arith, h)
]

module _ (sources : Table String SourceRow) (runs : Table ℕ FeedRunRow) (retrying : AsyncRetrying)
    (source : Source) (run_id : ℕ) (clock : Clock) (pipeline : Pipeline)
    (w : World sources runs retrying) {row : SourceRow}
    (registered : sources.get source.id w.db.source_rows ≡ some row)
    (fresh : runs.get run_id w.db.run_rows ≡ none)
    (passed : (before clock.before_at (get_breaker source.id source.circuit w.breakers).0).0
      ≡ ok tt) where
  -- The breaker and the world once `before` has let the run pass.
  abbrev breaker : CircuitBreaker
  breaker = (before clock.before_at (get_breaker source.id source.circuit w.breakers).0).1

  abbrev started : World sources runs retrying
  started =
      set_breaker sources runs retrying source breaker
        (record w { breakers = (get_breaker source.id source.circuit w.breakers).1 })

  abbrev one_attempt : Outcome RunResult
  one_attempt = first_attempt source run_id clock pipeline row

  execute-started :
      execute sources runs retrying source run_id clock (ok pipeline) w
      ≡ closing sources runs retrying
          (attempt_run sources runs retrying source run_id clock breaker pipeline started)
  unfolding execute
  execute-started =
      ap
        (λ (r : Result (Unit {0})).
          after_before sources runs retrying source run_id clock r breaker (ok pipeline) started)
        passed

  -- On a source that is registered, with a run id that is new, past the breaker, for a pipeline
  -- whose first attempt has a result: the run ends in the result's state, and the run's row holds
  -- its source, its beginning and its end, and the state, counts, error, watermark and URI of the
  -- result. The source's watermark moves only if the run succeeded. The breaker counts the run. The
  -- pipeline ran once, its plugins were closed once, and no dead letter was recorded, in whatever
  -- state the run ended.
  pub execute_settles :
      (result : RunResult)
      → one_attempt ≡ returns result
      → let (outcome, w') = execute sources runs retrying source run_id clock (ok pipeline) w in
        (outcome ≡ returns result.state)
        × (runs.get run_id w'.db.run_rows
            ≡ some (record {
              id = run_id;
              source_id = source.id;
              state = result.state;
              started_at = clock.opened_at;
              finished_at = some clock.finalized_at;
              fetched_bytes = result.fetched_bytes;
              records_in = result.records_in;
              records_out = result.records_out;
              error = result.error;
              watermark = some result.watermark;
              raw_uri = result.raw_uri;
            }))
        × (sources.get source.id w'.db.source_rows
            ≡ some (
                if is_success result.state
                then record row { watermark = some result.watermark }
                else row))
        × (w'.db.dead_letters ≡ w.db.dead_letters)
        × (lookup source.id w'.breakers ≡ some (after result.state clock.failed_at breaker))
        × (w'.pipeline_calls ≡ w.pipeline_calls + 1)
        × (w'.plugins_closed ≡ w.plugins_closed + 1)
  unfolding finalized
  execute_settles result e =
      let ends =
        execute-started
        ∙ ap (closing sources runs retrying) (
            attempt_returns sources runs retrying source run_id clock pipeline started {row = row}
              registered fresh breaker result e) in
      let (row_is, source_is, dead) =
        finalize_run_self sources runs (running_row source run_id clock) result.state
          clock.finalized_at result.fetched_bytes result.records_in result.records_out result.error
          result.watermark result.raw_uri
          (running_db sources runs retrying source run_id clock started) row registered in
      rw (ends, settle_lem sources runs retrying result.state)
        (
          refl,
          row_is,
          source_is,
          dead,
          lookup-insert_self source.id (after result.state clock.failed_at breaker)
              started.breakers,
          refl,
          refl,
        )

  -- On a source that is registered, with a run id that is new, past the breaker, for a pipeline
  -- whose first attempt raises, which then is no `CTIError`: the run is not finalised.
  -- The row of the run stays as `mark_running` left it, in state RUNNING, whatever the exception;
  -- the source's rows and the dead letters do not change, the pipeline ran once and its plugins
  -- were closed once. An `Exception` ends the run as failed and is counted by the breaker, and any
  -- other exception is let out.
  pub execute_strands :
      (r : Raised)
      → one_attempt ≡ raises r
      → let (outcome, w') = execute sources runs retrying source run_id clock (ok pipeline) w in
        (outcome ≡ (if caught r then returns failed else raises r))
        × (runs.get run_id w'.db.run_rows ≡ some (running_row source run_id clock))
        × (w'.db.source_rows ≡ w.db.source_rows)
        × (w'.db.dead_letters ≡ w.db.dead_letters)
        × (lookup source.id w'.breakers
            ≡ some (if caught r then on_failure clock.failed_at breaker else breaker))
        × (w'.pipeline_calls ≡ w.pipeline_calls + 1)
        × (w'.plugins_closed ≡ w.plugins_closed + 1)
  execute_strands r e =
      let no_cti =
        run_with_outcome-raises (clock.started_at 0) (clock.ended_at 0)
          (pipeline (context source run_id clock row) 0) r e in
      let counted = counted_world sources runs retrying source run_id clock started in
      let ends =
        execute-started
        ∙ ap (closing sources runs retrying) (
            attempt_raises sources runs retrying source run_id clock pipeline started {row = row}
              registered fresh breaker r e
            ∙ handle_other sources runs retrying source run_id clock breaker r counted no_cti) in
      let found =
        found_again sources runs retrying source run_id clock pipeline started {row = row}
          registered fresh in
      elim (Bool-cases (caught r)) [
        | inl h ↦
            rw (ends, h)
              (
                refl,
                found,
                refl,
                refl,
                lookup-insert_self source.id (on_failure clock.failed_at breaker) started.breakers,
                refl,
                refl,
              )
        | inr h ↦
            rw (ends, h)
              (
                refl,
                found,
                refl,
                refl,
                lookup-insert_self source.id breaker
                    (get_breaker source.id source.circuit w.breakers).1,
                refl,
                refl,
              )
      ]

  -- On a source that is registered, with a run id that is new, past the breaker: no exception of
  -- the pipeline, permanent ones included, is recorded as a dead letter: of those
  -- only the result of the run tells.
  pub execute_dead_letters :
      (execute sources runs retrying source run_id clock (ok pipeline) w).1.db.dead_letters
      ≡ w.db.dead_letters
  execute_dead_letters = elim (Outcome-cases one_attempt) [
    | inl (result, e) ↦ (execute_settles result e).3
    | inr (r, e) ↦ (execute_strands r e).3
  ]

before-open :
    (now : ℕ) (b : CircuitBreaker)
    → b.state ≡ opened
    → now < b.opened_at + b.policy.recovery_seconds
    → (e : Error) × ((before now b).0 ≡ err e)
      × ((before now b).1.state ≡ opened)
      × ((before now b).1.opened_at ≡ b.opened_at)
      × ((before now b).1.failures ≡ b.failures)
unfolding before record_metric
before-open now b is_opened early =
    let e : Error = record {
      cls = circuit_open;
      message = str_append "circuit open for source " b.source_id;
    } in
    (
      e,
      ground (arith, is_opened),
      ground (arith, is_opened),
      ground (arith, is_opened),
      ground (arith, is_opened),
    )

-- A run of a source whose circuit has opened less than the recovery time ago is not started: it
-- ends as failed, the pipeline is not called and no plugin is closed. It leaves no trace: the
-- database is as it was, with no row of the run. The circuit stays open from the same time on, with
-- the same count of failures, so that the run does not put off the recovery; and another breaker is
-- as it was.
pub execute_rejects :
    (sources : Table String SourceRow) (runs : Table ℕ FeedRunRow) (retrying : AsyncRetrying)
    (source : Source) (run_id : ℕ) (clock : Clock) (built : Result Pipeline)
    (w : World sources runs retrying) (held : CircuitBreaker) (other : String)
    → source.id ≢ other
    → lookup source.id w.breakers ≡ some held
    → held.state ≡ opened
    → clock.before_at < held.opened_at + held.policy.recovery_seconds
    → let (outcome, w') = execute sources runs retrying source run_id clock built w in
      (outcome ≡ returns failed)
      × (w'.db ≡ w.db)
      × (w'.pipeline_calls ≡ w.pipeline_calls)
      × (w'.plugins_closed ≡ w.plugins_closed)
      × ((b : CircuitBreaker) × (lookup source.id w'.breakers ≡ some b)
          × (b.state ≡ opened)
          × (b.opened_at ≡ held.opened_at)
          × (b.failures ≡ held.failures))
      × (lookup other w'.breakers ≡ lookup other w.breakers)
unfolding execute
execute_rejects sources runs retrying source run_id clock built w held other ne known is_opened
      early =
    let b = (before clock.before_at held).1 in
    let (e, rejected, still_opened, same_time, same_failures) =
      before-open clock.before_at held is_opened early in
    let ends =
      ap
        (λ (p : CircuitBreaker × BreakerRegistry).
          after_before sources runs retrying source run_id clock (before clock.before_at p.0).0
            (before clock.before_at p.0).1 built
            (set_breaker sources runs retrying source (before clock.before_at p.0).1
              (record w { breakers = p.1 })))
        (get_breaker_known source.id source.circuit w.breakers held known)
      ∙ ap
          (λ (r : Result (Unit {0})).
            after_before sources runs retrying source run_id clock r b built
              (set_breaker sources runs retrying source b w))
          rejected in
    rw ends (
      refl,
      refl,
      refl,
      refl,
      (b, lookup-insert_self source.id b w.breakers, still_opened, same_time, same_failures),
      lookup-insert_ne source.id other b w.breakers ne,
    )
