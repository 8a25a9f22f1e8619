-- ===== src/Worker/Jobs.antt =====
-- How a job ends.
use null.Prelude.{ℕ, String, ◌≡◌, refl, ◌⊎◌, inl, inr, none}
use null.Errors.{Error, Result, ok, err, Result-cases}
use null.Tables.{Table}
use null.Pipeline.{one, raises}
use null.Retry.{AsyncRetrying}
use null.State.{SourceRow, FeedRunRow}
use null.Registry.{SourceConfig, get_source}
use null.Runner.{Clock, Pipeline, execute}
use null.Worker.{WorkerState, source_of, state_text, run_known, run_feed}

module _ (sources : Table String SourceRow) (runs : Table ℕ FeedRunRow) (retrying : AsyncRetrying)
    (source_id : String) (run_id : ℕ) (clock : Clock) (built : SourceConfig → Result Pipeline)
    (st : WorkerState sources runs retrying) where
  run_feed-known :
      (cfg : SourceConfig)
      → get_source source_id st.registry ≡ ok cfg
      → run_feed sources runs retrying source_id run_id clock built st
        ≡ run_known sources runs retrying cfg run_id clock (built cfg) st
  unfolding run_feed
  run_feed-known cfg known = rw (known, run_feed) refl

  run_feed-unknown :
      (e : Error)
      → get_source source_id st.registry ≡ err e
      → run_feed sources runs retrying source_id run_id clock built st ≡ (raises (one e), st)
  unfolding run_feed
  run_feed-unknown e unknown = rw (unknown, run_feed) refl

  -- A job for a source that the worker's registry does not know raises, and changes nothing. A job
  -- for any other ends as the runner's `execute` ends, with the text of its state, and leaves no
  -- log context behind, also where `execute` raises.
  pub run_feed_lem :
      ((e : Error) × (get_source source_id st.registry ≡ err e)
        × (run_feed sources runs retrying source_id run_id clock built st ≡ (raises (one e), st)))
      ⊎ ((cfg : SourceConfig) × (get_source source_id st.registry ≡ ok cfg)
          × (let (outcome, world) =
                execute sources runs retrying (source_of cfg) run_id clock (built cfg) st.world in
              run_feed sources runs retrying source_id run_id clock built st ≡ (
                state_text sources runs retrying outcome,
                record st { world = world; log_context = none },
              )))
  run_feed_lem = elim (Result-cases (get_source source_id st.registry)) [
    | inl (cfg, known) ↦ inr (cfg, known, run_feed-known cfg known)
    | inr (e, unknown) ↦ inl (e, unknown, run_feed-unknown e unknown)
  ]
