-- ===== src/Worker.antt =====
-- manager/worker.py: `run_feed`, which the queue calls for a job, on top of the feed runner. Of the
-- log only its context is kept; the settings and the pools of `startup` are not modelled.
pub mod Jobs
use null.Prelude.{ℕ, String, Bool, Option, none, some, if◌then◌else◌}
use null.Errors.{Error, Result, ok, err}
use null.Enums.{RunState, run_state_value}
use null.Tables.{Table}
use null.Pipeline.{Raised, one, Outcome, returns, raises}
use null.Retry.{AsyncRetrying}
use null.State.{SourceRow, FeedRunRow}
use null.Registry.{SourceConfig, SourceRegistry, get_source}
use null.Runner.{Source, Clock, Pipeline, World, execute}

-- The fields of the configuration that the runner uses.
abbrev pub source_of : SourceConfig → Source
source_of cfg = record { id = cfg.id; retry = cfg.retry; circuit = cfg.circuit }

-- The context that every log line carries: the run id, which is the id of the job, and the source.
abbrev pub LogContext : Type 0
LogContext = Option (String × String)

module _ (sources : Table String SourceRow) (runs : Table ℕ FeedRunRow)
    (retrying : AsyncRetrying) where
  -- What a worker process holds between jobs: its registry, its one runner and the log context.
  pub record WorkerState : Type 0 where
    pub registry : SourceRegistry
    pub world : World sources runs retrying
    pub log_context : LogContext

  abbrev pub state_text : Outcome RunState → Outcome String
  state_text (returns state) = returns (run_state_value state)
  state_text (raises r) = raises r

  -- `try … finally: clear_run_context()`
  abbrev pub run_known :
      SourceConfig → ℕ → Clock → Result Pipeline → WorkerState → Outcome String × WorkerState
  run_known cfg run_id clock built st =
      let (outcome, world) =
        execute sources runs retrying (source_of cfg) run_id clock built st.world in
      (state_text outcome, record st { world = world; log_context = none })

  -- `run_feed`, given what `build_pipeline_spec` makes of the source that it finds.
  unfoldable pub run_feed :
      String
      → ℕ
      → Clock
      → (SourceConfig → Result Pipeline)
      → WorkerState
      → Outcome String × WorkerState
  unfolding get_source execute
  run_feed source_id run_id clock built st = elim (get_source source_id st.registry) [
    | err e ↦ (raises (one e), st)
    | ok cfg ↦ run_known cfg run_id clock (built cfg) st
  ]
