-- ===== src/Scheduler.antt =====
-- manager/scheduler.py: the jobs that `main` puts into the store. The trigger that APScheduler makes
-- of a cron line is a parameter; waiting, signals and logging are not modelled.
pub mod Jobs
mod Tests
use null.Prelude.{
  ℕ, ℤ, String, str_append, Bool, true, false, Option, none, some, List, [], ◌∷◌, if◌then◌else◌,
}
use null.Dict.{Dict, lookup, insert}
use null.Errors.{Result, ok, err, ◌>>=◌}
use null.Text.{Text, codes, replace}
use null.Registry.{SourceConfig, SourceRegistry, enabled_sources}

-- `_sync_dsn`
unfoldable pub sync_dsn : Text → Text
unfolding replace
sync_dsn dsn =
    replace (codes "postgresql+psycopg2") (codes "postgresql")
      (replace (codes "+asyncpg") (codes "+psycopg2") dsn)

-- A job for `_enqueue`, with the arguments of `add_job`.
pub record Job (Trigger : Type 0) : Type 0 where
  pub trigger : Trigger
  pub source : SourceConfig
  pub queue : String
  pub max_instances : ℕ
  pub coalesce : Bool
  pub misfire_grace_time : ℕ

-- `f"feed:{source.id}"`
abbrev pub job_id : String → String
job_id source_id = str_append "feed:" source_id

module _ {Trigger : Type 0} (from_crontab : String → Result Trigger) (queue : String) where
  -- `apscheduler_jobs`, which a restart finds as it was.
  abbrev pub JobStore : Type 0
  JobStore = Dict (Job Trigger)

  unfoldable pub make_job : SourceConfig → Trigger → Job Trigger
  make_job source trigger = record {
    trigger = trigger;
    source = source;
    queue = queue;
    max_instances = 1;
    coalesce = true;
    misfire_grace_time = 300;
  }

  -- `scheduler.add_job(…, replace_existing=True)`
  unfoldable pub add_job : SourceConfig → JobStore → Result JobStore
  unfolding make_job insert
  add_job source store = from_crontab source.schedule >>= λ trigger.
      ok (insert (job_id source.id) (make_job source trigger) store)

  -- The loop of `main`.
  unfoldable pub add_jobs : List SourceConfig → JobStore → Result JobStore
  unfolding add_job
  add_jobs [] store = ok store
  add_jobs (source ∷ sources) store = add_job source store >>= add_jobs sources

  -- `main` up to the start of the scheduler, on the store that it finds.
  unfoldable pub schedule : SourceRegistry → JobStore → Result JobStore
  unfolding add_jobs
  schedule registry store = add_jobs (enabled_sources registry) store

-- `_enqueue`, after its pause: the source whose run is put into the queue.
unfoldable pub enqueue : SourceConfig → String → List (String × String) → List (String × String)
enqueue source queue jobs = (queue, source.id) ∷ jobs
