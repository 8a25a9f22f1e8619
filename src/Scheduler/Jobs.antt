-- ===== src/Scheduler/Jobs.antt =====
-- Which jobs are in the store after a start.
use text.Mathlib.TextLemmas.{append_cancel_left}
use null.Prelude.{String, ◌≡◌, ◌≢◌, ap, ◌∙◌, some, List, [], ◌∷◌, All, All-imply, arith}
use null.Dict.{lookup, insert, lookup-insert_ne, lookup-insert_self}
use null.Errors.{Result, ok, >>=-eq-ok}
use null.Registry.{SourceConfig, SourceRegistry, enabled_sources}
use null.Scheduler.{JobStore, job_id, make_job, add_job, add_jobs, schedule}

-- No two of the sources have one id.
abbrev pub IsDistinct : List SourceConfig → Type 0
IsDistinct [] = Unit
IsDistinct (source ∷ sources) =
    All (λ (s : SourceConfig). s.id ≢ source.id) sources × IsDistinct sources

job_id-injective : (a b : String) → job_id a ≡ job_id b → a ≡ b
job_id-injective a b e = append_cancel_left "feed:" a b e

module _ {Trigger : Type 0} (from_crontab : String → Result Trigger) (queue : String) where
  abbrev Store : Type 0
  Store = JobStore from_crontab queue

  add_job-inserted :
      (source : SourceConfig) (store store' : Store)
      → add_job from_crontab queue source store ≡ ok store'
      → (trigger : Trigger) × (from_crontab source.schedule ≡ ok trigger)
        × (store' ≡ insert (job_id source.id) (make_job from_crontab queue source trigger) store)
  unfolding add_job
  add_job-inserted source store store' e =
      let (trigger, made, done) =
        >>=-eq-ok (from_crontab source.schedule)
          (λ t. ok (insert (job_id source.id) (make_job from_crontab queue source t) store)) e in
      (trigger, made, cc done)

  add_jobs-next :
      (source : SourceConfig) (sources : List SourceConfig) (store store' : Store)
      → add_jobs from_crontab queue (source ∷ sources) store ≡ ok store'
      → (next : Store) × (add_job from_crontab queue source store ≡ ok next)
        × (add_jobs from_crontab queue sources next ≡ ok store')
  unfolding add_jobs
  add_jobs-next source sources store store' e =
      >>=-eq-ok (add_job from_crontab queue source store) (add_jobs from_crontab queue sources) e

  -- A job that the loop does not replace stays.
  add_jobs_keeps :
      (sources : List SourceConfig) (store store' : Store) (key : String)
      → All (λ (s : SourceConfig). job_id s.id ≢ key) sources
      → add_jobs from_crontab queue sources store ≡ ok store'
      → lookup key store' ≡ lookup key store
  add_jobs_keeps [] store store' key h e =
      ap (λ (s : Store). lookup key s) (unfold add_jobs in (ground (arith, e)))
  add_jobs_keeps (source ∷ sources) store store' key h e =
      let (next, added, rest) = add_jobs-next source sources store store' e in
      let (trigger, made, is) = add_job-inserted source store next added in
      add_jobs_keeps sources next store' key h.1 rest
      ∙ ap (λ (s : Store). lookup key s) is
      ∙ lookup-insert_ne (job_id source.id) key (make_job from_crontab queue source trigger) store
          h.0

  -- The job of a source, with the trigger of its cron line.
  abbrev pub IsScheduled : Store → SourceConfig → Type 0
  IsScheduled store source =
      (trigger : Trigger) × (from_crontab source.schedule ≡ ok trigger)
      × (lookup (job_id source.id) store ≡ some (make_job from_crontab queue source trigger))

  add_jobs-IsScheduled :
      (sources : List SourceConfig) (store store' : Store)
      → IsDistinct sources
      → add_jobs from_crontab queue sources store ≡ ok store'
      → All (IsScheduled store') sources
  add_jobs-IsScheduled [] store store' h e = tt
  add_jobs-IsScheduled (source ∷ sources) store store' h e =
      let (next, added, rest) = add_jobs-next source sources store store' e in
      let (trigger, made, is) = add_job-inserted source store next added in
      let job = make_job from_crontab queue source trigger in
      (
        (
          trigger,
          made,
          add_jobs_keeps sources next store' (job_id source.id)
                (All-imply {P = λ (s : SourceConfig). s.id ≢ source.id} sources
                  (λ s ne same. ne (job_id-injective s.id source.id same)) h.0)
                rest
              ∙ ap (λ (s : Store). lookup (job_id source.id) s) is
              ∙ lookup-insert_self (job_id source.id) job store,
        ),
        add_jobs-IsScheduled sources next store' h.1 rest,
      )

  -- A start of the scheduler that comes through, with sources of different ids: every enabled source
  -- has its job under its own key, with the trigger of its cron line; and every other job that the
  -- store held is still there, also that of a source that is now disabled or no longer configured.
  pub schedule_lem :
      (registry : SourceRegistry) (store store' : JobStore from_crontab queue) (key : String)
      → IsDistinct (enabled_sources registry)
      → All (λ (s : SourceConfig). job_id s.id ≢ key) (enabled_sources registry)
      → schedule from_crontab queue registry store ≡ ok store'
      → All (IsScheduled store') (enabled_sources registry) × (lookup key store' ≡ lookup key store)
  unfolding schedule
  schedule_lem registry store store' key distinct other e = (
    add_jobs-IsScheduled (enabled_sources registry) store store' distinct e,
    add_jobs_keeps (enabled_sources registry) store store' key other e,
  )
