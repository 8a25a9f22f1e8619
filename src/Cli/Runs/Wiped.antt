-- ===== src/Cli/Runs/Wiped.antt =====
-- What a backfill forgets.
use null.Prelude.{
  ℕ, String, ◌≡◌, ◌≢◌, refl, ◌⊎◌, inl, inr, Bool, Bool-cases, true, false, some, List,
}
use null.Tables.{Table}
use null.Retry.{AsyncRetrying}
use null.State.{SourceRow, FeedRunRow}
use null.Registry.{SourceConfig}
use null.Runner.{Pipeline}
use null.Plugins.Builder.{PluginLoader, PipelineSpec}
use null.Cli.{exits}
use null.Cli.Runs.{NewRun, Platform, run_once, wiped_row, wipe, backfill}

module _ (sources : Table String SourceRow) (runs : Table ℕ FeedRunRow) (retrying : AsyncRetrying)
    (loader : PluginLoader) (pipeline_of : PipelineSpec loader → Pipeline) where
  wipe-row :
      (source_id other : String) (w : Platform sources runs retrying loader pipeline_of)
      (row : SourceRow)
      → sources.get source_id w.db.source_rows ≡ some row
      → let w' = wipe sources runs retrying loader pipeline_of source_id w in
        (sources.get source_id w'.db.source_rows ≡ some (wiped_row row))
        × (source_id ≢ other
            → sources.get other w'.db.source_rows ≡ sources.get other w.db.source_rows)
        × (w'.db.run_rows ≡ w.db.run_rows)
        × (w'.db.dead_letters ≡ w.db.dead_letters)
  unfolding wipe
  wipe-row source_id other w row there = rw there (
    sources.get-put_self source_id (wiped_row row) w.db.source_rows,
    λ ne. sources.get-put_ne source_id other (wiped_row row) w.db.source_rows ne,
    refl,
    refl,
  )

  -- A backfill of a source that has a row, with a time that is one: it is `run_once` on a database in
  -- which the row of the source has no watermark, tag, time or id of an earlier fetch; every other
  -- row, the runs and the dead letters are as they were, and the time itself is not used. With a time that is none the command exits with 2 and changes nothing.
  pub backfill-run_once :
      (is_iso : String → Bool) (source_id other since : String) (new : NewRun)
      (file : List SourceConfig) (w : Platform sources runs retrying loader pipeline_of)
      (row : SourceRow)
      → sources.get source_id w.db.source_rows ≡ some row
      → ((is_iso since ≡ false)
          × (backfill sources runs retrying loader pipeline_of is_iso source_id since new file w
              ≡ (exits 2, w)))
        ⊎ ((is_iso since ≡ true)
            × ((w' : Platform sources runs retrying loader pipeline_of) × (backfill sources runs
                    retrying loader pipeline_of is_iso source_id since new file w
                  ≡ run_once sources runs retrying loader pipeline_of source_id new file w')
                × (sources.get source_id w'.db.source_rows ≡ some (wiped_row row))
                × (source_id ≢ other
                    → sources.get other w'.db.source_rows ≡ sources.get other w.db.source_rows)
                × (w'.db.run_rows ≡ w.db.run_rows)
                × (w'.db.dead_letters ≡ w.db.dead_letters)))
  unfolding backfill
  backfill-run_once is_iso source_id other since new file w row there =
      let (row_wiped, rest, same_runs, same_letters) = wipe-row source_id other w row there in
      elim (Bool-cases (is_iso since)) [
        | inl valid ↦ inr (
          valid,
          (
            wipe sources runs retrying loader pipeline_of source_id w,
            rw (valid, backfill) refl,
            row_wiped,
            rest,
            same_runs,
            same_letters,
          ),
        )
        | inr invalid ↦ inl (invalid, rw (invalid, backfill) refl)
      ]
