-- ===== src/Cli/Runs/Ignored.antt =====
-- What a replay makes of the archived payload and of the stage to start from.
use null.Prelude.{ℕ, String, ◌≡◌, ◌≢◌, refl, ap, ◌∙◌, true, Option, none, some, List, arith, eq_iff}
use null.Errors.{Result, ok}
use null.Enums.{RunState, run_state_value}
use null.Tables.{Table}
use null.Pipeline.{Outcome}
use null.Retry.{AsyncRetrying}
use null.State.{SourceRow, FeedRunRow}
use null.Registry.{SourceConfig}
use null.Runner.{Pipeline}
use null.Plugins.Builder.{PluginLoader, PipelineSpec, build_pipeline_spec}
use null.Cli.{printed}
use null.Cli.Runs.{
  NewRun, is_supported, archived, Platform, run_source, run_once, replay_run, replay_row,
  replay_known, replay,
}

archived-full : (uri : String) → uri ≢ "" → archived (some uri) ≡ some uri
archived-full uri full = ground (arith, eq_iff uri "")

module _ (sources : Table String SourceRow) (runs : Table ℕ FeedRunRow) (retrying : AsyncRetrying)
    (loader : PluginLoader) (pipeline_of : PipelineSpec loader → Pipeline) where
  run_source-uri :
      (uri : Option String) (new : NewRun) (source_id : String) (file : List SourceConfig)
      (w : Platform sources runs retrying loader pipeline_of)
      → run_source sources runs retrying loader pipeline_of uri new source_id file w
        ≡ run_source sources runs retrying loader pipeline_of none new source_id file w
  unfolding run_source build_pipeline_spec
  run_source-uri uri new source_id file w = refl

  replay-replay_run :
      (uuid : String → Result ℕ) (run_id from_stage uri : String) (new : NewRun)
      (file : List SourceConfig) (w : Platform sources runs retrying loader pipeline_of) (id : ℕ)
      (row : FeedRunRow)
      → is_supported from_stage ≡ true
      → uuid run_id ≡ ok id
      → runs.get id w.db.run_rows ≡ some row
      → archived row.raw_uri ≡ some uri
      → replay sources runs retrying loader pipeline_of uuid run_id from_stage new file w
        ≡ replay_run sources runs retrying loader pipeline_of from_stage new file row.source_id
            (some uri)
            w
  unfolding replay
  replay-replay_run uuid run_id from_stage uri new file w id row takes known found kept = rw takes (
      ap
        (λ (r : Result ℕ).
          replay_known sources runs retrying loader pipeline_of from_stage new file r w)
        known
      ∙ ap
          (λ (r : Option FeedRunRow).
            replay_row sources runs retrying loader pipeline_of from_stage new file r w)
          found
      ∙ ap
          (λ (u : Option String).
            replay_run sources runs retrying loader pipeline_of from_stage new file row.source_id u
              w)
          kept)

  -- A replay from a stage that the command takes, of a run that has a row with the URI of an archived
  -- payload: what is left behind is what `run_once` of the row's source leaves behind, and the end
  -- of the command is that of the same run. The URI and the stage have no part in it, but for the
  -- stage that is printed; so the payload is fetched again.
  pub replay-run_once :
      (uuid : String → Result ℕ) (run_id from_stage uri : String) (new : NewRun)
      (file : List SourceConfig) (w : Platform sources runs retrying loader pipeline_of) (id : ℕ)
      (row : FeedRunRow)
      → is_supported from_stage ≡ true
      → uuid run_id ≡ ok id
      → runs.get id w.db.run_rows ≡ some row
      → row.raw_uri ≡ some uri
      → uri ≢ ""
      → let (outcome, w') =
          run_source sources runs retrying loader pipeline_of none new row.source_id file w in
        (replay sources runs retrying loader pipeline_of uuid run_id from_stage new file w ≡ (
          printed (λ (s : RunState). (row.source_id, from_stage, run_state_value s)) outcome,
          w',
        ))
        × (run_once sources runs retrying loader pipeline_of row.source_id new file w
            ≡ (printed (λ (s : RunState). (row.source_id, run_state_value s)) outcome, w'))
  replay-run_once uuid run_id from_stage uri new file w id row takes known found kept full =
      let full_uri = ap archived kept ∙ archived-full uri full in
      (
        replay-replay_run uuid run_id from_stage uri new file w id row takes known found full_uri
            ∙ ap
                (λ (r : Outcome RunState × Platform sources runs retrying loader pipeline_of). (
                  printed (λ (s : RunState). (row.source_id, from_stage, run_state_value s)) r.0,
                  r.1,
                ))
                (run_source-uri (some uri) new row.source_id file w),
        unfold run_once in refl,
      )
