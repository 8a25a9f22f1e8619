-- ===== src/Cli/Runs.antt =====
-- cli/commands/run_once.py, cli/commands/replay.py and cli/commands/backfill.py. `UUID` and
-- `datetime.fromisoformat` are parameters, and so is what a pipeline does that is built of a
-- specification; the settings give the file of the sources, and the time and the id of a new run
-- are input.
pub mod Ignored
pub mod Wiped
use null.Prelude.{
  ℕ, String, str_eq, Bool, true, false, ◌||◌, Option, none, some, List, [], ◌∷◌, if◌then◌else◌,
}
use null.Errors.{Error, Result, ok, err}
use null.Enums.{RunState, run_state_value}
use null.Json.{end}
use null.Tables.{Table}
use null.Pipeline.{one, Outcome, returns, raises}
use null.Retry.{AsyncRetrying}
use null.State.{SourceRow, FeedRunRow, Database}
use null.Registry.{SourceConfig, SourceRegistry, load, get_source}
use null.Runner.{Clock, Pipeline, World, execute}
use null.Worker.{source_of}
use null.Plugins.Builder.{PluginLoader, PipelineSpec, build_pipeline_spec}
use null.Cli.{CommandEnd, prints, exits, crashes, printed}

-- What a new run is given: its id and the readings of the clocks.
pub record NewRun : Type 0 where
  pub run_id : ℕ
  pub clock : Clock

-- The stages that `--from-stage` takes.
abbrev pub is_supported : String → Bool
is_supported stage =
    str_eq stage "parse"
    || str_eq stage "normalize"
    || str_eq stage "enrich"
    || str_eq stage "persist"

-- `not row.raw_uri`, with the URI where there is one.
abbrev pub archived : Option String → Option String
archived none = none
archived (some uri) = if str_eq uri "" then none else some uri

-- A row of `sources` as after no run at all.
abbrev pub wiped_row : SourceRow → SourceRow
wiped_row row = record row {
  watermark = some end;
  last_etag = none;
  last_modified = none;
  last_seen_id = none;
}

module _ (sources : Table String SourceRow) (runs : Table ℕ FeedRunRow) (retrying : AsyncRetrying)
    (loader : PluginLoader) (pipeline_of : PipelineSpec loader → Pipeline) where
  abbrev pub Platform : Type 0
  Platform = World sources runs retrying

  abbrev pub pipeline_built : Result (PipelineSpec loader) → Result Pipeline
  pipeline_built (ok spec) = ok (pipeline_of spec)
  pipeline_built (err e) = err e

  -- A `FeedRunner` with a new registry of breakers.
  abbrev pub new_runner : Platform → Platform
  new_runner w = record w { breakers = [] }

  abbrev pub run_found :
      Option String → NewRun → Result SourceConfig → Platform → Outcome RunState × Platform
  run_found replay_from_uri new (err e) w = (raises (one e), w)
  run_found replay_from_uri new (ok cfg) w =
      execute sources runs retrying (source_of cfg) new.run_id new.clock
        (pipeline_built (build_pipeline_spec loader cfg replay_from_uri)) (new_runner w)

  abbrev pub run_loaded :
      Option String
      → NewRun
      → String
      → Result (Unit {0})
      → SourceRegistry
      → Platform
      → Outcome RunState × Platform
  run_loaded replay_from_uri new source_id (err e) registry w = (raises (one e), w)
  run_loaded replay_from_uri new source_id (ok _) registry w =
      run_found replay_from_uri new (get_source source_id registry) w

  -- The registry of the file, the source in it, and a run of the source by a new runner.
  unfoldable pub run_source :
      Option String → NewRun → String → List SourceConfig → Platform → Outcome RunState × Platform
  unfolding load get_source execute build_pipeline_spec
  run_source replay_from_uri new source_id file w =
      let (loaded, registry) = load file [] in
      run_loaded replay_from_uri new source_id loaded registry w

  -- `run_once`, which prints the source and the state.
  unfoldable pub run_once :
      String → NewRun → List SourceConfig → Platform → CommandEnd (String × String) × Platform
  unfolding run_source
  run_once source_id new file w =
      let (outcome, w') = run_source none new source_id file w in
      (printed (λ (state : RunState). (source_id, run_state_value state)) outcome, w')

  abbrev pub replay_run :
      String
      → NewRun
      → List SourceConfig
      → String
      → Option String
      → Platform
      → CommandEnd (String × String × String) × Platform
  replay_run from_stage new file source_id none w = (exits 3, w)
  replay_run from_stage new file source_id (some uri) w =
      let (outcome, w') = run_source (some uri) new source_id file w in
      (printed (λ (state : RunState). (source_id, from_stage, run_state_value state)) outcome, w')

  abbrev pub replay_row :
      String
      → NewRun
      → List SourceConfig
      → Option FeedRunRow
      → Platform
      → CommandEnd (String × String × String) × Platform
  replay_row from_stage new file none w = (exits 1, w)
  replay_row from_stage new file (some row) w =
      replay_run from_stage new file row.source_id (archived row.raw_uri) w

  abbrev pub replay_known :
      String
      → NewRun
      → List SourceConfig
      → Result ℕ
      → Platform
      → CommandEnd (String × String × String) × Platform
  replay_known from_stage new file (err e) w = (crashes (one e), w)
  replay_known from_stage new file (ok id) w =
      replay_row from_stage new file (runs.get id w.db.run_rows) w

  -- `replay`, which prints the source, the stage and the state.
  unfoldable pub replay :
      (String → Result ℕ)
      → String
      → String
      → NewRun
      → List SourceConfig
      → Platform
      → CommandEnd (String × String × String) × Platform
  unfolding run_source
  replay uuid run_id from_stage new file w =
      if is_supported from_stage
      then replay_known from_stage new file (uuid run_id) w
      else (exits 2, w)

  abbrev pub wiped : String → Option SourceRow → Database sources runs → Database sources runs
  wiped source_id none db = db
  wiped source_id (some row) db = record db {
    source_rows = sources.put source_id (wiped_row row) db.source_rows;
  }

  -- `_wipe`
  unfoldable pub wipe : String → Platform → Platform
  wipe source_id w = record w { db = wiped source_id (sources.get source_id w.db.source_rows) w.db }

  -- `backfill`, given whether `--since` is a time. `ValueError` alone is taken.
  unfoldable pub backfill :
      (String → Bool)
      → String
      → String
      → NewRun
      → List SourceConfig
      → Platform
      → CommandEnd (String × String) × Platform
  unfolding run_once wipe
  backfill is_iso source_id since new file w =
      if is_iso since then run_once source_id new file (wipe source_id w) else (exits 2, w)
