-- ===== src/Pipeline/Tasks/Complete.antt =====
-- From the payloads of the connector to the database and the publishers.
use null.Prelude.{◌≡◌, none, List}
use null.Models.{RunContext}
use null.Pipeline.Tasks.{
  PipelineSpec, stamped, fetch, fetched_ctx, parse, normalized, enriched, dedup, persist, publish,
  run,
}
use null.Stages.Fetch.Outcome.{payloads_of}
use null.Stages.Enrich.Survivors.{survivors}
use null.Stages.Normalize.Skipping.{accepted_all}
use null.Stages.Parse.Records.{records_of}
use null.Stages.Persist.{Pair}
use null.Stages.Persist.Durable.{observed}

module _ (spec : PipelineSpec) (ctx : RunContext) where
  -- The pairs that a run is to store: the observations of the indicators that survive the
  -- enrichers, of the records that the normalizer accepts, of all records of all payloads.
  abbrev pub expected_pairs : List Pair
  expected_pairs = observed (fetched_ctx spec ctx) (
      stamped spec.observed_at 0 (
        survivors spec.enrichers (
          accepted_all spec.library spec.now spec.normalize
            (records_of spec.parser (payloads_of (spec.connector ctx).yields)))))

  -- No task has raised.
  record AllReturned : Type 0 where
    fetched : (fetch spec ctx).raised ≡ none
    parsed : (parse spec ctx).raised ≡ none
    normal : (normalized spec ctx).raised ≡ none
    rich : (enriched spec ctx).raised ≡ none
    single : (dedup spec ctx).raised ≡ none
    stored : (persist spec ctx).run.raised ≡ none
    published : (publish spec ctx).0 ≡ none
