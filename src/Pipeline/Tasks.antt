-- ===== src/Pipeline/Tasks.antt =====
-- `Pipeline.run`: the seven stages, each on what the one before it has put into the queue between
-- them. A queue delivers all that was put into it, in order, and ends where it was closed; the items
-- of a stage that is cancelled because another one has raised are not modelled.
pub mod Returned
pub mod Complete
mod Tests
use null.Prelude.{ℕ, ◌+◌, Option, none, some, List, [], ◌∷◌, ◌++◌}
use null.Errors.{Error}
use null.Hashing.{TextLibrary}
use null.Json.{Fields}
use null.Models.{RawPayload, RunContext, RunResult, Indicator}
use null.Pipeline.{
  Raised, RaisedList, nil, cons, one, group, PipelineEnd, finished, broken, run_result,
}
use null.Stages.Dedup.{RedisBloom, run_dedup}
use null.Stages.Enrich.{Enricher, run_enrich}
use null.Stages.Fetch.{Archive, Connector, run_fetch}
use null.Stages.Normalize.{NormalizeConfig, run_normalize}
use null.Stages.Parse.{Parser, run_parse}
use null.Stages.Persist.{Pair, Publishing, PersistRun, run_persist}
use null.Stages.Publish.{Publisher, PublishState, run_publish}
use null.Stages.Run.{StageRun}

-- `PipelineSpec`, with the clock readings at which the observations are made.
pub record PipelineSpec : Type 0 where
  pub connector : Connector
  pub parser : Parser
  pub enrichers : List Enricher
  pub canonical_publisher : Publishing
  pub extra_publishers : List Publisher
  pub normalize : NormalizeConfig
  pub archive : Option Archive
  pub bloom : Option (Option RedisBloom)
  pub batch_size : ℕ
  pub library : TextLibrary
  pub now : ℕ
  pub observed_at : ℕ → ℕ

-- Each input of the persist stage with the time of its observation.
abbrev pub stamped : (ℕ → ℕ) → ℕ → List (Indicator × Fields) → List (ℕ × Indicator × Fields)
stamped observed_at n [] = []
stamped observed_at n ((indicator, raw) ∷ inq) =
    (observed_at n, indicator, raw) ∷ stamped observed_at (n + 1) inq

module _ (spec : PipelineSpec) (ctx : RunContext) where
  open spec use {
    connector, parser, enrichers, canonical_publisher, extra_publishers, normalize, archive, bloom,
    batch_size, library, now, observed_at,
  }

  abbrev pub fetch : StageRun RawPayload
  fetch = (run_fetch connector archive ctx).0

  -- The stages share the context, which the fetch stage changes.
  abbrev pub fetched_ctx : RunContext
  fetched_ctx = (run_fetch connector archive ctx).1

  abbrev pub parse : StageRun Fields
  parse = run_parse parser fetch.out

  abbrev pub normalized : StageRun (Indicator × Fields)
  normalized = run_normalize library now normalize parse.out

  abbrev pub enriched : StageRun (Indicator × Fields)
  enriched = run_enrich enrichers normalized.out

  abbrev pub dedup : StageRun (Indicator × Fields)
  dedup = run_dedup bloom enriched.out

  abbrev pub persist : PersistRun
  persist = run_persist canonical_publisher fetched_ctx batch_size (stamped observed_at 0 dedup.out)

  abbrev pub publish : Option Error × PublishState
  publish = run_publish extra_publishers batch_size persist.run.out

  abbrev pub raised_by : Option Error → List Error → List Error
  raised_by none rest = rest
  raised_by (some e) rest = e ∷ rest

  -- The exceptions of the tasks.
  unfoldable pub task_errors : List Error
  unfolding run_fetch run_parse run_normalize run_enrich run_dedup run_persist run_publish
  task_errors = raised_by fetch.raised (
      raised_by parse.raised (
        raised_by normalized.raised (
          raised_by enriched.raised
            (raised_by dedup.raised (raised_by persist.run.raised (raised_by publish.0 []))))))

  abbrev pub raised_list : List Error → RaisedList
  raised_list [] = nil
  raised_list (e ∷ es) = cons (one e) (raised_list es)

  abbrev pub ended : List Error → ℕ → ℕ → PipelineEnd
  ended [] started ended_at = finished (run_result fetched_ctx started ended_at)
  ended (e ∷ es) started ended_at = broken (group (raised_list (e ∷ es))) fetched_ctx

  -- `Pipeline.run`, between two readings of the clock.
  unfoldable pub run : ℕ → ℕ → PipelineEnd
  unfolding task_errors
  run started ended_at = ended task_errors started ended_at
