-- ===== src/Stages/Persist.antt =====
-- core/stages/persist.py
pub mod Durable
use null.Prelude.{
  ℕ, suc, ◌+◌, String, Bool, true, false, Option, none, some, List, [], ◌∷◌, ◌++◌, length, leb,
  if◌then◌else◌,
}
use null.Errors.{Error}
use null.Models.{RunContext, Indicator, Observation, schema_version}
use null.Json.{Fields}
use null.Stages.Run.{StageRun, Metric, records_out, counting, returned, raising}

-- `DEFAULT_BATCH_SIZE`
abbrev pub default_batch_size : ℕ
default_batch_size = 500

abbrev pub Pair : Type 0
Pair = Indicator × Observation

-- `Publisher.publish` as the outcomes of its calls: for the number of calls before this one, and
-- the batch, the exception that it raises, or none where it has stored the batch.
abbrev pub Publishing : Type 0
Publishing = ℕ → List Pair → Option Error

-- The `Observation` of one input; `now` is the default of `observed_at`.
unfoldable pub observe : RunContext → ℕ → Indicator × Fields → Pair
observe ctx now (indicator, raw) = (
  indicator,
  record {
    indicator_id = indicator.id;
    source_id = ctx.source_id;
    feed_run_id = ctx.run_id;
    observed_at = now;
    tlp = indicator.tlp;
    confidence = indicator.confidence;
    raw = raw;
    schema_version = schema_version;
  },
)

-- The run of the stage, with the batches for which `publish` returned, in order.
pub record PersistRun : Type 0 where
  pub run : StageRun Pair
  pub stored : List (List Pair)

abbrev pub end_of_input : PersistRun
end_of_input = record { run = returned; stored = [] }

abbrev pub stored_batch : List Pair → PersistRun → PersistRun
stored_batch batch rest = record {
  run =
      counting (records_out "postgres" (length batch))
        (record rest.run { out = batch ++ rest.run.out });
  stored = batch ∷ rest.stored;
}

-- `flush`, and then the rest of the run.
unfoldable pub flush : Publishing → ℕ → List Pair → PersistRun → PersistRun
flush publish calls [] rest = rest
flush publish calls (p ∷ ps) rest = elim (publish calls (p ∷ ps)) [
  | none ↦ stored_batch (p ∷ ps) rest
  | some e ↦ record { run = raising e; stored = [] }
]

-- The loop, after `calls` calls of `publish` and with `batch` collected. The clock readings are
-- those of the observations.
unfoldable pub persist_from :
    Publishing → RunContext → ℕ → ℕ → List Pair → List (ℕ × Indicator × Fields) → PersistRun
unfolding flush observe
persist_from publish ctx batch_size calls batch [] = flush publish calls batch end_of_input
persist_from publish ctx batch_size calls batch ((now, indicator, raw) ∷ inq) =
    let batch' = batch ++ observe ctx now (indicator, raw) ∷ [] in
    let flushed =
      flush publish calls batch' (persist_from publish ctx batch_size (calls + 1) [] inq) in
    let collected = persist_from publish ctx batch_size calls batch' inq in
    if leb batch_size (length batch') then flushed else collected

unfoldable pub run_persist :
    Publishing → RunContext → ℕ → List (ℕ × Indicator × Fields) → PersistRun
unfolding persist_from
run_persist publish ctx batch_size inq = persist_from publish ctx batch_size 0 [] inq
