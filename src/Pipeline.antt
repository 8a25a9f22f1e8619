-- ===== src/Pipeline.antt =====
-- core/pipeline.py: how the end of a pipeline run becomes the outcome of the feed run.
pub mod Mapping
pub mod Tasks
mod Tests
use null.Prelude.{
  ℕ, String, str_append, Bool, true, false, ◌||◌, Option, none, some, List, [], ◌∷◌, ◌++◌,
  if◌then◌else◌,
}
use null.Errors.{Error, ErrorClass, is_permanent, is_cti_error}
use null.Enums.{RunState, success, partial, failed}
use null.Models.{RunContext, RunResult}

-- What a call raises: one exception, or a group of them, as `asyncio.TaskGroup` does.
mutual
  pub data Raised : Type 0 where
    one : Error → Raised
    group : RaisedList → Raised

  pub data RaisedList : Type 0 where
    nil : RaisedList
    cons : Raised → RaisedList → RaisedList

-- `_flatten`
unfoldable mutual
  pub flatten : Raised → List Error
  flatten (one e) = e ∷ []
  flatten (group es) = flatten_all es

  pub flatten_all : RaisedList → List Error
  flatten_all nil = []
  flatten_all (cons r rs) = flatten r ++ flatten_all rs

-- `any(isinstance(e, …) for e in flat)`
unfoldable pub any_error : (ErrorClass → Bool) → List Error → Bool
any_error p [] = false
any_error p (e ∷ es) = p e.cls || any_error p es

-- `"; ".join(str(e) for e in flat if isinstance(e, CTIError))`
unfoldable pub cti_messages : List Error → List String
cti_messages [] = []
cti_messages (e ∷ es) =
    let rest = cti_messages es in if is_cti_error e.cls then e.message ∷ rest else rest

unfoldable pub join : List String → String
join [] = ""
join (s ∷ []) = s
join (s ∷ t ∷ rest) = str_append s (str_append "; " (join (t ∷ rest)))

-- How `Pipeline.run` ends: with its result, or with an exception. The stages may have changed the
-- context by then.
pub data PipelineEnd : Type 0 where
  finished : RunResult → PipelineEnd
  broken : Raised → RunContext → PipelineEnd

pub data Outcome {ℓ} (A : Type ℓ) : Type ℓ where
  returns : A → Outcome A
  raises : Raised → Outcome A

-- `Pipeline.run` when all its tasks have ended normally.
unfoldable pub run_result : RunContext → ℕ → ℕ → RunResult
run_result ctx started ended = record {
  run_id = ctx.run_id;
  source_id = ctx.source_id;
  state = success;
  started_at = started;
  finished_at = ended;
  fetched_bytes = 0;
  records_in = 0;
  records_out = 0;
  parse_errors = 0;
  dropped_by_enricher = 0;
  dropped_by_dedup = 0;
  error = none;
  watermark = ctx.watermark;
  raw_uri = ctx.raw_uri;
}

abbrev pub outcome_result : RunContext → RunState → ℕ → ℕ → List Error → RunResult
outcome_result ctx state started ended flat = record {
  run_id = ctx.run_id;
  source_id = ctx.source_id;
  state = state;
  started_at = started;
  finished_at = ended;
  fetched_bytes = 0;
  records_in = 0;
  records_out = 0;
  parse_errors = 0;
  dropped_by_enricher = 0;
  dropped_by_dedup = 0;
  error = some (join (cti_messages flat));
  watermark = ctx.watermark;
  raw_uri = ctx.raw_uri;
}

-- `run_with_outcome`, between the clock readings `started` and `ended`.
unfoldable pub run_with_outcome : ℕ → ℕ → PipelineEnd → Outcome RunResult
unfolding any_error
run_with_outcome started ended (finished result) = returns result
run_with_outcome started ended (broken raised ctx) =
    let flat = flatten raised in
    if any_error is_permanent flat
    then returns (outcome_result ctx failed started ended flat)
    else if any_error is_cti_error flat
    then returns (outcome_result ctx partial started ended flat)
    else raises raised
