-- ===== src/Stages/Run.antt =====
-- What a stage has done when it returned or raised.
use null.Prelude.{ℕ, String, Bool, true, Option, none, some, List, [], ◌∷◌}
use null.Errors.{Error}

-- The counters of obs/metrics.py that the stages increase.
pub data Metric : Type 0 where
  fetch_bytes : ℕ → Metric
  records_in : Metric
  parse_errors : Metric
  dropped : String → ℕ → Metric
  records_out : String → ℕ → Metric

pub record StageRun {ℓ} (B : Type ℓ) : Type ℓ where
  -- the items that were put into the output queue, in order
  pub out : List B
  -- whether the output queue was closed
  pub closed : Bool
  pub raised : Option Error
  pub metrics : List Metric

module _ {ℓ} {B : Type ℓ} where
  -- The end of the loop over the input, with the `finally` that closes the output.
  abbrev pub returned : StageRun B
  returned = record { out = []; closed = true; raised = none; metrics = [] }

  -- An exception that leaves the loop, through the `finally` that closes the output.
  abbrev pub raising : Error → StageRun B
  raising e = record { out = []; closed = true; raised = some e; metrics = [] }

  -- `await out.put(b)`, and then the rest of the run.
  abbrev pub emit : B → StageRun B → StageRun B
  emit b r = record r { out = b ∷ r.out }

  -- A counter is increased, and then the rest of the run.
  abbrev pub counting : Metric → StageRun B → StageRun B
  counting m r = record r { metrics = m ∷ r.metrics }
