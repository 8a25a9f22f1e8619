-- ===== src/Pipeline/Tests.antt =====
-- The outcome of a pipeline that broke in two stages, in one of them by a group.
use null.Prelude.{◌≡◌, ◌⊎◌, none}
use null.Errors.{is_permanent, is_cti_error, permanent_error, transient_error}
use null.Enums.{failed, partial}
use null.Json.{end}
use null.Models.{RunContext, RunResult}
use null.Pipeline.{Raised, one, group, cons, nil, broken, returns, raises, run_with_outcome}
use null.Pipeline.Mapping.{Includes, Excludes, run_with_outcome-broken}

abbrev context : RunContext
context = record { run_id = 7; source_id = "feed"; watermark = end; raw_uri = none }

abbrev two : Raised
two = group (
    cons (one (record { cls = transient_error; message = "503" }))
      (cons (group (cons (one (record { cls = permanent_error; message = "401" })) nil)) nil))

run_with_outcome-broken_example :
    let outcome = run_with_outcome 2 3 (broken two context) in
    (Includes is_permanent two
      × ((r : RunResult) × (outcome ≡ returns r) × (r.state ≡ failed) × (r.watermark ≡ end)))
    ⊎ (Excludes is_permanent two
        × Includes is_cti_error two
        × ((r : RunResult) × (outcome ≡ returns r) × (r.state ≡ partial) × (r.watermark ≡ end)))
    ⊎ (Excludes is_cti_error two × (outcome ≡ raises two))
run_with_outcome-broken_example = run_with_outcome-broken 2 3 two context
