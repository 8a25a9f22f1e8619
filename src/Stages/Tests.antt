-- ===== src/Stages/Tests.antt =====
-- The theorems on the stages at small inputs.
use null.Prelude.{ℕ, some, ◌≡◌, refl, none, List, [], ◌∷◌, ◌==◌, repeated, arith, if◌then◌else◌}
use null.Text.{codes}
use null.Errors.{Error, other_error, tlp_violation}
use null.Enums.{domain, info, amber}
use null.Json.{Fields, end}
use null.Models.{RunContext, Indicator}
use null.Stages.Persist.{Pair, run_persist}
use null.Stages.Persist.Durable.{observed, IsDurable, run_persist-IsDurable}
use null.Stages.Publish.{
  Publisher, run_publish, publish_items, offer_all, offer, flush, flush_all, set_batch, batch_of,
  empty_batches,
}
use null.Dict.{lookup, insert}
use null.Stages.Publish.Fanout.{copies, offered}
use null.Stages.Publish.Complete.{run_publish_complete}

abbrev context : RunContext
context = record { run_id = 7; source_id = "feed"; watermark = end; raw_uri = none }

abbrev crash : Error
crash = record { cls = other_error; message = "boom" }

abbrev indicator : ℕ → Indicator
indicator n = record {
  id = n;
  type = domain;
  value = codes "evil.example";
  pattern = none;
  confidence = 50;
  severity = info;
  tlp = amber;
  tags = [];
  first_seen_by_us = 1;
  last_seen_by_us = 1;
  valid_from = none;
  valid_until = none;
  schema_version = "1";
}

abbrev timed : List (ℕ × Indicator × Fields)
timed = (1, indicator 1, end) ∷ (2, indicator 2, end) ∷ (3, indicator 3, end) ∷ []

-- The second batch is refused.
run_persist-IsDurable_example :
    IsDurable 2
      (observed context timed)
      (run_persist (λ calls batch. if calls == 0 then none else some crash) context 2 timed)
run_persist-IsDurable_example =
    run_persist-IsDurable (λ calls batch. if calls == 0 then none else some crash) context 2 timed

abbrev pairs : List Pair
pairs = observed context timed

-- A publisher that stores nothing of what it is offered, and one that stores all.
abbrev refusing : Publisher
refusing = record {
  name = "webhook";
  publish = λ calls batch. some (record { cls = tlp_violation; message = "TLP" });
}

abbrev storing : Publisher
storing = record { name = "kafka"; publish = λ calls batch. none }

run_publish_complete_example :
    offered "webhook" (run_publish (refusing ∷ storing ∷ []) 2 pairs).1.calls
    ≡ repeated (copies "webhook" (refusing ∷ storing ∷ [])) pairs
unfolding run_publish publish_items offer_all offer flush flush_all set_batch batch_of lookup insert
    empty_batches copies
run_publish_complete_example =
    run_publish_complete "webhook" 2 (refusing ∷ storing ∷ []) pairs refl (omega arith)
