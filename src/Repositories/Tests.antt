-- ===== src/Repositories/Tests.antt =====
-- The repositories at two indicators.
use null.Prelude.{ℕ, ◌≡◌, refl, none, some, List, [], ◌∷◌, ◌++◌}
use null.Text.{codes}
use null.Enums.{mutex, info, amber}
use null.Json.{end}
use null.Stages.Persist.{Pair}
use null.Repositories.Upsert.{IndicatorRow, IndicatorStore, indicator_row, second_time, publish}
use null.Repositories.Upsert.Merge.{find_row}
use null.Repositories.Upsert.Refines.{publish_repeated}
use null.Repositories.Upsert.History.{publish_all, IsLater, publish_all-IsLater}

abbrev pair : ℕ → ℕ → ℕ → Pair
pair id confidence seen = (
  record {
    id = id;
    type = mutex;
    value = codes "m";
    pattern = none;
    confidence = confidence;
    severity = info;
    tlp = amber;
    tags = [];
    first_seen_by_us = seen;
    last_seen_by_us = seen;
    valid_from = none;
    valid_until = none;
    schema_version = "1";
  },
  record {
    indicator_id = id;
    source_id = "feed";
    feed_run_id = 7;
    observed_at = seen;
    tlp = amber;
    confidence = confidence;
    raw = end;
    schema_version = "1";
  },
)

-- The first indicator is stored.
abbrev store : IndicatorStore
store = record {
  indicators = indicator_row (pair 1 60 5) ∷ [];
  observations = [];
  next_observation = 0;
}

-- The first again, trusted less and seen later, and a new one.
abbrev batch : List Pair
batch = pair 1 50 9 ∷ pair 2 50 9 ∷ []

publish_repeated_example :
    publish none ([] ++ pair 1 50 9 ∷ (pair 2 50 9 ∷ [] ++ pair 1 50 9 ∷ [])) store
    ≡ (some second_time, store)
publish_repeated_example =
    publish_repeated [] (pair 1 50 9) (pair 2 50 9 ∷ []) (pair 1 50 9) [] store refl

publish_all-IsLater_example :
    (later : IndicatorRow) × (find_row 1 (publish_all ((none, batch) ∷ []) store).indicators
      ≡ some later)
    × IsLater (indicator_row (pair 1 60 5)) later
unfolding find_row
publish_all-IsLater_example =
    publish_all-IsLater ((none, batch) ∷ []) store 1 (indicator_row (pair 1 60 5)) refl
