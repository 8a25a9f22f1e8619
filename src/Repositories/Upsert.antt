-- ===== src/Repositories/Upsert.antt =====
-- `IndicatorRepo`, on the tables `indicators` and `indicator_observations`, and `PostgresPublisher`
-- of plugins/publishers/postgres.py. A table is the list of its rows. The statements do what
-- PostgreSQL documents for them: an `INSERT … ON CONFLICT DO UPDATE` of several rows fails when two
-- of them have the same key, and a session that is left without a commit changes nothing.
pub mod Merge
pub mod Refines
pub mod History
use null.Prelude.{
  ℕ, ◌+◌, max, String, Bool, true, false, ◌||◌, Option, none, some, List, [], ◌∷◌, ◌++◌, map,
  length, ◌==◌, if◌then◌else◌,
}
use null.Errors.{Error, Result, ok, err, ◌>>=◌, other_error}
use null.Enums.{type_value, tlp_value, severity_value}
use null.Text.{Text}
use null.Json.{Fields}
use null.Models.{Indicator, Observation}
use null.Stages.Persist.{Pair}

pub record IndicatorRow : Type 0 where
  pub id : ℕ
  pub type : Text
  pub value : Text
  pub pattern : Option Text
  pub confidence : ℕ
  pub severity : String
  pub tlp : String
  pub tags : List Text
  pub first_seen_by_us : ℕ
  pub last_seen_by_us : ℕ
  pub valid_from : Option ℕ
  pub valid_until : Option ℕ
  pub schema_version : String

pub record IndicatorObservationRow : Type 0 where
  pub id : ℕ
  pub indicator_id : ℕ
  pub source_id : String
  pub feed_run_id : ℕ
  pub observed_at : ℕ
  pub tlp : String
  pub confidence : ℕ
  pub raw : Fields
  pub schema_version : String

-- The two tables, with the sequence that numbers the observations.
pub record IndicatorStore : Type 0 where
  pub indicators : List IndicatorRow
  pub observations : List IndicatorObservationRow
  pub next_observation : ℕ

-- One element of `ind_rows`.
abbrev pub indicator_row : Pair → IndicatorRow
indicator_row (ind, _) = record {
  id = ind.id;
  type = type_value ind.type;
  value = ind.value;
  pattern = ind.pattern;
  confidence = ind.confidence;
  severity = severity_value ind.severity;
  tlp = tlp_value ind.tlp;
  tags = ind.tags;
  first_seen_by_us = ind.first_seen_by_us;
  last_seen_by_us = ind.last_seen_by_us;
  valid_from = ind.valid_from;
  valid_until = ind.valid_until;
  schema_version = ind.schema_version;
}

-- `set_` of `on_conflict_do_update`: the row that is there, and the one that is `excluded`.
abbrev pub on_conflict : IndicatorRow → IndicatorRow → IndicatorRow
on_conflict old excluded = record old {
  last_seen_by_us = max old.last_seen_by_us excluded.last_seen_by_us;
  confidence = max old.confidence excluded.confidence;
  tags = excluded.tags;
}

-- One proposed row of the statement.
unfoldable pub insert_or_update : IndicatorRow → List IndicatorRow → List IndicatorRow
insert_or_update new [] = new ∷ []
insert_or_update new (row ∷ rows) =
    if row.id == new.id then on_conflict row new ∷ rows else row ∷ insert_or_update new rows

unfoldable pub id_among : ℕ → List ℕ → Bool
id_among id [] = false
id_among id (j ∷ ids) = (j == id) || id_among id ids

-- `CardinalityViolationError`
abbrev pub second_time : Error
second_time = record {
  cls = other_error;
  message = "ON CONFLICT DO UPDATE command cannot affect row a second time";
}

-- The statement, after it has inserted or updated the rows of the given ids.
unfoldable pub execute_insert :
    List ℕ → List IndicatorRow → List IndicatorRow → Result (List IndicatorRow)
unfolding insert_or_update id_among
execute_insert touched [] rows = ok rows
execute_insert touched (new ∷ news) rows = elim (id_among new.id touched) [
  | true ↦ err second_time
  | false ↦ execute_insert (new.id ∷ touched) news (insert_or_update new rows)
]

-- One element of `obs_rows`: `observed_at` is a time, and so never falsy.
abbrev pub observation_row : ℕ → Observation → IndicatorObservationRow
observation_row id obs = record {
  id = id;
  indicator_id = obs.indicator_id;
  source_id = obs.source_id;
  feed_run_id = obs.feed_run_id;
  observed_at = obs.observed_at;
  tlp = tlp_value obs.tlp;
  confidence = obs.confidence;
  raw = obs.raw;
  schema_version = obs.schema_version;
}

unfoldable pub observation_rows : ℕ → List Pair → List IndicatorObservationRow
observation_rows next [] = []
observation_rows next ((_, obs) ∷ batch) =
    observation_row next obs ∷ observation_rows (next + 1) batch

abbrev pub append_observations : List Pair → IndicatorStore → List IndicatorRow → IndicatorStore
append_observations batch store rows = record {
  indicators = rows;
  observations = store.observations ++ observation_rows store.next_observation batch;
  next_observation = store.next_observation + length batch;
}

abbrev pub upsert_all : List Pair → IndicatorStore → Result (ℕ × IndicatorStore)
upsert_all batch store = do
  rows ← execute_insert [] (map indicator_row batch) store.indicators
  ok (length batch, append_observations batch store rows)

-- `IndicatorRepo.upsert_batch`: the number it returns, and the tables within its session.
unfoldable pub upsert_batch : List Pair → IndicatorStore → Result (ℕ × IndicatorStore)
unfolding execute_insert observation_rows
upsert_batch [] store = ok (0, store)
upsert_batch (p ∷ ps) store = upsert_all (p ∷ ps) store

abbrev pub committed : IndicatorStore → Result (ℕ × IndicatorStore) → Option Error × IndicatorStore
committed store (ok (n, store')) = (none, store')
committed store (err e) = (some e, store)

-- `PostgresPublisher.publish`: the exception that it raises, if one, and the tables after it. The
-- first argument is the exception of a database that does not answer.
unfoldable pub publish : Option Error → List Pair → IndicatorStore → Option Error × IndicatorStore
unfolding upsert_batch
publish outage [] store = (none, store)
publish none (p ∷ ps) store = committed store (upsert_batch (p ∷ ps) store)
publish (some e) (p ∷ ps) store = (some e, store)
