-- ===== src/State/Tests.antt =====
-- The rows of a source with one run that succeeds.
use null.Prelude.{ℕ, String, ◌≡◌, refl, true, none, some, [], ◌∷◌, arith, eq_iff, if◌then◌else◌}
use null.Dict.{lookup}
use null.Enums.{running, success}
use null.Json.{Fields, end, field, str}
use null.Tables.{Table}
use null.Tables.Assoc.{text_table, number_table}
use null.State.{SourceRow, FeedRunRow, Database, is_success, finalize_run}
use null.State.Lifecycle.{finalize_run_lem}

abbrev sources : Table String SourceRow
sources = text_table SourceRow

abbrev runs : Table ℕ FeedRunRow
runs = number_table FeedRunRow

abbrev source : SourceRow
source = record {
  id = "feed";
  name = none;
  plugin = "builtin.http_json";
  config_hash = "";
  enabled = true;
  watermark = none;
  last_etag = none;
  last_modified = none;
  last_seen_id = none;
  created_at = 0;
  updated_at = 0;
}

abbrev db : Database sources runs
db = record { source_rows = ("feed", source) ∷ []; run_rows = []; dead_letters = [] }

abbrev row : FeedRunRow
row = record {
  id = 7;
  source_id = "feed";
  state = running;
  started_at = 1;
  finished_at = none;
  fetched_bytes = 0;
  records_in = 0;
  records_out = 0;
  error = none;
  watermark = some end;
  raw_uri = none;
}

abbrev since : Fields
since = field "since" (str (b'5' ∷ [])) end

finalize_run_lem_example :
    let db' = finalize_run sources runs row success 9 0 4 3 none (some since) none db in
    (runs.get 7 db'.run_rows
      ≡ some (record row {
        state = success;
        finished_at = some 9;
        fetched_bytes = 0;
        records_in = 4;
        records_out = 3;
        error = none;
        watermark = some since;
        raw_uri = none;
      }))
    × (sources.get "feed" db'.source_rows
        ≡ some (if is_success success then record source { watermark = some since } else source))
    × (db'.dead_letters ≡ [])
    × (runs.get 8 db'.run_rows ≡ runs.get 8 db.run_rows)
    × (sources.get "other" db'.source_rows ≡ sources.get "other" db.source_rows)
unfolding lookup
finalize_run_lem_example =
    finalize_run_lem sources runs row success 9 0 4 3 none since none db source 8 "other" refl
      (λ e. omega arith) (λ e. ground (arith, eq_iff "feed" "other"))
