-- ===== src/Concurrency/Tests.antt =====
-- A source that asks for two runs at a time, and one that two workers run.
use null.Prelude.{ℕ, String, ◌≡◌, refl, pos, true, none, [], ◌∷◌}
use null.Concurrency.{get_semaphore, acquire, release, entering, leaving, uses}
use null.Dict.{lookup, insert}
use null.Errors.{◌>>=◌}
use null.Tables.{Table}
use null.Tables.Assoc.{text_table, number_table}
use null.State.{SourceRow, FeedRunRow, Database}

two_at_a_time :
    (uses (entering ∷ entering ∷ entering ∷ leaving ∷ []) (get_semaphore "feed" (pos 2) []).0).held
    ≡ 1
unfolding uses acquire release get_semaphore lookup insert
two_at_a_time = refl

abbrev sources : Table String SourceRow
sources = text_table SourceRow

abbrev runs : Table ℕ FeedRunRow
runs = number_table FeedRunRow

abbrev source : SourceRow
source = record {
  id = "feed";
  name = none;
  plugin = "builtin.http_json";
  config_hash = "";
  enabled = true;
  watermark = none;
  last_etag = none;
  last_modified = none;
  last_seen_id = none;
  created_at = 0;
  updated_at = 0;
}

abbrev db : Database sources runs
db = record { source_rows = ("feed", source) ∷ []; run_rows = []; dead_letters = [] }
