-- ===== src/Repositories.antt =====
-- persistence/repositories.py: what the code asks of the database. A table is the list of its rows.
pub mod Upsert
pub mod Queries
pub mod DeadLetters
pub mod Sources
mod Tests
use null.Prelude.{
  ℕ, ℤ, pos, String, str_eq, Bool, true, false, ◌&&◌, Option, none, some, List, [], ◌∷◌, ◌==◌,
  if◌then◌else◌,
}
use null.Text.{Text, text_eq, is_empty}
use null.Json.{end}
use null.Errors.{Result}
use null.State.{SourceRow, FeedRunRow, DeadLetterRow}
use null.Repositories.Upsert.{IndicatorRow}
use null.Repositories.Queries.{Ordering, select_rows}

-- A filter that is only there for an argument that is neither `None` nor empty.
abbrev pub given : Option String → String → Bool
given none s = true
given (some wanted) s = if str_eq wanted "" then true else str_eq s wanted

abbrev pub given_text : Option Text → Text → Bool
given_text none s = true
given_text (some wanted) s = if is_empty wanted then true else text_eq s wanted

-- `FeedRunRepo.get`
unfoldable pub get_feed_run : ℕ → List FeedRunRow → Option FeedRunRow
get_feed_run id [] = none
get_feed_run id (row ∷ rows) = if row.id == id then some row else get_feed_run id rows

-- `FeedRunRepo.recent`
unfoldable pub recent :
    Ordering FeedRunRow → Option String → ℤ → List FeedRunRow → Result (List FeedRunRow)
unfolding select_rows
recent ordering source_id limit rows =
    select_rows ordering (λ r. r.started_at) (λ r. given source_id r.source_id) limit rows

-- A row of `dead_letters` with the key that the database gives it.
pub record DeadLetter : Type 0 where
  pub id : ℕ
  pub letter : DeadLetterRow

abbrev pub is_open : Option ℕ → Bool
is_open none = true
is_open (some at) = false

abbrev pub listed_letter : Option String → Bool → DeadLetter → Bool
listed_letter source_id unreplayed_only r =
    given source_id r.letter.source_id
    && (if unreplayed_only then is_open r.letter.replayed_at else true)

-- `DeadLetterRepo.list`
unfoldable pub list_dead_letters :
    Ordering DeadLetter → Option String → Bool → ℤ → List DeadLetter → Result (List DeadLetter)
unfolding select_rows
list_dead_letters ordering source_id unreplayed_only limit rows =
    select_rows ordering (λ r. r.letter.created_at) (listed_letter source_id unreplayed_only) limit
      rows

abbrev pub replayed_letter : ℕ → ℕ → DeadLetter → DeadLetter
replayed_letter id now r =
    if r.id == id then record r { letter = record r.letter { replayed_at = some now } } else r

-- `DeadLetterRepo.mark_replayed`: nothing where the key is not there.
unfoldable pub mark_replayed : ℕ → ℕ → List DeadLetter → List DeadLetter
mark_replayed id now [] = []
mark_replayed id now (r ∷ rows) = replayed_letter id now r ∷ mark_replayed id now rows

-- `IndicatorLookupRepo.lookup`
unfoldable pub lookup_rows :
    Ordering IndicatorRow
    → Option Text
    → Option Text
    → ℤ
    → List IndicatorRow
    → Result (List IndicatorRow)
unfolding select_rows text_eq
lookup_rows ordering ind_type value limit rows =
    select_rows ordering (λ r. r.last_seen_by_us)
      (λ r. given_text ind_type r.type && given_text value r.value) limit rows

-- The values of `SourceRepo.upsert`, at the time `now`.
unfoldable pub new_source : ℕ → String → Option String → String → String → Bool → SourceRow
new_source now source_id name plugin config_hash enabled = record {
  id = source_id;
  name = name;
  plugin = plugin;
  config_hash = config_hash;
  enabled = enabled;
  watermark = some end;
  last_etag = none;
  last_modified = none;
  last_seen_id = none;
  created_at = now;
  updated_at = now;
}

-- `set_` of its `on_conflict_do_update`
abbrev pub updated_source : ℕ → SourceRow → SourceRow → SourceRow
updated_source now old excluded = record old {
  name = excluded.name;
  plugin = excluded.plugin;
  config_hash = excluded.config_hash;
  enabled = excluded.enabled;
  updated_at = now;
}

unfoldable pub upsert_row : ℕ → SourceRow → List SourceRow → List SourceRow
upsert_row now new [] = new ∷ []
upsert_row now new (row ∷ rows) =
    if str_eq row.id new.id
    then updated_source now row new ∷ rows
    else row ∷ upsert_row now new rows

unfoldable pub find_source : String → List SourceRow → Option SourceRow
find_source id [] = none
find_source id (row ∷ rows) = if str_eq row.id id then some row else find_source id rows

-- `SourceRepo.upsert`: the row that it returns, and the table.
unfoldable pub upsert_source :
    ℕ
    → String
    → Option String
    → String
    → String
    → Bool
    → List SourceRow
    → Option SourceRow × List SourceRow
unfolding new_source upsert_row find_source
upsert_source now source_id name plugin config_hash enabled rows =
    let rows' = upsert_row now (new_source now source_id name plugin config_hash enabled) rows in
    (find_source source_id rows', rows')
