-- ===== src/Repositories/Sources.antt =====
-- The registered sources.
use null.Prelude.{
  ℕ, String, str_eq, ◌≡◌, ◌≢◌, refl, ◌∙◌, Bool, Option, none, some, List, [], ◌∷◌, arith, eq_iff,
  eq_refl, if◌then◌else◌,
}
use null.State.{SourceRow}
use null.Repositories.{new_source, updated_source, upsert_row, find_source, upsert_source}

-- The row of a source, by the row that was there.
abbrev pub registered : ℕ → SourceRow → Option SourceRow → SourceRow
registered now new none = new
registered now new (some old) = updated_source now old new

find_source-upsert_row :
    (now : ℕ) (new : SourceRow) (rows : List SourceRow) (id : String)
    → find_source id (upsert_row now new rows) ≡ (
        if str_eq new.id id
        then some (registered now new (find_source new.id rows))
        else find_source id rows)
unfolding find_source upsert_row
find_source-upsert_row now new [] id = ground arith
find_source-upsert_row now new (row ∷ rows) id = ground (
  arith,
  eq_iff row.id new.id,
  eq_iff row.id id,
  eq_iff new.id id,
  find_source-upsert_row now new rows id,
)

-- Registering a source returns its row, so the `assert` holds; a source that was there keeps its
-- watermark, its cached headers and the time of its creation; and no other source changes.
pub upsert_source_lem :
    (now : ℕ) (source_id : String) (name : Option String) (plugin config_hash : String)
    (enabled : Bool) (rows : List SourceRow) (other : String)
    → source_id ≢ other
    → let new = new_source now source_id name plugin config_hash enabled in
      let row = registered now new (find_source source_id rows) in
      let (returned, rows') = upsert_source now source_id name plugin config_hash enabled rows in
      (returned ≡ some row)
      × (find_source source_id rows' ≡ some row)
      × (find_source other rows' ≡ find_source other rows)
unfolding upsert_source new_source
upsert_source_lem now source_id name plugin config_hash enabled rows other ne =
    let new = new_source now source_id name plugin config_hash enabled in
    let here : find_source source_id (upsert_row now new rows)
        ≡ some (registered now new (find_source source_id rows)) =
      find_source-upsert_row now new rows source_id ∙ rw (eq_refl source_id) refl in
    (here, here, find_source-upsert_row now new rows other ∙ ground (arith, eq_iff source_id other))
