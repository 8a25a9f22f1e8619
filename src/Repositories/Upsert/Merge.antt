-- ===== src/Repositories/Upsert/Merge.antt =====
-- What the statement of `upsert_batch` does to the rows, seen as a map from ids to rows.
use null.Prelude.{
  ℕ, ◌≡◌, refl, ◌∙◌, true, false, Option, none, some, List, [], ◌∷◌, ◌++◌, arith, ◌==◌, inl, inr,
  Bool-cases, if◌then◌else◌,
}
use null.Errors.{ok, err}
use null.Repositories.Upsert.{
  IndicatorRow, on_conflict, insert_or_update, id_among, execute_insert, second_time,
}

unfoldable pub find_row : ℕ → List IndicatorRow → Option IndicatorRow
find_row id [] = none
find_row id (row ∷ rows) = if row.id == id then some row else find_row id rows

-- A row that is there, and one that is proposed.
abbrev pub merged : Option IndicatorRow → Option IndicatorRow → Option IndicatorRow
merged old none = old
merged none (some new) = some new
merged (some old) (some new) = some (on_conflict old new)

find_row-insert_or_update :
    (id : ℕ) (new : IndicatorRow) (rows : List IndicatorRow)
    → find_row id (insert_or_update new rows)
      ≡ (if new.id == id then merged (find_row id rows) (some new) else find_row id rows)
unfolding find_row insert_or_update
find_row-insert_or_update id new [] = ground arith
find_row-insert_or_update id new (row ∷ rows) =
    ground (arith, find_row-insert_or_update id new rows)

-- A statement that succeeds goes on after its first row.
execute_insert-next :
    (touched : List ℕ) (new : IndicatorRow) (news rows rows' : List IndicatorRow)
    → execute_insert touched (new ∷ news) rows ≡ ok rows'
    → (id_among new.id touched ≡ false)
      × (execute_insert (new.id ∷ touched) news (insert_or_update new rows) ≡ ok rows')
unfolding execute_insert
execute_insert-next touched new news rows rows' e = ground arith

-- And proposes no row of an id that it has touched.
touched_absent :
    (touched : List ℕ) (news rows rows' : List IndicatorRow) (id : ℕ)
    → id_among id touched ≡ true
    → execute_insert touched news rows ≡ ok rows'
    → find_row id news ≡ none
unfolding find_row id_among
touched_absent touched [] rows rows' id seen e = refl
touched_absent touched (new ∷ news) rows rows' id seen e =
    let (fresh, rest) = execute_insert-next touched new news rows rows' e in
    ground (
      arith,
      seen,
      fresh,
      touched_absent (new.id ∷ touched) news (insert_or_update new rows) rows' id
          (ground (arith, seen)) rest,
    )

merged-next :
    (id : ℕ) (new : IndicatorRow) (news rows : List IndicatorRow)
    → (new.id == id) ≡ false
    → merged (find_row id (insert_or_update new rows)) (find_row id news)
      ≡ merged (find_row id rows) (find_row id (new ∷ news))
unfolding find_row
merged-next id new news rows other = rw find_row-insert_or_update (ground (arith, other))

merged-here :
    (id : ℕ) (new : IndicatorRow) (news rows : List IndicatorRow)
    → (new.id == id) ≡ true
    → find_row id news ≡ none
    → merged (find_row id (insert_or_update new rows)) (find_row id news)
      ≡ merged (find_row id rows) (find_row id (new ∷ news))
unfolding find_row
merged-here id new news rows same absent =
    rw (find_row-insert_or_update, absent) (ground (arith, same))

-- A statement that succeeds merges each of its rows with the row that is there.
pub execute_insert-merged :
    (touched : List ℕ) (news rows rows' : List IndicatorRow)
    → execute_insert touched news rows ≡ ok rows'
    → (id : ℕ) → find_row id rows' ≡ merged (find_row id rows) (find_row id news)
unfolding execute_insert find_row
execute_insert-merged touched [] rows rows' e id = ground arith
execute_insert-merged touched (new ∷ news) rows rows' e id =
    let (fresh, rest) = execute_insert-next touched new news rows rows' e in
    execute_insert-merged (new.id ∷ touched) news (insert_or_update new rows) rows' rest id
    ∙ elim (Bool-cases (new.id == id)) [
      | inl same ↦ merged-here id new news rows same (
          touched_absent (new.id ∷ touched) news (insert_or_update new rows) rows' id
            (unfold id_among in ground (arith, same)) rest)
      | inr other ↦ merged-next id new news rows other
    ]

-- Whether it succeeds is a matter of its ids.
pub execute_insert_again :
    (touched : List ℕ) (news rows rows' other : List IndicatorRow)
    → execute_insert touched news rows ≡ ok rows'
    → (other' : List IndicatorRow) × (execute_insert touched news other ≡ ok other')
unfolding execute_insert
execute_insert_again touched [] rows rows' other e = (other, refl)
execute_insert_again touched (new ∷ news) rows rows' other e =
    let (fresh, rest) = execute_insert-next touched new news rows rows' e in
    let (other', done) =
      execute_insert_again (new.id ∷ touched) news (insert_or_update new rows) rows'
        (insert_or_update new other) rest in
    (other', ground (arith, fresh, done))

-- A proposed row whose id was touched ends the statement, wherever it stands.
touched_fails :
    (touched : List ℕ) (before : List IndicatorRow) (new : IndicatorRow)
    (after rows : List IndicatorRow)
    → id_among new.id touched ≡ true
    → execute_insert touched (before ++ new ∷ after) rows ≡ err second_time
unfolding execute_insert id_among
touched_fails touched [] new after rows seen = ground (arith, seen)
touched_fails touched (row ∷ before) new after rows seen = ground (
  arith,
  touched_fails (row.id ∷ touched) before new after (insert_or_update row rows)
      (ground (arith, seen)),
)

-- So do two rows of one id.
pub repeated_fails :
    (touched : List ℕ) (before : List IndicatorRow) (first : IndicatorRow)
    (between : List IndicatorRow) (second : IndicatorRow) (after rows : List IndicatorRow)
    → first.id ≡ second.id
    → execute_insert touched (before ++ first ∷ (between ++ second ∷ after)) rows ≡ err second_time
unfolding execute_insert id_among
repeated_fails touched [] first between second after rows same = ground (
  arith,
  touched_fails (first.id ∷ touched) between second after (insert_or_update first rows)
      (ground (arith, same)),
)
repeated_fails touched (row ∷ before) first between second after rows same = ground (
  arith,
  repeated_fails (row.id ∷ touched) before first between second after (insert_or_update row rows)
      same,
)
