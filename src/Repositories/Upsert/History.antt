-- ===== src/Repositories/Upsert/History.antt =====
-- The rows of the indicators over any history of stored batches.
use null.Prelude.{ℕ, ◌≤◌, ◌≡◌, inl, inr, refl, ap, ◌∙◌, Option, none, some, List, [], ◌∷◌, arith}
use null.Errors.{Error}
use null.Stages.Persist.{Pair}
use null.Repositories.Upsert.{IndicatorRow, IndicatorStore, on_conflict, publish}
use null.Repositories.Upsert.Merge.{find_row, merged}
use null.Repositories.Upsert.Refines.{proposed, publish-IsMerged}

-- The calls of `publish` of all runs, in the order in which the database serves them, each with the
-- exception of an outage, if there is one.
unfoldable pub publish_all : List (Option Error × List Pair) → IndicatorStore → IndicatorStore
publish_all [] store = store
publish_all ((outage, batch) ∷ calls) store = publish_all calls (publish outage batch store).1

-- `later` is `row` after some upserts: it was seen last and is trusted at least as much, and but
-- for its tags it is the same.
pub record IsLater (row later : IndicatorRow) : Type 0 where
  pub seen : row.last_seen_by_us ≤ later.last_seen_by_us
  pub trusted : row.confidence ≤ later.confidence
  pub same :
      record later {
        last_seen_by_us = row.last_seen_by_us;
        confidence = row.confidence;
        tags = row.tags;
      }
      ≡ row

IsLater-refl : (row : IndicatorRow) → IsLater row row
IsLater-refl row = record { seen = omega arith; trusted = omega arith; same = refl }

IsLater-trans : (a b c : IndicatorRow) → IsLater a b → IsLater b c → IsLater a c
IsLater-trans a b c h k = record {
  seen = omega (arith, h.seen, k.seen);
  trusted = omega (arith, h.trusted, k.trusted);
  same =
      ap
        (λ (r : IndicatorRow). record r {
          last_seen_by_us = a.last_seen_by_us;
          confidence = a.confidence;
          tags = a.tags;
        })
        k.same
      ∙ h.same;
}

abbrev LaterAmong : IndicatorRow → Option IndicatorRow → Type 0
LaterAmong row o = (later : IndicatorRow) × (o ≡ some later) × IsLater row later

merged-IsLater :
    (row : IndicatorRow) (new : Option IndicatorRow) → LaterAmong row (merged (some row) new)
merged-IsLater row none = (row, refl, IsLater-refl row)
merged-IsLater row (some new) =
    (on_conflict row new, refl, record { seen = omega arith; trusted = omega arith; same = refl })

publish-IsLater :
    (outage : Option Error) (batch : List Pair) (store : IndicatorStore) (id : ℕ)
    (row : IndicatorRow)
    → find_row id store.indicators ≡ some row
    → LaterAmong row (find_row id (publish outage batch store).1.indicators)
publish-IsLater outage batch store id row found = elim (publish-IsMerged outage batch store) [
  | inl (e, failed) ↦ rw failed (row, found, IsLater-refl row)
  | inr (store', done, h) ↦ rw (done, h.rows id, found) (merged-IsLater row (proposed id batch))
]

-- Whatever batches are published after an indicator was stored, by any runs, and however many of
-- the calls fail: its row is still there, it is not older or less trusted than it was, and apart
-- from these two columns and its tags it is the same row.
pub publish_all-IsLater :
    (calls : List (Option Error × List Pair)) (store : IndicatorStore) (id : ℕ) (row : IndicatorRow)
    → find_row id store.indicators ≡ some row
    → (later : IndicatorRow) × (find_row id (publish_all calls store).indicators ≡ some later)
      × IsLater row later
unfolding publish_all
publish_all-IsLater [] store id row found = (row, found, IsLater-refl row)
publish_all-IsLater ((outage, batch) ∷ calls) store id row found =
    let (row', found', h) = publish-IsLater outage batch store id row found in
    let (later, kept, k) =
      publish_all-IsLater calls (publish outage batch store).1 id row' found' in
    (later, kept, IsLater-trans row row' later h k)
