-- ===== src/Repositories/DeadLetters.antt =====
-- The open dead letters, before and after one of them is marked.
use null.Prelude.{
  ℕ, pos, String, ◌≡◌, refl, ap, ◌∙◌, Bool, true, not, ◌&&◌, Option, List, [], ◌∷◌, ◌==◌, arith,
}
use null.Errors.{ok}
use null.Repositories.Queries.{Ordering, matching, limited, select_rows}
use null.Repositories.Queries.Newest.{IsNewest, select_rows-IsNewest}
use null.Repositories.{DeadLetter, listed_letter, list_dead_letters, mark_replayed}

-- Open, of the source if one is given, and not the letter of the key `id`.
abbrev pub open_but : Option String → ℕ → DeadLetter → Bool
open_but source_id id r = listed_letter source_id true r && not (r.id == id)

matching-mark_replayed :
    (source_id : Option String) (id now : ℕ) (rows : List DeadLetter)
    → matching (listed_letter source_id true) (mark_replayed id now rows)
      ≡ matching (open_but source_id id) rows
unfolding matching mark_replayed
matching-mark_replayed source_id id now [] = refl
matching-mark_replayed source_id id now (r ∷ rows) =
    ground (arith, matching-mark_replayed source_id id now rows)

-- After a dead letter has been marked as replayed, a query for the open ones, of one source or of
-- all, returns the newest of the others that were open before, up to its limit: the letter that was
-- marked is gone from the list, and no other letter is.
pub mark_replayed-list :
    (ordering : Ordering DeadLetter) (source_id : Option String) (limit id now : ℕ)
    (rows : List DeadLetter)
    → (listed : List DeadLetter) × (list_dead_letters ordering source_id true
          (pos limit)
          (mark_replayed id now rows)
        ≡ ok listed)
      × IsNewest (λ r. r.letter.created_at) (open_but source_id id) limit rows listed
unfolding list_dead_letters select_rows
mark_replayed-list ordering source_id limit id now rows =
    let key = λ (r : DeadLetter). r.letter.created_at in
    let (listed, e, h) = select_rows-IsNewest ordering key (open_but source_id id) limit rows in
    (
      listed,
      ap (λ (found : List DeadLetter). limited (pos limit) (ordering.order key found))
            (matching-mark_replayed source_id id now rows)
          ∙ e,
      h,
    )
