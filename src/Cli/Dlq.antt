-- ===== src/Cli/Dlq.antt =====
-- cli/commands/dlq.py, on the rows of `dead_letters`. The text of a time, of a UUID and of a class
-- are left as they are.
use null.Prelude.{
  ℕ, pos, String, Bool, not, Option, none, some, List, [], ◌∷◌, take, ◌==◌, if◌then◌else◌,
}
use null.Repositories.{DeadLetter, list_dead_letters, mark_replayed}
use null.Repositories.Queries.{Ordering}
use null.Errors.{ErrorClass}
use null.Text.{Text, codes}
use null.Cli.{CommandEnd, prints, exits, shown_result}

-- A line of `list_dlq`: the id, the source, the class, the time, and the start of the message.
abbrev pub letter_line : DeadLetter → ℕ × String × ErrorClass × ℕ × Text
letter_line row = (
  row.id,
  row.letter.source_id,
  row.letter.error.cls,
  row.letter.created_at,
  take 80 (codes row.letter.error.message),
)

abbrev pub letter_lines : List DeadLetter → List (ℕ × String × ErrorClass × ℕ × Text)
letter_lines [] = []
letter_lines (row ∷ rows) = letter_line row ∷ letter_lines rows

-- `list_dlq`
unfoldable pub list_dlq :
    Ordering DeadLetter
    → Option String
    → Bool
    → List DeadLetter
    → CommandEnd (List (ℕ × String × ErrorClass × ℕ × Text))
unfolding list_dead_letters
list_dlq ordering source show_all rows =
    shown_result letter_lines (list_dead_letters ordering source (not show_all) (pos 200) rows)

-- `session.get(DeadLetterRow, dlq_id)`
unfoldable pub get_dead_letter : ℕ → List DeadLetter → Option DeadLetter
get_dead_letter id [] = none
get_dead_letter id (row ∷ rows) = if row.id == id then some row else get_dead_letter id rows

-- `show`
unfoldable pub show : ℕ → List DeadLetter → CommandEnd DeadLetter
unfolding get_dead_letter
show dlq_id rows = elim (get_dead_letter dlq_id rows) [ none ↦ exits 1 | some row ↦ prints row ]

-- `replay`, which prints the id that it was given, at the time `now`.
unfoldable pub replay : ℕ → ℕ → List DeadLetter → CommandEnd ℕ × List DeadLetter
unfolding mark_replayed
replay now dlq_id rows = (prints dlq_id, mark_replayed dlq_id now rows)
