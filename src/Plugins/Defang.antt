-- ===== src/Plugins/Defang.antt =====
-- plugins/enrichers/defang.py: the seven substitutions, on ASCII texts.
pub mod Refanged
use null.Prelude.{
  ℕ, zero, suc, ◌+◌, ◌-◌, Bool, true, false, not, ◌&&◌, ◌||◌, Option, none, some, List, [], ◌∷◌,
  ◌++◌, length, leb, ◌==◌, if◌then◌else◌,
}
use null.Text.{Text, codes, lower, starts_with, text_eq}
use null.Models.{Indicator}

-- A match at the start of a text: its length and what takes its place.
abbrev pub Matcher : Type 0
Matcher = Text → Option (ℕ × Text)

-- A pattern that is a text in small letters, in letters of any case.
unfoldable pub literal : Text → Text → Matcher
unfolding starts_with lower
literal pattern repl s = if starts_with (lower s) pattern then some (length pattern, repl) else none

-- The first code point behind `n` others, as a text.
abbrev pub code_at : ℕ → Text → Text
code_at n [] = []
code_at zero (c ∷ s) = c ∷ []
code_at (suc n) (c ∷ s) = code_at n s

-- `…(s?)://`, which becomes `http\1://`
unfoldable pub scheme : Text → Matcher
unfolding starts_with lower
scheme pattern s =
    if starts_with (lower s) (pattern ++ codes "s://")
    then some (length pattern + 4, codes "http" ++ code_at (length pattern) s ++ codes "://")
    else if starts_with (lower s) (pattern ++ codes "://")
    then some (length pattern + 3, codes "http://")
    else none

-- `\w`
abbrev pub is_word : ℕ → Bool
is_word c =
    (leb b'0' c && leb c b'9')
    || (leb b'A' c && leb c b'Z')
    || (leb b'a' c && leb c b'z')
    || (c == b'_')

pub record Pattern : Type 0 where
  -- whether it begins with `\b`, before a letter
  pub bounded : Bool
  pub matcher : Matcher

-- `_PATTERNS`
abbrev pub patterns : List Pattern
patterns =
    record { bounded = false; matcher = literal (codes "[.]") (codes ".") }
    ∷ record { bounded = false; matcher = literal (codes "(.)") (codes ".") }
    ∷ record { bounded = false; matcher = literal (codes "{dot}") (codes ".") }
    ∷ record { bounded = false; matcher = literal (codes "[at]") (codes "@") }
    ∷ record { bounded = false; matcher = literal (codes "[://]") (codes "://") }
    ∷ record { bounded = true; matcher = scheme (codes "hxxp") }
    ∷ record { bounded = true; matcher = scheme (codes "h[ttp]") }
    ∷ []

-- Where the pattern matches, if it does: a `\b` before a letter asks that no word goes on.
abbrev pub match_at : Pattern → Bool → Text → Option (ℕ × Text)
match_at pattern word s = if pattern.bounded && word then none else pattern.matcher s

-- `pat.sub(repl, value)`: the first number counts the code points of a match that are still to skip,
-- and the truth value tells whether the code point before is one of a word.
unfoldable pub sub_from : Pattern → ℕ → Bool → Text → Text
unfolding literal scheme
sub_from pattern n word [] = []
sub_from pattern (suc n) word (c ∷ s) = sub_from pattern n (is_word c) s
sub_from pattern zero word (c ∷ s) = elim (match_at pattern word (c ∷ s)) [
  | none ↦ c ∷ sub_from pattern 0 (is_word c) s
  | some (n, repl) ↦ repl ++ sub_from pattern (n - 1) (is_word c) s
]

unfoldable pub sub : Pattern → Text → Text
unfolding sub_from
sub pattern value = sub_from pattern 0 false value

-- The loop over the patterns.
unfoldable pub refanged : List Pattern → Text → Text
unfolding sub
refanged [] value = value
refanged (pattern ∷ rest) value = refanged rest (sub pattern value)

-- `DefangEnricher.enrich_sync`, which drops nothing.
unfoldable pub enrich_sync : Bool → Indicator → Indicator
unfolding refanged text_eq
enrich_sync enabled ind =
    let value = refanged patterns ind.value in
    if not enabled || text_eq value ind.value then ind else record ind { value = value }
