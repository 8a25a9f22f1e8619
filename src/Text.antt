-- ===== src/Text.antt =====
-- Python's `str` where the program looks into it: a list of code points. Only ASCII texts are
-- modelled, so `lower` and `strip` know the ASCII letters and white space alone.
pub mod Laws
pub mod Strip
use Prim.Native.Char.{code}
use null.Prelude.{
  ℕ, ◌+◌, ◌-◌, zero, suc, String, Bool, true, false, ◌&&◌, ◌||◌, List, [], ◌∷◌, ◌++◌, map, length,
  leb, ◌==◌, if◌then◌else◌,
}

abbrev pub Text : Type 0
Text = List ℕ

abbrev pub codes : String → Text
codes String.[] = []
codes (String.◌∷◌ c s) = code c ∷ codes s

-- `s == t`

unfoldable pub text_eq : Text → Text → Bool
text_eq [] [] = true
text_eq [] (d ∷ t) = false
text_eq (c ∷ s) [] = false
text_eq (c ∷ s) (d ∷ t) = c == d && text_eq s t

abbrev pub is_empty : Text → Bool
is_empty [] = true
is_empty (c ∷ s) = false

-- `c.isspace()`
unfoldable pub is_space : ℕ → Bool
is_space c = (leb 9 c && leb c 13) || (leb 28 c && leb c 32)

unfoldable pub to_lower : ℕ → ℕ
to_lower c = if leb b'A' c && leb c b'Z' then c + 32 else c

-- `s.lower()`
unfoldable pub lower : Text → Text
unfolding to_lower
lower = map to_lower

unfoldable pub drop_while : (ℕ → Bool) → Text → Text
drop_while p [] = []
drop_while p (c ∷ s) = if p c then drop_while p s else c ∷ s

unfoldable pub drop_while_end : (ℕ → Bool) → Text → Text
drop_while_end p [] = []
drop_while_end p (c ∷ s) =
    let rest = drop_while_end p s in if p c && is_empty rest then [] else c ∷ rest

-- `s.strip()`
unfoldable pub strip : Text → Text
unfolding is_space drop_while drop_while_end
strip s = drop_while_end is_space (drop_while is_space s)

-- `s.startswith(t)`
unfoldable pub starts_with : Text → Text → Bool
starts_with s [] = true
starts_with [] (d ∷ t) = false
starts_with (c ∷ s) (d ∷ t) = c == d && starts_with s t

-- `s.replace(src, dst)`, for a `src` that is not empty: the occurrences from the left, none of
-- which overlap. The first argument counts the code points of an occurrence that are still to skip.
unfoldable pub replace_from : ℕ → Text → Text → Text → Text
unfolding starts_with
replace_from n src dst [] = []
replace_from (suc n) src dst (c ∷ s) = replace_from n src dst s
replace_from zero src dst (c ∷ s) = elim (starts_with (c ∷ s) src) [
  | true ↦ dst ++ replace_from (length src - 1) src dst s
  | false ↦ c ∷ replace_from 0 src dst s
]

unfoldable pub replace : Text → Text → Text → Text
unfolding replace_from
replace src dst s = replace_from 0 src dst s

-- `s.split(c)`, for one code point: as many texts as there are separators, and one more.
abbrev pub split_cons : ℕ → List Text → List Text
split_cons c [] = (c ∷ []) ∷ []
split_cons c (t ∷ ts) = (c ∷ t) ∷ ts

unfoldable pub split : ℕ → Text → List Text
split sep [] = [] ∷ []
split sep (c ∷ s) = let rest = split sep s in if c == sep then [] ∷ rest else split_cons c rest
