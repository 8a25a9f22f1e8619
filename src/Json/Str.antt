-- ===== src/Json/Str.antt =====
-- `str(v)`, `bool(v)` and `int(v)` of Python's values, as `normalize` uses them.
pub mod Fuel
use null.Prelude.{
  ℕ, ℤ, pos, negsuc, zero, suc, ◌+◌, ◌-◌, ◌*◌, ◌/◌, ◌%◌, Bool, true, false, not, ◌&&◌, ◌||◌, Option,
  none, some, [], ◌∷◌, ◌++◌, leb, ltb, ◌==◌, if◌then◌else◌,
}
use null.Errors.{Result, ok, err, ErrorClass, value_error, type_error, overflow_error}
use null.Text.{Text, codes, is_empty, text_eq, strip}
use null.Json.{
  Value, nothing, bool, int, float, str, list, dict, Items, nil, cons, Fields, end, field,
}

-- The decimal digits of `n`, in front of `rest`. As many steps as `n` has digits are enough, and `n`
-- has at most `n + 1`.
unfoldable pub decimal_from : ℕ → ℕ → Text → Text
decimal_from zero n rest = rest
decimal_from (suc fuel) n rest =
    let digit = b'0' + n % 10 in
    elim (ltb n 10) [ true ↦ digit ∷ rest | false ↦ decimal_from fuel (n / 10) (digit ∷ rest) ]

unfoldable pub decimal : ℤ → Text
unfolding decimal_from
decimal (pos n) = decimal_from (suc n) n []
decimal (negsuc n) = b'-' ∷ decimal_from (suc (suc n)) (suc n) []

abbrev pub hex_digit : ℕ → ℕ
hex_digit n = if ltb n 10 then b'0' + n else b'a' + (n - 10)

-- One code point within a `repr`, where `quote` surrounds the text.
abbrev pub repr_code : ℕ → ℕ → Text
repr_code quote c =
    if (c == quote) || (c == b'\\')
    then b'\\' ∷ c ∷ []
    else if c == 10
    then codes "\\n"
    else if c == 13
    then codes "\\r"
    else if c == 9
    then codes "\\t"
    else if ltb c 32 || (c == 127)
    then codes "\\x" ++ hex_digit (c / 16) ∷ hex_digit (c % 16) ∷ []
    else c ∷ []

unfoldable pub has_code : ℕ → Text → Bool
has_code d [] = false
has_code d (c ∷ s) = (c == d) || has_code d s

unfoldable pub repr_codes : ℕ → Text → Text
repr_codes quote [] = quote ∷ []
repr_codes quote (c ∷ s) = repr_code quote c ++ repr_codes quote s

-- `repr` of a text: in single quotes, or in double ones if it has single quotes alone.
unfoldable pub repr_text : Text → Text
unfolding has_code repr_codes
repr_text s =
    let quote = if has_code 39 s && not (has_code 34 s) then 34 else 39 in
    quote ∷ repr_codes quote s

unfoldable mutual
  pub repr : Value → Text
  repr nothing = codes "None"
  repr (bool b) = if b then codes "True" else codes "False"
  repr (int n) = decimal n
  repr (float shown whole) = shown
  repr (str s) = repr_text s
  repr (list vs) = b'[' ∷ repr_items vs ++ codes "]"
  repr (dict vs) = b'{' ∷ repr_fields vs ++ codes "}"

  pub repr_items : Items → Text
  repr_items nil = []
  repr_items (cons v nil) = repr v
  repr_items (cons v (cons u vs)) = repr v ++ codes ", " ++ repr_items (cons u vs)

  pub repr_fields : Fields → Text
  repr_fields end = []
  repr_fields (field k v end) = repr_text (codes k) ++ codes ": " ++ repr v
  repr_fields (field k v (field j u vs)) =
      repr_text (codes k) ++ codes ": " ++ repr v ++ codes ", " ++ repr_fields (field j u vs)

-- `str(v)`
abbrev pub to_str : Value → Text
to_str (str s) = s
to_str v = repr v

-- `bool(v)`
abbrev pub truth : Value → Bool
truth nothing = false
truth (bool b) = b
truth (int (pos zero)) = false
truth (int _) = true
truth (float shown whole) = not (text_eq shown (codes "0.0") || text_eq shown (codes "-0.0"))
truth (str s) = not (is_empty s)
truth (list nil) = false
truth (list (cons v vs)) = true
truth (dict end) = false
truth (dict (field k v vs)) = true

-- The digits of a number, with single underscores between them: the first argument tells whether a
-- digit was read last.
unfoldable pub digits_from : Bool → ℕ → Text → Option ℕ
digits_from after n [] = if after then some n else none
digits_from after n (c ∷ s) = elim (leb b'0' c && leb c b'9') [
  | true ↦ digits_from true (n * 10 + (c - b'0')) s
  | false ↦ elim (after && (c == b'_')) [ true ↦ digits_from false n s | false ↦ none ]
]

unfoldable pub digit_count : Text → ℕ
digit_count [] = 0
digit_count (c ∷ s) = if c == b'_' then digit_count s else suc (digit_count s)

abbrev pub negated : ℕ → ℤ
negated zero = pos zero
negated (suc n) = negsuc n

abbrev pub refused {ℓ} : {A : Type ℓ} → ErrorClass → Result A
refused cls = err (record { cls = cls; message = "int" })

-- At most 4300 digits are read.
abbrev pub read_digits : (ℕ → ℤ) → Text → Result ℤ
read_digits sign s =
    if ltb 4300 (digit_count s)
    then refused value_error
    else elim (digits_from false 0 s) [ none ↦ refused value_error | some n ↦ ok (sign n) ]

abbrev pub read_signed : Text → Result ℤ
read_signed [] = refused value_error
read_signed (c ∷ s) =
    if c == b'-'
    then read_digits negated s
    else if c == b'+'
    then read_digits pos s
    else read_digits pos (c ∷ s)

-- `int(v)`: `int(inf)` is an `OverflowError`, which is no `ValueError`.
unfoldable pub to_int : Value → Result ℤ
unfolding digits_from digit_count strip text_eq
to_int nothing = refused type_error
to_int (bool b) = ok (pos (if b then 1 else 0))
to_int (int n) = ok n
to_int (float shown (some whole)) = ok whole
to_int (float shown none) =
    if text_eq shown (codes "nan") then refused value_error else refused overflow_error
to_int (str s) = read_signed (strip s)
to_int (list vs) = refused type_error
to_int (dict vs) = refused type_error
