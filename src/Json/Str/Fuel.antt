-- ===== src/Json/Str/Fuel.antt =====
-- The steps that `decimal_from` is given are enough: with more the digits are the same.
use null.Prelude.{
  ℕ, zero, suc, ◌/◌, ◌%◌, ◌+◌, ◌<◌, ◌≡◌, ◌∷◌, ltb, not-ltb→le, arith, Bool-cases, inl, inr,
}
use null.Text.{Text}
use null.Json.Str.{decimal_from}

pub decimal_from-enough :
    (fuel more n : ℕ) (rest : Text)
    → n < fuel
    → n < more
    → decimal_from fuel n rest ≡ decimal_from more n rest
unfolding decimal_from
decimal_from-enough zero more n rest h k = absurd (omega arith)
decimal_from-enough (suc fuel) zero n rest h k = absurd (omega arith)
decimal_from-enough (suc fuel) (suc more) n rest h k = elim (Bool-cases (ltb n 10)) [
  | inl small ↦ ground (arith, small)
  | inr large ↦ ground (
    arith,
    large,
    decimal_from-enough fuel more (n / 10) ((b'0' + n % 10) ∷ rest)
        (omega (arith, not-ltb→le n 10 large)) (omega (arith, not-ltb→le n 10 large)),
  )
]
