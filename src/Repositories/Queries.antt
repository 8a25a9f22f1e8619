-- ===== src/Repositories/Queries.antt =====
-- The queries of the repositories: `select(…).where(…).order_by(….desc()).limit(…)` on the list of
-- a table's rows. The order of rows with equal keys is the database's.
pub mod Newest
pub mod Instance
use mathlib.Core.List.{Permᴰ}
use mathlib.Core.List.Permᴰ
use mathlib.Core.Path.{subst}
use null.Prelude.{
  ℕ, ℤ, pos, negsuc, zero, suc, ◌≤◌, ◌≡◌, refl, sym, ap, Bool, true, false, ◌⊎◌, inl, inr, List, [],
  ◌∷◌, ◌++◌, length, take, drop, All, arith, if◌then◌else◌,
}
use null.Errors.{Result, ok, err, other_error}

module _ {A : Type 0} where
  -- The rows of which a `where` holds.
  unfoldable pub matching : (A → Bool) → List A → List A
  matching holds [] = []
  matching holds (row ∷ rows) =
      let rest = matching holds rows in if holds row then row ∷ rest else rest

  -- No row has a greater key than one before it.
  abbrev pub IsDescending : (A → ℕ) → List A → Type 0
  IsDescending key [] = Unit
  IsDescending key (row ∷ rows) = All (λ r. key r ≤ key row) rows × IsDescending key rows

-- `ORDER BY key DESC`, as PostgreSQL documents it.
pub record Ordering (A : Type 0) : Type 0 where
  pub order : (A → ℕ) → List A → List A
  pub order-rows : (key : A → ℕ) (rows : List A) → Permᴰ (order key rows) rows
  pub order-descending : (key : A → ℕ) (rows : List A) → IsDescending key (order key rows)

-- `LIMIT n`
abbrev pub limited : {A : Type 0} → ℤ → List A → Result (List A)
limited (pos n) rows = ok (take n rows)
limited (negsuc n) rows = err (record { cls = other_error; message = "LIMIT must not be negative" })

module _ {A : Type 0} (ordering : Ordering A) where
  open ordering use {order}

  unfoldable pub select_rows : (A → ℕ) → (A → Bool) → ℤ → List A → Result (List A)
  unfolding matching
  select_rows key holds limit rows = limited limit (order key (matching holds rows))
