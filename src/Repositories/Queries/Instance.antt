-- ===== src/Repositories/Queries/Instance.antt =====
-- A database's `ORDER BY … DESC`, by insertion.
use mathlib.Core.List.{Permᴰ}
use mathlib.Core.List.Permᴰ
use mathlib.Core.Path.{subst}
use null.Prelude.{
  ℕ, ◌≤◌, ◌≡◌, refl, sym, true, false, List, [], ◌∷◌, All, All-imply, leb, leb→le, not-leb→lt,
  arith, inl, inr, Bool-cases,
}
use null.Repositories.Queries.{Ordering, IsDescending}

module _ {A : Type 0} (key : A → ℕ) where
  unfoldable pub place : A → List A → List A
  place row [] = row ∷ []
  place row (r ∷ rows) = elim (leb (key r) (key row)) [
    | true ↦ row ∷ r ∷ rows
    | false ↦ r ∷ place row rows
  ]

  unfoldable pub newest_first : List A → List A
  unfolding place
  newest_first [] = []
  newest_first (row ∷ rows) = place row (newest_first rows)

  place-rows : (row : A) (rows : List A) → Permᴰ (place row rows) (row ∷ rows)
  unfolding place
  place-rows row [] = Permᴰ.refl (row ∷ [])
  place-rows row (r ∷ rows) = elim (Bool-cases (leb (key r) (key row))) [
    | inl older ↦ rw (older, place) (Permᴰ.refl (row ∷ r ∷ rows))
    | inr newer ↦
        rw (newer, place)
          (Permᴰ.trans (Permᴰ.cons refl (place-rows row rows)) (Permᴰ.swap refl refl))
  ]

  pub newest_first-rows : (rows : List A) → Permᴰ (newest_first rows) rows
  unfolding newest_first
  newest_first-rows [] = Permᴰ.nil
  newest_first-rows (row ∷ rows) =
      Permᴰ.trans (place-rows row (newest_first rows)) (Permᴰ.cons refl (newest_first-rows rows))

  place-All :
      (P : A → Type 0) (row : A) (rows : List A) → P row → All P rows → All P (place row rows)
  unfolding place
  place-All P row [] h hs = (h, tt)
  place-All P row (r ∷ rows) h hs = elim (Bool-cases (leb (key r) (key row))) [
    | inl older ↦ rw (older, place) (h, hs)
    | inr newer ↦ rw (newer, place) (hs.0, place-All P row rows h hs.1)
  ]

  place-older :
      (row r : A) (rows : List A)
      → leb (key r) (key row) ≡ true
      → place row (r ∷ rows) ≡ row ∷ r ∷ rows
  unfolding place
  place-older row r rows older = rw (older, place) refl

  place-newer :
      (row r : A) (rows : List A)
      → leb (key r) (key row) ≡ false
      → place row (r ∷ rows) ≡ r ∷ place row rows
  unfolding place
  place-newer row r rows newer = rw (newer, place) refl

  place-IsDescending :
      (row : A) (rows : List A) → IsDescending key rows → IsDescending key (place row rows)
  place-IsDescending row [] h = unfold place in (tt, tt)
  place-IsDescending row (r ∷ rows) h = elim (Bool-cases (leb (key r) (key row))) [
    | inl older ↦
        let le = leb→le (key r) (key row) older in
        subst (IsDescending key) (sym (place-older row r rows older))
          ((le, All-imply {P = λ s. key s ≤ key r} rows (λ s l. omega (arith, l, le)) h.0), h)
    | inr newer ↦ subst (IsDescending key) (sym (place-newer row r rows newer)) (
      place-All (λ s. key s ≤ key r) row rows (omega (arith, not-leb→lt (key r) (key row) newer))
          h.0,
      place-IsDescending row rows h.1,
    )
  ]

  pub newest_first-IsDescending : (rows : List A) → IsDescending key (newest_first rows)
  unfolding newest_first
  newest_first-IsDescending [] = tt
  newest_first-IsDescending (row ∷ rows) =
      place-IsDescending row (newest_first rows) (newest_first-IsDescending rows)

abbrev pub insertion : (A : Type 0) → Ordering A
insertion A = record {
  order = λ key rows. newest_first key rows;
  order-rows = λ key rows. newest_first-rows key rows;
  order-descending = λ key rows. newest_first-IsDescending key rows;
}
