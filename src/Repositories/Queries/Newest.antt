-- ===== src/Repositories/Queries/Newest.antt =====
-- What a query returns: the newest of the rows that match, up to its limit.
use mathlib.Core.List.{Permᴰ}
use mathlib.Core.Path.{subst}
use null.Prelude.{
  ℕ, pos, zero, suc, ◌≤◌, ◌≡◌, refl, sym, ap, Bool, true, ◌⊎◌, inl, inr, List, [], ◌∷◌, ◌++◌,
  length, take, drop, All, arith, Bool-cases,
}
use null.Errors.{ok}
use null.Repositories.Queries.{matching, IsDescending, Ordering, select_rows}

module _ {A : Type 0} (key : A → ℕ) (holds : A → Bool) where
  -- `listed` are the newest of the rows that match, and no more than `limit`.
  pub record IsNewest (limit : ℕ) (rows listed : List A) : Type 0 where
    pub match : All (λ r. holds r ≡ true) listed
    pub descending : IsDescending key listed
    pub left_out : List A
    pub complete : Permᴰ (listed ++ left_out) (matching holds rows)
    pub older : All (λ l. All (λ r. key r ≤ key l) left_out) listed
    pub full : (left_out ≡ []) ⊎ (length listed ≡ limit)
    pub within : length listed ≤ limit

module _ {A : Type 0} where
  matching-All :
      (holds : A → Bool) (rows : List A) → All (λ r. holds r ≡ true) (matching holds rows)
  unfolding matching
  matching-All holds [] = tt
  matching-All holds (row ∷ rows) = elim (Bool-cases (holds row)) [
    | inl found ↦ rw found (found, matching-All holds rows)
    | inr other ↦ rw other (matching-All holds rows)
  ]

  All-Permᴰ : (P : A → Type 0) {xs ys : List A} → Permᴰ xs ys → All P ys → All P xs
  All-Permᴰ P Permᴰ.nil h = tt
  All-Permᴰ P (Permᴰ.cons e d) h = (subst P (sym e) h.0, All-Permᴰ P d h.1)
  All-Permᴰ P (Permᴰ.swap e f) h = (subst P (sym e) h.1.0, (subst P (sym f) h.0, h.1.1))
  All-Permᴰ P (Permᴰ.trans d e) h = All-Permᴰ P d (All-Permᴰ P e h)

  take-drop : (n : ℕ) (xs : List A) → take n xs ++ drop n xs ≡ xs
  take-drop zero xs = refl
  take-drop (suc n) [] = refl
  take-drop (suc n) (x ∷ xs) = ap (λ (l : List A). x ∷ l) (take-drop n xs)

  All-take : (P : A → Type 0) (n : ℕ) (xs : List A) → All P xs → All P (take n xs)
  All-take P zero xs h = tt
  All-take P (suc n) [] h = tt
  All-take P (suc n) (x ∷ xs) h = (h.0, All-take P n xs h.1)

  All-drop : (P : A → Type 0) (n : ℕ) (xs : List A) → All P xs → All P (drop n xs)
  All-drop P zero xs h = h
  All-drop P (suc n) [] h = tt
  All-drop P (suc n) (x ∷ xs) h = All-drop P n xs h.1

  take-IsDescending :
      (key : A → ℕ) (n : ℕ) (xs : List A) → IsDescending key xs → IsDescending key (take n xs)
  take-IsDescending key zero xs h = tt
  take-IsDescending key (suc n) [] h = tt
  take-IsDescending key (suc n) (x ∷ xs) h =
      (All-take (λ r. key r ≤ key x) n xs h.0, take-IsDescending key n xs h.1)

  drop-older :
      (key : A → ℕ) (n : ℕ) (xs : List A)
      → IsDescending key xs
      → All (λ l. All (λ r. key r ≤ key l) (drop n xs)) (take n xs)
  drop-older key zero xs h = tt
  drop-older key (suc n) [] h = tt
  drop-older key (suc n) (x ∷ xs) h =
      (All-drop (λ r. key r ≤ key x) n xs h.0, drop-older key n xs h.1)

  take_full : (n : ℕ) (xs : List A) → (drop n xs ≡ []) ⊎ (length (take n xs) ≡ n)
  take_full zero xs = inr refl
  take_full (suc n) [] = inl refl
  take_full (suc n) (x ∷ xs) = elim (take_full n xs) [ inl e ↦ inl e | inr e ↦ inr (ap suc e) ]

  length-take : (n : ℕ) (xs : List A) → length (take n xs) ≤ n
  length-take zero xs = omega arith
  length-take (suc n) [] = omega arith
  length-take (suc n) (x ∷ xs) = omega (arith, length-take n xs)

  pub select_rows-IsNewest :
      (ordering : Ordering A) (key : A → ℕ) (holds : A → Bool) (limit : ℕ) (rows : List A)
      → (listed : List A) × (select_rows ordering key holds (pos limit) rows ≡ ok listed)
        × IsNewest key holds limit rows listed
  unfolding select_rows
  select_rows-IsNewest ordering key holds limit rows =
      let found = matching holds rows in
      let sorted = ordering.order key found in
      let perm = ordering.order-rows key found in
      let descending = ordering.order-descending key found in
      (
        take limit sorted,
        refl,
        record {
          match =
              All-take (λ r. holds r ≡ true) limit sorted
                (All-Permᴰ (λ r. holds r ≡ true) perm (matching-All holds rows));
          descending = take-IsDescending key limit sorted descending;
          left_out = drop limit sorted;
          complete = subst (λ l. Permᴰ l found) (sym (take-drop limit sorted)) perm;
          older = drop-older key limit sorted descending;
          full = take_full limit sorted;
          within = length-take limit sorted;
        },
      )
