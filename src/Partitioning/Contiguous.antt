-- ===== src/Partitioning/Contiguous.antt =====
-- The partitions leave no gap.
use null.Prelude.{ℕ, zero, suc, ◌+◌, ◌≤◌, ◌≡◌, refl, ap, ◌∙◌, List, [], ◌∷◌, length, arith}
use mathlib.Core.Path.{subst}
use null.Text.{Text}
use null.Partitioning.{
  Partition, first_day, next_month, partition_bounds, month_after, next_months, names,
  ensure_next_n_months,
}

-- Each partition ends where the next one starts, and the last ends at `end`.
abbrev pub Contiguous : Text → List Partition → Text → Type 0
Contiguous start [] end = start ≡ end
Contiguous start (p ∷ ps) end = (start ≡ p.start) × Contiguous p.end ps end

month_after-next : (now : ℕ × ℕ) (i : ℕ) → next_month (month_after now i) ≡ month_after now (i + 1)
month_after-next (year, month) i = ground arith

next_months-Contiguous :
    (now : ℕ × ℕ) (i n last : ℕ)
    → last ≡ i + n
    → Contiguous
        (first_day (month_after now i))
        (next_months now i n)
        (first_day (month_after now last))
unfolding next_months partition_bounds
next_months-Contiguous now i zero last h =
    ap (λ (k : ℕ). first_day (month_after now k)) (omega arith)
next_months-Contiguous now i (suc n) last h =
    (refl, rw (month_after-next now i) (next_months-Contiguous now (i + 1) n last (omega arith)))

next_months-length : (now : ℕ × ℕ) (i n : ℕ) → length (next_months now i n) ≡ n
unfolding next_months
next_months-length now i zero = refl
next_months-length now i (suc n) = ap suc (next_months-length now (i + 1) n)

length-names : (ps : List Partition) → length (names ps) ≡ length ps
length-names [] = refl
length-names (p ∷ ps) = ap suc (length-names ps)

month_after-zero :
    (year month : ℕ) → 1 ≤ month → month ≤ 12 → month_after (year, month) 0 ≡ (year, month)
month_after-zero year month low high = ground arith

-- From a month of the calendar, `n` partitions are asked for: the first starts with that month,
-- each ends on the day on which the next one starts, across the end of a year too, and the last
-- ends `n` months later.
pub ensure_next_n_months_lem :
    (year month n : ℕ)
    → 1 ≤ month
    → month ≤ 12
    → let (asked, returned) = ensure_next_n_months (year, month) n in
      (length asked ≡ n)
      × (length returned ≡ n)
      × Contiguous (first_day (year, month)) asked (first_day (month_after (year, month) n))
unfolding ensure_next_n_months
ensure_next_n_months_lem year month n low high = (
  next_months-length (year, month) 0 n,
  length-names (next_months (year, month) 0 n) ∙ next_months-length (year, month) 0 n,
  subst
      (λ (m : ℕ × ℕ).
        Contiguous (first_day m) (next_months (year, month) 0 n)
          (first_day (month_after (year, month) n)))
      (month_after-zero year month low high)
      (next_months-Contiguous (year, month) 0 n n (omega arith)),
)
