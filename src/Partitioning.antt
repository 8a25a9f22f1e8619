-- ===== src/Partitioning.antt =====
-- persistence/partitioning.py: the monthly partitions of the table of observations, as the
-- statements that are sent to the database.
pub mod Contiguous
mod Tests
use null.Prelude.{
  ℕ, zero, suc, ◌+◌, ◌-◌, ◌/◌, ◌%◌, ◌==◌, List, [], ◌∷◌, ◌++◌, length, replicate, if◌then◌else◌,
}
use null.Text.{Text, codes}
use null.Json.Str.{decimal_from}

-- `f"{n:0{width}d}"`
unfoldable pub padded : ℕ → ℕ → Text
unfolding decimal_from
padded width n =
    let digits = decimal_from (suc n) n [] in replicate (width - length digits) b'0' ++ digits

-- A partition: its name and the range of its keys, from `start` to before `end`.
pub record Partition : Type 0 where
  pub name : Text
  pub start : Text
  pub end : Text

abbrev pub first_day : ℕ × ℕ → Text
first_day (year, month) = padded 4 year ++ b'-' ∷ padded 2 month ++ codes "-01"

abbrev pub next_month : ℕ × ℕ → ℕ × ℕ
next_month (year, month) = if month == 12 then (year + 1, 1) else (year, month + 1)

-- `_partition_bounds`
unfoldable pub partition_bounds : ℕ × ℕ → Partition
unfolding padded
partition_bounds (year, month) = record {
  name = codes "indicator_observations_" ++ padded 4 year ++ b'_' ∷ padded 2 month;
  start = first_day (year, month);
  end = first_day (next_month (year, month));
}

-- `ensure_partition` for the month of `when`, a year and a month: the statement, which creates the
-- partition if it is missing, and the name that is returned.
unfoldable pub ensure_partition : ℕ × ℕ → Partition × Text
unfolding partition_bounds
ensure_partition when = let partition = partition_bounds when in (partition, partition.name)

-- The month `i` months after the one of `now`.
abbrev pub month_after : ℕ × ℕ → ℕ → ℕ × ℕ
month_after (year, month) i = (year + (month - 1 + i) / 12, (month - 1 + i) % 12 + 1)

-- The loop of `ensure_next_n_months`, from `i` on, with `n` turns left: the partitions that it asks
-- for, in order.
unfoldable pub next_months : ℕ × ℕ → ℕ → ℕ → List Partition
unfolding partition_bounds
next_months now i zero = []
next_months now i (suc n) = partition_bounds (month_after now i) ∷ next_months now (i + 1) n

abbrev pub names : List Partition → List Text
names [] = []
names (p ∷ ps) = p.name ∷ names ps

-- `ensure_next_n_months`: the statements that were sent, and what it returns.
unfoldable pub ensure_next_n_months : ℕ × ℕ → ℕ → List Partition × List Text
unfolding next_months
ensure_next_n_months now n = let asked = next_months now 0 n in (asked, names asked)
