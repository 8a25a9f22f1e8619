-- ===== src/Partitioning/Tests.antt =====
-- Three months from November.
use null.Prelude.{◌≡◌, refl, length, arith}
use null.Text.{codes}
use null.Json.Str.{decimal_from}
use null.Partitioning.{first_day, month_after, padded, partition_bounds, ensure_next_n_months}
use null.Partitioning.Contiguous.{Contiguous, ensure_next_n_months_lem}

ensure_next_n_months_lem_example :
    let (asked, returned) = ensure_next_n_months (2025, 11) 3 in
    (length asked ≡ 3)
    × (length returned ≡ 3)
    × Contiguous (first_day (2025, 11)) asked (first_day (month_after (2025, 11) 3))
ensure_next_n_months_lem_example = ensure_next_n_months_lem 2025 11 3 (omega arith) (omega arith)

december : (partition_bounds (2025, 12)).end ≡ codes "2026-01-01"
unfolding partition_bounds padded decimal_from
december = refl
