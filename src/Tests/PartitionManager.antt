-- ===== src/Tests/PartitionManager.antt =====
-- api/partition_manager.py at the turn of a year.
use vlog.Prelude.{ℕ, Bool, true, none, [], ◌∷◌, ◌≡◌, ◌+◌, ◌-◌, ◌*◌, ◌/◌, ◌%◌, refl, inl, arith}
use vlog.Prelude.Tables.{fetch}
use vlog.PartitionManager.Partitions.{
  Date, partition_key, ok, Creation, created, new_partition, ensure_partitions_exist,
  cleanup_old_partitions,
}
use vlog.PartitionManager.Months.{month_index, AddsMonths, Covers, IsOk}
use vlog.PartitionManager.Coverage.{ensure_partitions_exist-Covers}
use vlog.PartitionManager.Retention.{is_expired, cleanup_old_partitions-fetch}

program : Unit {0}
unfolding ensure_partitions_exist cleanup_old_partitions is_expired
program = tt

abbrev of_index : ℕ → ℕ → Date
of_index n passed = record { year = (n - 1) / 12; month = (n - 1) % 12 + 1; passed = passed }

abbrev add : ℕ → Date → Date
add n d = of_index (month_index d + n) d.passed

abbrev subtract : ℕ → Date → Date
subtract n d = of_index (month_index d - n) d.passed

add-AddsMonths : AddsMonths add
add-AddsMonths = record {
  index = λ n d h. omega (arith, h);
  month = λ n d. (omega arith, omega arith);
}

abbrev november : Date
november = record { year = 2025; month = 11; passed = 2000000 }

abbrev always : ℕ → Creation
always i = created

-- November to February.
names :
    (ensure_partitions_exist add always november 3 []).1
    ≡ ok (202511 ∷ 202512 ∷ 202601 ∷ 202602 ∷ [])
unfolding program
names = refl

ensure_partitions_exist-Covers_example :
    IsOk (ensure_partitions_exist add always november 3 []).1
    × Covers (ensure_partitions_exist add always november 3 []).0 (2026 * 12 + 1)
ensure_partitions_exist-Covers_example =
    ensure_partitions_exist-Covers add add-AddsMonths always november 3 (2026 * 12 + 1) []
      (λ k e. cc) (omega arith) (omega arith) (λ k x e. cc) (inl (omega arith, omega arith))

abbrev works : ℕ → Bool
works n = true

-- A month of retention, in the last week of November: the partition of October is dropped, with the
-- sessions of the last week of October in it.
cleanup_old_partitions-fetch_example :
    fetch partition_key 202510
      (cleanup_old_partitions subtract works november 1 (new_partition add 2025 10 ∷ [])).0
    ≡ none
unfolding program
cleanup_old_partitions-fetch_example =
    cleanup_old_partitions-fetch subtract works november 1 202510 (new_partition add 2025 10 ∷ [])
      (λ n. refl)
