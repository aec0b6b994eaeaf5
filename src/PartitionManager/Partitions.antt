-- ===== src/PartitionManager/Partitions.antt =====
-- api/partition_manager.py. A partition's name is its prefix with six digits YYYYMM; it is written here as the
-- number of the digits. The list of partitions is in the order of the names, as the catalogue
-- returns it.
use vlog.Prelude.{
  ℕ, zero, suc, Bool, true, false, not, List, [], ◌∷◌, ◌+◌, ◌*◌, ◌/◌, ◌%◌, ◌==◌, ◌&&◌, ◌||◌,
  if◌then◌else◌, ltb, leb, is_some, keep_if,
}
use vlog.Prelude.Tables.{fetch}

-- A datetime in UTC: its month, and the time that has passed in that month.
pub record Date : Type 0 where
  pub year : ℕ
  pub month : ℕ
  pub passed : ℕ

pub record Partition : Type 0 where
  pub name : ℕ
  pub start_date : Date
  pub end_date : Date

abbrev pub partition_key : Partition → ℕ
partition_key p = p.name

pub data Outcome {ℓ} (A : Type ℓ) : Type ℓ where
  ok : A → Outcome A
  value_error database_error : Outcome A

-- How CREATE TABLE ends: with the partition, with the error that another process has made it, or
-- with any other error.
pub data Creation : Type 0 where
  created already_exists broken : Creation

abbrev pub min_partition_year : ℕ
min_partition_year = 2020

abbrev pub max_partition_year : ℕ
max_partition_year = 2100

unfoldable pub validate_partition_params : ℕ → ℕ → Bool
validate_partition_params year month =
    (leb min_partition_year year && leb year max_partition_year) && (leb 1 month && leb month 12)

abbrev pub partition_name : ℕ → ℕ → ℕ
partition_name year month = year * 100 + month

-- Six digits.
unfoldable pub validate_partition_name : ℕ → Bool
validate_partition_name n = ltb n 1000000

unfoldable pub partition_exists : ℕ → ℕ → List Partition → Outcome Bool
unfolding validate_partition_params
partition_exists year month parts =
    if validate_partition_params year month
    then ok (is_some (fetch partition_key (partition_name year month) parts))
    else value_error

unfoldable pub insert_partition : Partition → List Partition → List Partition
insert_partition p [] = p ∷ []
insert_partition p (x ∷ rest) =
    let tail = insert_partition p rest in if ltb p.name x.name then p ∷ x ∷ rest else x ∷ tail

abbrev pub month_start : ℕ → ℕ → Date
month_start year month = record { year = year; month = month; passed = 0 }

-- The rest of a loop after one step: an exception ends it.
abbrev pub chain :
    List Partition × Outcome Bool
    → ℕ
    → List Partition × Outcome (List ℕ)
    → List Partition × Outcome (List ℕ)
chain (parts, ok b) name (later, ok names) = (later, ok (if b then name ∷ names else names))
chain (parts, ok b) name (later, value_error) = (later, value_error)
chain (parts, ok b) name (later, database_error) = (later, database_error)
chain (parts, value_error) name rest = (parts, value_error)
chain (parts, database_error) name rest = (parts, database_error)

-- `relativedelta(months=n)` added to a date.
module _ (add_months : ℕ → Date → Date) where
  abbrev pub new_partition : ℕ → ℕ → Partition
  new_partition year month = record {
    name = partition_name year month;
    start_date = month_start year month;
    end_date = add_months 1 (month_start year month);
  }

  unfoldable pub store_partition : Creation → ℕ → ℕ → List Partition → List Partition × Outcome Bool
  unfolding insert_partition
  store_partition created year month parts =
      (insert_partition (new_partition year month) parts, ok true)
  store_partition already_exists year month parts =
      (insert_partition (new_partition year month) parts, ok false)
  store_partition broken year month parts = (parts, database_error)

  unfoldable pub create_partition :
      Creation → ℕ → ℕ → List Partition → List Partition × Outcome Bool
  unfolding store_partition validate_partition_params validate_partition_name
  create_partition creation year month parts =
      if validate_partition_params year month && validate_partition_name (partition_name year month)
      then (if is_some (fetch partition_key (partition_name year month) parts)
          then (parts, ok false)
          else store_partition creation year month parts)
      else (parts, value_error)

  -- The loop from `i` on, with that many rounds to go.
  unfoldable pub ensure_from :
      (ℕ → Creation) → Date → ℕ → ℕ → List Partition → List Partition × Outcome (List ℕ)
  unfolding create_partition
  ensure_from creations now i zero parts = (parts, ok [])
  ensure_from creations now i (suc n) parts =
      let d = add_months i now in
      let r = create_partition (creations i) d.year d.month parts in
      chain r (partition_name d.year d.month) (ensure_from creations now (suc i) n r.0)

  unfoldable pub ensure_partitions_exist :
      (ℕ → Creation) → Date → ℕ → List Partition → List Partition × Outcome (List ℕ)
  unfolding ensure_from
  ensure_partitions_exist creations now months_ahead parts =
      ensure_from creations now 0 (suc months_ahead) parts

-- `works`: DROP TABLE goes through.
unfoldable pub drop_partition : Bool → ℕ → ℕ → List Partition → List Partition × Outcome Bool
unfolding validate_partition_params validate_partition_name
drop_partition works year month parts =
    if validate_partition_params year month && validate_partition_name (partition_name year month)
    then (if is_some (fetch partition_key (partition_name year month) parts)
        then (if works
            then (keep_if (λ p. not (p.name == partition_name year month)) parts, ok true)
            else (parts, database_error))
        else (parts, ok false))
    else (parts, value_error)

unfoldable pub is_before : Date → Date → Bool
is_before a b =
    ltb a.year b.year
    || ((a.year == b.year)
        && (ltb a.month b.month || ((a.month == b.month) && ltb a.passed b.passed)))

-- `datetime(year, month, 1)` raises a ValueError for a month or a year that there is not.
unfoldable pub is_date : ℕ → ℕ → Bool
is_date year month = leb 1 year && (leb 1 month && leb month 12)

-- One name of `cleanup_old_partitions`; what is no date, or may not be dropped, is passed over.
unfoldable pub cleanup_one : Bool → Date → ℕ → List Partition → List Partition × Outcome Bool
unfolding drop_partition is_before is_date
cleanup_one works cutoff name parts =
    if is_date (name / 100) (name % 100)
      && (is_before (month_start (name / 100) (name % 100)) cutoff
          && validate_partition_params (name / 100) (name % 100))
    then drop_partition works (name / 100) (name % 100) parts
    else (parts, ok false)

unfoldable pub cleanup_names :
    (ℕ → Bool) → Date → List Partition → List Partition → List Partition × Outcome (List ℕ)
unfolding cleanup_one
cleanup_names works cutoff [] parts = (parts, ok [])
cleanup_names works cutoff (x ∷ rest) parts =
    let r = cleanup_one (works x.name) cutoff x.name parts in
    chain r x.name (cleanup_names works cutoff rest r.0)

-- `subtract_months n` takes `relativedelta(months=n)` off a date.
unfoldable pub cleanup_old_partitions :
    (ℕ → Date → Date) → (ℕ → Bool) → Date → ℕ → List Partition → List Partition × Outcome (List ℕ)
unfolding cleanup_names
cleanup_old_partitions subtract_months works now retention_months parts =
    cleanup_names works (subtract_months retention_months now) parts parts
