-- ===== src/PartitionManager/Months.antt =====
-- api/partition_manager.py: months, the partitions of a month, and adding one.
use mathlib.Core.Path.{subst}
use native.Mathlib.Decide.{ℕ_discrete}
use vlog.Prelude.{
  ℕ, Bool, true, false, Option, none, some, List, [], ◌∷◌, ◌≡◌, ◌≢◌, ◌≤◌, ◌+◌, ◌*◌, refl, sym, ap,
  ◌∙◌, arith, if◌then◌else◌, ltb,
}
use vlog.Prelude.Tables.{fetch, fetch_here, fetch_ne, EachRow}
use vlog.PartitionManager.Partitions.{
  Date, Partition, partition_key, Outcome, ok, value_error, database_error, partition_name,
  insert_partition,
}

-- The number of a month.
abbrev pub month_index : Date → ℕ
month_index d = d.year * 12 + d.month

-- What is documented of `relativedelta`: a date that many months later, in a month of the calendar.
pub record AddsMonths (add_months : ℕ → Date → Date) : Type 0 where
  pub index :
      (n : ℕ) (d : Date) → 1 ≤ month_index d → month_index (add_months n d) ≡ month_index d + n
  pub month : (n : ℕ) (d : Date) → (1 ≤ (add_months n d).month) × ((add_months n d).month ≤ 12)

-- A partition as `create_partition` makes them: from the month of its name to the next.
pub record IsMonthly (p : Partition) : Type 0 where
  pub name : p.name ≡ partition_name p.start_date.year p.start_date.month
  pub month : (1 ≤ p.start_date.month) × (p.start_date.month ≤ 12)
  pub end_ : month_index p.end_date ≡ month_index p.start_date + 1

-- The month of that number has a partition of its own.
abbrev pub Covers : List Partition → ℕ → Type 0
Covers parts t =
    (p : Partition) × (fetch partition_key p.name parts ≡ some p)
    × (month_index p.start_date ≡ t)
    × (month_index p.end_date ≡ t + 1)

abbrev pub IsOk : Outcome (List ℕ) → Type 0
IsOk (ok names) = Unit
IsOk value_error = ⊥
IsOk database_error = ⊥

fetch-if :
    (b : Bool) (k : ℕ) (xs ys : List Partition) (o : Option Partition)
    → fetch partition_key k xs ≡ o
    → fetch partition_key k ys ≡ o
    → fetch partition_key k (if b then xs else ys) ≡ o
fetch-if true k xs ys o h i = h
fetch-if false k xs ys o h i = i

pub insert_here :
    (p : Partition) (parts : List Partition)
    → fetch partition_key p.name parts ≡ none
    → fetch partition_key p.name (insert_partition p parts) ≡ some p
unfolding insert_partition
insert_here p [] h = fetch_here partition_key p.name p [] refl
insert_here p (x ∷ rest) h =
    fetch-if (ltb p.name x.name) p.name (p ∷ x ∷ rest) (x ∷ insert_partition p rest) (some p)
      (fetch_here partition_key p.name p (x ∷ rest) refl) (ground (arith, h, insert_here p rest))

insert_elsewhere :
    (k : ℕ) (p : Partition) (parts : List Partition)
    → p.name ≢ k
    → fetch partition_key k (insert_partition p parts) ≡ fetch partition_key k parts
unfolding insert_partition
insert_elsewhere k p [] ne = fetch_ne partition_key k p [] ne
insert_elsewhere k p (x ∷ rest) ne =
    fetch-if (ltb p.name x.name) k (p ∷ x ∷ rest) (x ∷ insert_partition p rest)
      (fetch partition_key k (x ∷ rest)) (fetch_ne partition_key k p (x ∷ rest) ne)
      (ground (arith, insert_elsewhere k p rest ne))

-- A new partition, whose name is not taken: the others stay.
pub insert-Covers :
    (t : ℕ) (p : Partition) (parts : List Partition)
    → fetch partition_key p.name parts ≡ none
    → Covers parts t
    → Covers (insert_partition p parts) t
insert-Covers t p parts free (q, found, first, last) = (
  q,
  insert_elsewhere q.name p parts
        (λ e. absurd (clash (sym free ∙ ap (λ n. fetch partition_key n parts) e ∙ found)))
      ∙ found,
  first,
  last,
)
  where
    clash : none ≡ some q → ⊥
    clash e = cc

pub insert-Monthly :
    (p : Partition) (parts : List Partition)
    → IsMonthly p
    → fetch partition_key p.name parts ≡ none
    → EachRow partition_key IsMonthly parts
    → EachRow partition_key IsMonthly (insert_partition p parts)
insert-Monthly p parts m free each k x h = elim (ℕ_discrete p.name k) [
  | yes e ↦
      let same : p ≡ x = cc (
        insert_here p parts free,
        subst (λ n. fetch partition_key n (insert_partition p parts) ≡ some x) (sym e) h,
      ) in
      subst IsMonthly same m
  | no ne ↦ each k x (sym (insert_elsewhere k p parts ne) ∙ h)
]
