-- ===== src/PartitionManager/Retention.antt =====
-- api/partition_manager.py: which partitions `cleanup_old_partitions` drops.
use native.Mathlib.Decide.{ℕ_discrete}
use vlog.Prelude.{
  ℕ, Bool, true, false, not, Option, none, some, List, [], ◌∷◌, ◌≡◌, ◌/◌, ◌%◌, ◌==◌, ◌&&◌, refl, ap,
  ◌∙◌, arith, if◌then◌else◌, ltb, is_some, keep_if,
}
use vlog.Prelude.Tables.{fetch}
use vlog.PartitionManager.Partitions.{
  Date, Partition, partition_key, Outcome, ok, value_error, database_error,
  validate_partition_params, partition_name, validate_partition_name, month_start, chain,
  drop_partition, is_before, is_date, cleanup_one, cleanup_names, cleanup_old_partitions,
}

-- The name is that of a month between 2020 and 2100 that began before the cutoff.
unfoldable pub is_expired : Date → ℕ → Bool
unfolding is_date is_before validate_partition_params
is_expired cutoff n =
    is_date (n / 100) (n % 100)
    && (is_before (month_start (n / 100) (n % 100)) cutoff
        && validate_partition_params (n / 100) (n % 100))

fetch-drop :
    (k n : ℕ) (parts : List Partition)
    → fetch partition_key k (keep_if (λ p. not (p.name == n)) parts)
      ≡ (if k == n then none else fetch partition_key k parts)
fetch-drop k n [] = ground arith
fetch-drop k n (x ∷ rest) = ground (arith, fetch-drop k n rest)

-- The partition with one name is not there, and the call says so.
abbrev Dropped : ℕ → ℕ → List Partition → List Partition × Outcome Bool → Type 0
Dropped k n parts r =
    (fetch partition_key k r.0 ≡ (if k == n then none else fetch partition_key k parts))
    × ((b : Bool) × (r.1 ≡ ok b))

missing :
    (k n : ℕ) (parts : List Partition)
    → fetch partition_key n parts ≡ none
    → fetch partition_key k parts ≡ (if k == n then none else fetch partition_key k parts)
missing k n parts h = elim (ℕ_discrete k n) [
  | yes e ↦
      let here : (k == n) ≡ true = ground (arith, e) in
      rw here (ap (λ i. fetch partition_key i parts) e ∙ h)
  | no ne ↦ let apart : (k == n) ≡ false = ground (arith, ne) in rw apart refl
]

drop-Dropped :
    (k year month : ℕ) (parts : List Partition)
    → validate_partition_params year month ≡ true
    → Dropped k (partition_name year month) parts (drop_partition true year month parts)
unfolding drop_partition validate_partition_name validate_partition_params
drop-Dropped k year month parts valid =
    let named : ltb (partition_name year month) 1000000 ≡ true = ground (arith, valid) in
    rw (valid, named, drop_partition)
      (go (fetch partition_key (partition_name year month) parts) refl)
  where
    go :
        (o : Option Partition)
        → fetch partition_key (partition_name year month) parts ≡ o
        → Dropped k (partition_name year month) parts (
            if is_some o
            then (keep_if (λ p. not (p.name == partition_name year month)) parts, ok true)
            else (parts, ok false))
    go none e = (missing k (partition_name year month) parts e, (false, refl))
    go (some p) e = (fetch-drop k (partition_name year month) parts, (true, refl))

expired_valid :
    (cutoff : Date) (n : ℕ)
    → is_expired cutoff n ≡ true
    → validate_partition_params (n / 100) (n % 100) ≡ true
unfolding is_expired
expired_valid cutoff n e = ground (arith, e)

-- One name, where DROP TABLE goes through.
one-fetch :
    (k : ℕ) (cutoff : Date) (n : ℕ) (parts : List Partition)
    → (fetch partition_key k (cleanup_one true cutoff n parts).0
        ≡ (if (k == n) && is_expired cutoff n then none else fetch partition_key k parts))
      × ((b : Bool) × ((cleanup_one true cutoff n parts).1 ≡ ok b))
unfolding cleanup_one is_expired
one-fetch k cutoff n parts = go (is_expired cutoff n) refl
  where
    whole : partition_name (n / 100) (n % 100) ≡ n
    whole = omega arith

    go :
        (b : Bool)
        → is_expired cutoff n ≡ b
        → (fetch partition_key k
              (if b then drop_partition true (n / 100) (n % 100) parts else (parts, ok false)).0
            ≡ (if (k == n) && b then none else fetch partition_key k parts))
          × ((c : Bool) × ((if b
                  then drop_partition true (n / 100) (n % 100) parts
                  else (parts, ok false)).1
                ≡ ok c))
    go false e = (ground arith, (false, refl))
    go true e =
        let d = drop-Dropped k (n / 100) (n % 100) parts (expired_valid cutoff n e) in
        (d.0 ∙ ground (arith, whole), d.1)

fetch-chain :
    (k : ℕ) (r : List Partition × Outcome Bool) (name : ℕ)
    (rest : List Partition × Outcome (List ℕ)) (b : Bool)
    → r.1 ≡ ok b
    → fetch partition_key k (chain r name rest).0 ≡ fetch partition_key k rest.0
fetch-chain k (parts, ok c) name (later, ok names) b h = refl
fetch-chain k (parts, ok c) name (later, value_error) b h = refl
fetch-chain k (parts, ok c) name (later, database_error) b h = refl
fetch-chain k (parts, value_error) name rest b h = cc
fetch-chain k (parts, database_error) name rest b h = cc

hit :
    (a b : Bool) (o q : Option Partition)
    → o ≡ (if b then none else q)
    → (if a && b then none else o) ≡ (if b then none else q)
hit true true o q h = refl
hit true false o q h = h
hit false b o q h = h

names-fetch :
    (works : ℕ → Bool) (k : ℕ) (cutoff : Date) (xs parts : List Partition)
    → ((n : ℕ) → works n ≡ true)
    → fetch partition_key k (cleanup_names works cutoff xs parts).0 ≡ (
        if is_some (fetch partition_key k xs) && is_expired cutoff k
        then none
        else fetch partition_key k parts)
unfolding cleanup_names
names-fetch works k cutoff [] parts all = refl
names-fetch works k cutoff (x ∷ rest) parts all = rw (all x.name) (
    let r = cleanup_one true cutoff x.name parts in
    let one = one-fetch k cutoff x.name parts in
    fetch-chain k r x.name (cleanup_names works cutoff rest r.0) one.1.0 one.1.1
    ∙ names-fetch works k cutoff rest r.0 all
    ∙ go (is_expired cutoff k) refl one.0)
  where
    go :
        (b : Bool)
        → is_expired cutoff k ≡ b
        → fetch partition_key k (cleanup_one true cutoff x.name parts).0 ≡ (
            if (k == x.name) && is_expired cutoff x.name then none else fetch partition_key k parts)
        → (if is_some (fetch partition_key k rest) && is_expired cutoff k
            then none
            else fetch partition_key k (cleanup_one true cutoff x.name parts).0)
          ≡ (if is_some (fetch partition_key k (x ∷ rest)) && is_expired cutoff k
              then none
              else fetch partition_key k parts)
    go b e one = elim (ℕ_discrete x.name k) [
      | yes q ↦
          let here : (x.name == k) ≡ true = ground (arith, q) in
          let there : (k == x.name) ≡ true = ground (arith, q) in
          let same : is_expired cutoff x.name ≡ is_expired cutoff k = ap (is_expired cutoff) q in
          rw here (
            hit (is_some (fetch partition_key k rest)) (is_expired cutoff k) _ _
              (rw (there, same) at one))
      | no ne ↦
          let here : (x.name == k) ≡ false = ground (arith, ne) in
          let there : (k == x.name) ≡ false = ground (arith, ne) in
          let kept : fetch partition_key k (cleanup_one true cutoff x.name parts).0
              ≡ fetch partition_key k parts =
            rw there at one in
          rw (here, kept) refl
    ]

-- Where `relativedelta` takes months off and every DROP TABLE goes through: after
-- `cleanup_old_partitions` a partition is there exactly if it was there and its month did not begin before the
-- present time `retention_months` ago, or is not between 2020 and 2100.
pub cleanup_old_partitions-fetch :
    (subtract_months : ℕ → Date → Date) (works : ℕ → Bool) (now : Date) (retention_months k : ℕ)
    (parts : List Partition)
    → ((n : ℕ) → works n ≡ true)
    → fetch partition_key k
        (cleanup_old_partitions subtract_months works now retention_months parts).0
      ≡ (if is_expired (subtract_months retention_months now) k
          then none
          else fetch partition_key k parts)
unfolding cleanup_old_partitions
cleanup_old_partitions-fetch subtract_months works now retention_months k parts all =
    names-fetch works k (subtract_months retention_months now) parts parts all
    ∙ once (is_expired (subtract_months retention_months now) k) (fetch partition_key k parts)
  where
    once :
        (b : Bool) (o : Option Partition)
        → (if is_some o && b then none else o) ≡ (if b then none else o)
    once true none = refl
    once true (some p) = refl
    once false none = refl
    once false (some p) = refl
