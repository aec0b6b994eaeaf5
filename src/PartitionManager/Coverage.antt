-- ===== src/PartitionManager/Coverage.antt =====
-- api/partition_manager.py: the months that have a partition, and those that lose it.
use mathlib.Core.Path.{subst}
use native.Mathlib.Decide.{ℕ_discrete}
use vlog.Prelude.{
  ℕ, zero, suc, Bool, true, false, Option, none, some, List, ◌≡◌, ◌≢◌, ◌≤◌, ◌<◌, ◌⊎◌, ◌+◌, ◌*◌,
  refl, sym, ap, ◌∙◌, arith, if◌then◌else◌, ltb, is_some, inl, inr,
}
use vlog.Prelude.Tables.{fetch, fetch-key, EachRow}
use vlog.PartitionManager.Partitions.{
  Date, Partition, partition_key, Outcome, ok, value_error, database_error, Creation, created,
  already_exists, broken, validate_partition_params, partition_name, validate_partition_name,
  insert_partition, month_start, chain, new_partition, store_partition, create_partition,
  ensure_from, ensure_partitions_exist,
}
use vlog.PartitionManager.Months.{
  month_index, AddsMonths, IsMonthly, Covers, IsOk, insert_here, insert-Covers, insert-Monthly,
}

module _ (add_months : ℕ → Date → Date) (adds : AddsMonths add_months) where
  new-IsMonthly :
      (year month : ℕ) → 1 ≤ month → month ≤ 12 → IsMonthly (new_partition add_months year month)
  new-IsMonthly year month one twelve = record {
    name = refl;
    month = (one, twelve);
    end_ = adds.index 1 (month_start year month) (omega (arith, one));
  }

  -- What a step of the loop leaves: monthly partitions, the months that had one, and the new one.
  record Step (year month : ℕ) (parts parts' : List Partition) : Type 0 where
    pub monthly : EachRow partition_key IsMonthly parts'
    pub old : (t : ℕ) → Covers parts t → Covers parts' t
    pub new : Covers parts' (year * 12 + month)

  stored :
      (year month : ℕ) (parts : List Partition)
      → 1 ≤ month
      → month ≤ 12
      → fetch partition_key (partition_name year month) parts ≡ none
      → EachRow partition_key IsMonthly parts
      → Step year month parts (insert_partition (new_partition add_months year month) parts)
  stored year month parts one twelve free each =
      let p = new_partition add_months year month in
      record {
        monthly = insert-Monthly p parts (new-IsMonthly year month one twelve) free each;
        old = λ t c. insert-Covers t p parts free c;
        new = (
          p,
          insert_here p parts free,
          refl,
          adds.index 1 (month_start year month) (omega (arith, one)),
        );
      }

  present :
      (year month : ℕ) (p : Partition) (parts : List Partition)
      → 1 ≤ month
      → month ≤ 12
      → fetch partition_key (partition_name year month) parts ≡ some p
      → EachRow partition_key IsMonthly parts
      → Step year month parts parts
  present year month p parts one twelve found each =
      let m = each (partition_name year month) p found in
      let key = fetch-key partition_key (partition_name year month) parts p found in
      let start : month_index p.start_date ≡ year * 12 + month =
        omega (arith, m.name, m.month, key) in
      record {
        monthly = each;
        old = λ t c. c;
        new = (
          p,
          subst (λ n. fetch partition_key n parts ≡ some p) (sym key) found,
          start,
          m.end_ ∙ ap (λ n. n + 1) start,
        );
      }

  attempt :
      (c : Creation) (year month : ℕ) (parts : List Partition)
      → c ≢ broken
      → 1 ≤ month
      → month ≤ 12
      → fetch partition_key (partition_name year month) parts ≡ none
      → EachRow partition_key IsMonthly parts
      → Step year month parts (store_partition add_months c year month parts).0
        × ((b : Bool) × ((store_partition add_months c year month parts).1 ≡ ok b))
  unfolding store_partition
  attempt created year month parts w one twelve free each =
      (stored year month parts one twelve free each, (true, refl))
  attempt already_exists year month parts w one twelve free each =
      (stored year month parts one twelve free each, (false, refl))
  attempt broken year month parts w one twelve free each = absurd (w refl)

  -- One call that does not fail.
  create-Step :
      (creation : Creation) (year month : ℕ) (parts : List Partition)
      → creation ≢ broken
      → validate_partition_params year month ≡ true
      → EachRow partition_key IsMonthly parts
      → Step year month parts (create_partition add_months creation year month parts).0
        × ((b : Bool) × ((create_partition add_months creation year month parts).1 ≡ ok b))
  unfolding create_partition validate_partition_params validate_partition_name
  create-Step creation year month parts works valid each =
      let named : ltb (partition_name year month) 1000000 ≡ true = ground (arith, valid) in
      let one : 1 ≤ month = ground (arith, valid) in
      let twelve : month ≤ 12 = ground (arith, valid) in
      rw (valid, named, create_partition)
        (go one twelve (fetch partition_key (partition_name year month) parts) refl)
    where
      go :
          1 ≤ month
          → month ≤ 12
          → (o : Option Partition) → fetch partition_key (partition_name year month) parts ≡ o
          → Step year month parts
              (if is_some o
                then (parts, ok false)
                else store_partition add_months creation year month parts).0
            × ((b : Bool) × ((if is_some o
                    then (parts, ok false)
                    else store_partition add_months creation year month parts).1
                  ≡ ok b))
      go one twelve none e = attempt creation year month parts works one twelve e each
      go one twelve (some p) e = (present year month p parts one twelve e each, (false, refl))

  chain_ok :
      (parts : List Partition) (b : Bool) (name : ℕ) (rest : List Partition × Outcome (List ℕ))
      → IsOk rest.1
      → ((chain (parts, ok b) name rest).0 ≡ rest.0) × IsOk (chain (parts, ok b) name rest).1
  chain_ok parts b name (later, ok names) h = (refl, tt)
  chain_ok parts b name (later, value_error) h = absurd h
  chain_ok parts b name (later, database_error) h = absurd h

  valid_at :
      (n : ℕ) (now : Date)
      → 2020 * 12 + 1 ≤ month_index now
      → month_index now + n ≤ 2100 * 12 + 12
      → validate_partition_params (add_months n now).year (add_months n now).month ≡ true
  unfolding validate_partition_params
  valid_at n now low high =
      let at_ = adds.index n now (omega (arith, low)) in
      let in_ = adds.month n now in
      let a : 2020 ≤ (add_months n now).year = omega (arith, at_, in_, low) in
      let b : (add_months n now).year ≤ 2100 = omega (arith, at_, in_, high) in
      ground (arith, a, b, in_)

  -- What the rest of the loop leaves.
  record Loop (first n : ℕ) (parts : List Partition) (r : List Partition × Outcome (List ℕ))
      : Type 0 where
    pub fine : IsOk r.1
    pub old : (t : ℕ) → Covers parts t → Covers r.0 t
    pub new : (t : ℕ) → first ≤ t → t < first + n → Covers r.0 t

  chained :
      (year month first n : ℕ) (parts : List Partition) (r : List Partition × Outcome Bool)
      (name : ℕ) (rest : List Partition × Outcome (List ℕ))
      → Step year month parts r.0 × ((b : Bool) × (r.1 ≡ ok b))
      → year * 12 + month ≡ first
      → Loop (suc first) n r.0 rest
      → Loop first (suc n) parts (chain r name rest)
  chained year month first n parts (mid, value_error) name rest (s, (b, e)) at_ l = absurd (clash e)
    where
      clash : value_error ≡ ok b → ⊥
      clash e = cc
  chained year month first n parts (mid, database_error) name rest (s, (b, e)) at_ l =
      absurd (clash e)
    where
      clash : database_error ≡ ok b → ⊥
      clash e = cc
  chained year month first n parts (mid, ok c) name rest (s, (b, e)) at_ l =
      let done = chain_ok mid c name rest l.fine in
      record {
        fine = done.1;
        old = λ t h. subst (λ ps. Covers ps t) (sym done.0) (l.old t (s.old t h));
        new = λ t low high. subst (λ ps. Covers ps t) (sym done.0) (fresh t low high);
      }
    where
      fresh : (t : ℕ) → first ≤ t → t < first + suc n → Covers rest.0 t
      fresh t low high = elim (ℕ_discrete t first) [
        | yes same ↦ l.old t (subst (λ x. Covers mid x) (at_ ∙ sym same) s.new)
        | no ne ↦ l.new t (omega (arith, low, ne)) (omega (arith, high))
      ]

  loop :
      (creations : ℕ → Creation) (now : Date) (i n : ℕ) (parts : List Partition)
      → ((k : ℕ) → creations k ≢ broken)
      → 2020 * 12 + 1 ≤ month_index now
      → month_index now + (i + n) ≤ 2100 * 12 + 13
      → EachRow partition_key IsMonthly parts
      → Loop (month_index now + i) n parts (ensure_from add_months creations now i n parts)
  unfolding ensure_from
  loop creations now i zero parts works low high each = record {
    fine = tt;
    old = λ t h. h;
    new = λ t a b. absurd (omega (arith, a, b));
  }
  loop creations now i (suc n) parts works low high each =
      let d = add_months i now in
      let r = create_partition add_months (creations i) d.year d.month parts in
      let s =
        create-Step (creations i) d.year d.month parts (works i)
          (valid_at i now low (omega (arith, high))) each in
      let rest = ensure_from add_months creations now (suc i) n r.0 in
      let next : Loop (month_index now + suc i) n r.0 rest =
        loop creations now (suc i) n r.0 works low (omega (arith, high)) s.0.monthly in
      let next' : Loop (suc (month_index now + i)) n r.0 rest =
        subst (λ x. Loop x n r.0 rest) (omega arith) next in
      chained d.year d.month (month_index now + i) n parts r (partition_name d.year d.month) rest s
        (adds.index i now (omega (arith, low))) next'

  -- Where `relativedelta` adds months, the present partitions are each the month of their name and no
  -- CREATE TABLE fails, between 2020 and 2100: `ensure_partitions_exist` returns, the months from the present one to
  -- `months_ahead` later have a partition each, and so have those that had one before.
  pub ensure_partitions_exist-Covers :
      (creations : ℕ → Creation) (now : Date) (months_ahead t : ℕ) (parts : List Partition)
      → ((k : ℕ) → creations k ≢ broken)
      → 2020 * 12 + 1 ≤ month_index now
      → month_index now + months_ahead ≤ 2100 * 12 + 12
      → EachRow partition_key IsMonthly parts
      → ((month_index now ≤ t) × (t ≤ month_index now + months_ahead)) ⊎ Covers parts t
      → IsOk (ensure_partitions_exist add_months creations now months_ahead parts).1
        × Covers (ensure_partitions_exist add_months creations now months_ahead parts).0 t
  unfolding ensure_partitions_exist
  ensure_partitions_exist-Covers creations now months_ahead t parts works low high each which =
      let l = loop creations now 0 (suc months_ahead) parts works low (omega (arith, high)) each in
      (l.fine, covered l which)
    where
      covered :
          Loop
            (month_index now + 0)
            (suc months_ahead)
            parts
            (ensure_from add_months creations now 0 (suc months_ahead) parts)
          → ((month_index now ≤ t) × (t ≤ month_index now + months_ahead)) ⊎ Covers parts t
          → Covers (ensure_from add_months creations now 0 (suc months_ahead) parts).0 t
      covered l (inl h) = l.new t (omega (arith, h.0)) (omega (arith, h.1))
      covered l (inr c) = l.old t c
