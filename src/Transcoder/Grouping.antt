-- ===== src/Transcoder/Grouping.antt =====
-- worker/transcoder.py: the batches hold each quality as often as it was asked for.
use vlog.Prelude.{
  ℕ, zero, suc, Bool, true, false, not, List, [], ◌∷◌, ◌≡◌, ◌≤◌, ◌+◌, max, refl, arith, All,
  if◌then◌else◌, ltb, leb, length, keep_if, length-append,
}
use vlog.Transcoder.Batches.{
  Quality, is_high, choose, fill_batch, add_batch, left_over, batch_loop, singletons,
  group_qualities_by_resolution,
}

-- How many qualities pass a test, in a list and in a list of batches.
abbrev pub count : (Quality → Bool) → List Quality → ℕ
count p [] = 0
count p (x ∷ rest) = let c = count p rest in if p x then suc c else c

abbrev pub count_all : (Quality → Bool) → List (List Quality) → ℕ
count_all p [] = 0
count_all p (b ∷ rest) = count p b + count_all p rest

-- Not empty and no longer than the number of parallel encodes.
abbrev pub IsBatch : ℕ → List Quality → Type 0
IsBatch n b = (1 ≤ length b) × (length b ≤ max 1 n)

fill_batch-count :
    (p : Quality → Bool) (n k : ℕ) (high low : List Quality)
    → count p (fill_batch n k high low).0
        + count p (fill_batch n k high low).1
        + count p (fill_batch n k high low).2
      ≡ count p high + count p low
unfolding fill_batch choose
fill_batch-count p zero k high low = omega arith
fill_batch-count p (suc n) k [] [] = omega arith
fill_batch-count p (suc n) k (x ∷ high) [] = ground (arith, fill_batch-count p n (suc k) high [])
fill_batch-count p (suc n) k [] (y ∷ low) = ground (arith, fill_batch-count p n (suc k) [] low)
fill_batch-count p (suc n) k (x ∷ high) (y ∷ low) =
    let c = choose k x high y low in ground (arith, fill_batch-count p n (suc k) c.1 c.2)

fill_batch-length :
    (n k : ℕ) (high low : List Quality)
    → (length (fill_batch n k high low).0 ≤ n)
      × (length (fill_batch n k high low).0
            + (length (fill_batch n k high low).1 + length (fill_batch n k high low).2)
          ≡ length high + length low)
unfolding fill_batch choose
fill_batch-length zero k high low = omega arith
fill_batch-length (suc n) k [] [] = omega arith
fill_batch-length (suc n) k (x ∷ high) [] = ground (arith, fill_batch-length n (suc k) high [])
fill_batch-length (suc n) k [] (y ∷ low) = ground (arith, fill_batch-length n (suc k) [] low)
fill_batch-length (suc n) k (x ∷ high) (y ∷ low) =
    let c = choose k x high y low in ground (arith, fill_batch-length n (suc k) c.1 c.2)

-- A batch is filled where there is something to fill it with.
fill_batch-filled :
    (n k : ℕ) (high low : List Quality)
    → 1 ≤ n
    → 1 ≤ length high + length low
    → 1 ≤ length (fill_batch n k high low).0
unfolding fill_batch
fill_batch-filled zero k high low h i = omega arith
fill_batch-filled (suc n) k [] [] h i = omega arith
fill_batch-filled (suc n) k (x ∷ high) [] h i = omega arith
fill_batch-filled (suc n) k [] (y ∷ low) h i = omega arith
fill_batch-filled (suc n) k (x ∷ high) (y ∷ low) h i = omega arith

add_batch-count :
    (p : Quality → Bool) (b : List Quality) (rest : List (List Quality))
    → count_all p (add_batch b rest) ≡ count p b + count_all p rest
unfolding add_batch
add_batch-count p [] rest = omega arith
add_batch-count p (x ∷ b) rest = omega arith

no_more :
    (p : Quality → Bool) (high low : List Quality)
    → length high + length low ≡ 0
    → count p high + count p low ≡ 0
no_more p [] [] h = refl
no_more p [] (y ∷ low) h = omega arith
no_more p (x ∷ high) low h = omega arith

batch_loop-count :
    (p : Quality → Bool) (fuel n : ℕ) (high low : List Quality)
    → 1 ≤ n
    → length high + length low ≤ fuel
    → count_all p (batch_loop fuel n high low) ≡ count p high + count p low
unfolding batch_loop
batch_loop-count p zero n high low h i = ground (arith, no_more p high low)
batch_loop-count p (suc fuel) n high low h i =
    let filled = fill_batch n 0 high low in
    ground (
      arith,
      batch_loop-count p fuel n filled.1 filled.2 h,
      fill_batch-count p n 0 high low,
      fill_batch-length n 0 high low,
      fill_batch-filled n 0 high low h,
      add_batch-count p filled.0 (batch_loop fuel n filled.1 filled.2),
      no_more p high low,
      length-append high low,
    )

add_batch-All :
    (n : ℕ) (b : List Quality) (rest : List (List Quality))
    → length b ≤ n
    → All (IsBatch n) rest
    → All (IsBatch n) (add_batch b rest)
unfolding add_batch
add_batch-All n [] rest h i = i
add_batch-All n (x ∷ b) rest h i = ((omega arith, omega arith), i)

either-All :
    (n : ℕ) (b : Bool) (xs ys : List (List Quality))
    → All (IsBatch n) xs
    → All (IsBatch n) ys
    → All (IsBatch n) (if b then xs else ys)
either-All n true xs ys h i = h
either-All n false xs ys h i = i

batch_loop-All :
    (fuel n : ℕ) (high low : List Quality) → All (IsBatch n) (batch_loop fuel n high low)
unfolding batch_loop
batch_loop-All zero n high low = tt
batch_loop-All (suc fuel) n high low =
    let filled = fill_batch n 0 high low in
    let rest = batch_loop fuel n filled.1 filled.2 in
    either-All n (ltb 0 (left_over high low)) (add_batch filled.0 rest) []
      (add_batch-All n filled.0 rest (fill_batch-length n 0 high low).0
        (batch_loop-All fuel n filled.1 filled.2))
      tt

singletons-count :
    (p : Quality → Bool) (qs : List Quality) → count_all p (singletons qs) ≡ count p qs
unfolding singletons
singletons-count p [] = refl
singletons-count p (q ∷ rest) = ground (arith, singletons-count p rest)

singletons-All : (n : ℕ) (qs : List Quality) → All (IsBatch n) (singletons qs)
unfolding singletons
singletons-All n [] = tt
singletons-All n (q ∷ rest) = ((omega arith, omega arith), singletons-All n rest)

-- The two groups together hold what the list holds.
split-count :
    (p r : Quality → Bool) (qs : List Quality)
    → count p (keep_if r qs) + count p (keep_if (λ q. not (r q)) qs) ≡ count p qs
split-count p r [] = refl
split-count p r (q ∷ rest) = ground (arith, split-count p r rest)

split-length :
    (r : Quality → Bool) (qs : List Quality)
    → length (keep_if r qs) + length (keep_if (λ q. not (r q)) qs) ≡ length qs
split-length r [] = refl
split-length r (q ∷ rest) = ground (arith, split-length r rest)

-- For every test of qualities, as many pass it in all the batches together as in the list that was
-- given, whatever the parallel count.
pub group_qualities_by_resolution-count :
    (p : Quality → Bool) (n : ℕ) (qs : List Quality)
    → count_all p (group_qualities_by_resolution qs n) ≡ count p qs
unfolding group_qualities_by_resolution
group_qualities_by_resolution-count p n qs =
    let high = keep_if is_high qs in
    let low = keep_if (λ q. not (is_high q)) qs in
    ground (
      arith,
      singletons-count p qs,
      batch_loop-count p (length qs) n high low,
      split-count p is_high qs,
      split-length is_high qs,
    )

-- No batch is empty or longer than the parallel count (than one, for a count of 0).
pub group_qualities_by_resolution-All :
    (n : ℕ) (qs : List Quality) → All (IsBatch n) (group_qualities_by_resolution qs n)
unfolding group_qualities_by_resolution
group_qualities_by_resolution-All n qs =
    let high = keep_if is_high qs in
    let low = keep_if (λ q. not (is_high q)) qs in
    either-All n (leb n 1) (singletons qs) (batch_loop (length qs) n high low) (singletons-All n qs)
      (batch_loop-All (length qs) n high low)
