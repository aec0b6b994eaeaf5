-- ===== src/AdminApi/Positions.antt =====
-- Rows with a `position` in the list of their owner: how many rows stand at a position, and what
-- the statements of api/admin.py that renumber them do to it.
use vlog.Prelude.{
  ℕ, suc, ◌+◌, ◌-◌, ◌≤◌, ◌≡◌, ◌≢◌, Bool, true, List, [], ◌∷◌, refl, arith, ◌&&◌, ◌==◌, ltb, leb,
  max, not, if◌then◌else◌, update_where, keep_if, find_first, Bool-cases, inl, inr, sym, ◌∙◌, some,
  none,
}

module _ {ℓ} {A : Type ℓ} where
  -- How many rows a condition selects.
  unfoldable pub count_where : (A → Bool) → List A → ℕ
  count_where q [] = 0
  count_where q (x ∷ xs) = let rest = count_where q xs in if q x then suc rest else rest

  pub count_none :
      (q : A → Bool) (xs : List A) → count_where q xs ≡ 0 → keep_if (λ x. not (q x)) xs ≡ xs
  unfolding count_where
  count_none q [] h = refl
  count_none q (x ∷ xs) h = ground (arith, count_none q xs)

  pub count-update_where :
      (q p : A → Bool) (f : A → A)
      → ((x : A) → q (f x) ≡ q x)
      → (xs : List A) → count_where q (update_where p f xs) ≡ count_where q xs
  unfolding count_where
  count-update_where q p f same [] = refl
  count-update_where q p f same (x ∷ xs) = ground (arith, same x, count-update_where q p f same xs)

  pub count-keep_if-le :
      (q p : A → Bool) (xs : List A) → count_where q (keep_if p xs) ≤ count_where q xs
  unfolding count_where
  count-keep_if-le q p [] = omega arith
  count-keep_if-le q p (x ∷ xs) = ground (arith, count-keep_if-le q p xs)

  pub count_and-le :
      (r q : A → Bool) (xs : List A) → count_where (λ x. r x && q x) xs ≤ count_where q xs
  unfolding count_where
  count_and-le r q [] = omega arith
  count_and-le r q (x ∷ xs) = ground (arith, count_and-le r q xs)

  pub count_not_found : (q : A → Bool) (xs : List A) → find_first q xs ≡ none → count_where q xs ≡ 0
  unfolding count_where
  count_not_found q [] h = refl
  count_not_found q (x ∷ xs) h = ground (arith, count_not_found q xs)

module _ {ℓ} {A : Type ℓ} (owner position : A → ℕ) where
  -- The rows of an owner at a position.
  unfoldable pub placed : ℕ → ℕ → List A → ℕ
  placed o i [] = 0
  placed o i (x ∷ xs) =
      let rest = placed o i xs in if (owner x == o) && (position x == i) then suc rest else rest

  -- `COALESCE(MAX(position), -1) + 1`.
  unfoldable pub next_position : ℕ → List A → ℕ
  next_position o [] = 0
  next_position o (x ∷ xs) =
      let rest = next_position o xs in if owner x == o then max (suc (position x)) rest else rest

  -- The rows of an owner stand at 0, 1, ..., n - 1, one at each position.
  abbrev pub IsNumbered : ℕ → ℕ → List A → Type 0
  IsNumbered o n xs = (i : ℕ) → placed o i xs ≡ (if ltb i n then 1 else 0)

  -- No two rows of an owner share a position.
  abbrev pub HasDistinctPlaces : ℕ → List A → Type 0
  HasDistinctPlaces o xs = (i : ℕ) → placed o i xs ≤ 1

  pub IsNumbered-HasDistinctPlaces :
      (o n : ℕ) (xs : List A) → IsNumbered o n xs → HasDistinctPlaces o xs
  IsNumbered-HasDistinctPlaces o n xs h i = ground (arith, h i)

  pub placed_at_end : (o : ℕ) (xs : List A) (i : ℕ) → next_position o xs ≤ i → placed o i xs ≡ 0
  unfolding placed next_position
  placed_at_end o [] i h = refl
  placed_at_end o (x ∷ xs) i h = ground (arith, placed_at_end o xs i)

  placed_last : (o : ℕ) (xs : List A) (i : ℕ) → suc i ≡ next_position o xs → 1 ≤ placed o i xs
  unfolding placed next_position
  placed_last o [] i h = omega (arith, h)
  placed_last o (x ∷ xs) i h = ground (arith, placed_last o xs i)

  -- The next position of a numbered list is its length.
  pub next_position_eq : (o n : ℕ) (xs : List A) → IsNumbered o n xs → next_position o xs ≡ n
  next_position_eq o n xs h =
      let next = next_position o xs in
      ground (
        arith,
        placed_at_end o xs n,
        h n,
        placed_last o xs (next - 1),
        h (next - 1),
        placed_at_end o xs next,
        h next,
      )

  -- What a statement makes of the rows: `f` on those that `p` selects, which stay with their owner.
  module _ (f : A → A) (keeps : (x : A) → owner (f x) ≡ owner x) where
    -- `SET position = position + 1 WHERE owner = o AND position >= k`.
    pub placed_shifted :
        ((x : A) → position (f x) ≡ position x + 1)
        → (o k i : ℕ) (xs : List A)
        → placed o i (update_where (λ x. (owner x == o) && leb k (position x)) f xs)
          ≡ (if ltb i k then placed o i xs else if i == k then 0 else placed o (i - 1) xs)
    unfolding placed
    placed_shifted up o k i [] = ground arith
    placed_shifted up o k i (x ∷ xs) = ground (arith, keeps x, up x, placed_shifted up o k i xs)

    -- `SET position = position - 1 WHERE owner = o AND position > k`.
    pub placed_closed :
        ((x : A) → position (f x) ≡ position x - 1)
        → (o k i : ℕ) (xs : List A)
        → placed o i (update_where (λ x. (owner x == o) && ltb k (position x)) f xs) ≡ (
            if ltb i k
            then placed o i xs
            else if i == k
            then placed o i xs + placed o (i + 1) xs
            else placed o (i + 1) xs)
    unfolding placed
    placed_closed down o k i [] = ground arith
    placed_closed down o k i (x ∷ xs) = ground (arith, keeps x, down x, placed_closed down o k i xs)

    -- A statement on the rows of one owner leaves those of another.
    pub placed_other :
        (p : A → Bool) (o other : ℕ)
        → ((x : A) → p x ≡ true → owner x ≡ o)
        → other ≢ o
        → (i : ℕ) (xs : List A) → placed other i (update_where p f xs) ≡ placed other i xs
    unfolding placed
    placed_other p o other own ne i [] = refl
    placed_other p o other own ne i (x ∷ xs) =
        ground (arith, keeps x, own x, placed_other p o other own ne i xs)

  -- Deleting the only row that a condition selects frees its position.
  pub placed_deleted :
      (q : A → Bool) (xs : List A) (y : A)
      → count_where q xs ≤ 1
      → find_first q xs ≡ some y
      → (o i : ℕ)
      → placed o i xs
        ≡ placed o i (keep_if (λ x. not (q x)) xs)
          + (if (owner y == o) && (position y == i) then 1 else 0)
  unfolding placed count_where
  placed_deleted q [] y one h o i = cc
  placed_deleted q (x ∷ xs) y one h o i = elim (Bool-cases (q x)) [
    | inl e ↦
        let none_left : count_where q xs ≡ 0 = ground (arith, e, one) in
        let same : some x ≡ some y = sym (rw e refl) ∙ h in
        let is_y : x ≡ y = cc same in rw (e, count_none q xs none_left, sym is_y) (ground arith)
    | inr e ↦
        let few : count_where q xs ≤ 1 = ground (arith, e, one) in
        let later : find_first q xs ≡ some y = sym (rw e refl) ∙ h in
        let rest = placed_deleted q xs y few later o i in rw e (ground (arith, rest))
  ]

  -- Rows that keep their owner and their position.
  pub placed_kept :
      (p : A → Bool) (f : A → A)
      → ((x : A) → owner (f x) ≡ owner x)
      → ((x : A) → position (f x) ≡ position x)
      → (o i : ℕ) (xs : List A) → placed o i (update_where p f xs) ≡ placed o i xs
  unfolding placed
  placed_kept p f own same o i [] = refl
  placed_kept p f own same o i (x ∷ xs) =
      ground (arith, own x, same x, placed_kept p f own same o i xs)
