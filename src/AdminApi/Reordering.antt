-- ===== src/AdminApi/Reordering.antt =====
-- `UPDATE ... SET position = batch.new_position FROM (SELECT unnest(ids), generate_series(0, n - 1))
-- batch WHERE id = batch.id`, by which api/admin.py gives the rows of an owner a new order.
use native.Mathlib.Decide.{ℕ_discrete}
use vlog.Prelude.{
  ℕ, suc, ◌≡◌, ◌≢◌, ◌≤◌, ap, Bool, true, false, List, [], ◌∷◌, refl, ◌∙◌, arith, ◌&&◌, ◌==◌, ltb,
  Option, none, some, length, get_elem?, if◌then◌else◌, update_where,
}
use vlog.AdminApi.Positions.{placed, IsNumbered, count_where, count-update_where, placed_other}
use vlog.AdminApi.Ids.{
  mem, all_in, same_set, has_duplicates, Choice, new_position, mem-get, new_position_eq, get_unique,
  get-none, get-some, get-all_in,
}

-- Rows that are told apart, within their owner, by `ident`; `place` gives a row a new position.
module _ {ℓ} {A : Type ℓ} (owner position ident : A → ℕ) (place : ℕ → A → A) where
  abbrev move_to : Option ℕ → A → A
  move_to none x = x
  move_to (some i) x = place i x

  unfoldable pub move : Choice → List ℕ → A → A
  move c ids x = move_to (new_position c (ident x) ids) x

  unfoldable pub reorder_rows : Choice → ℕ → List ℕ → List A → List A
  reorder_rows c o ids xs = update_where (λ x. owner x == o) (move c ids) xs

  -- The ids of an owner's rows.
  unfoldable pub idents : ℕ → List A → List ℕ
  idents o [] = []
  idents o (x ∷ xs) = let rest = idents o xs in if owner x == o then ident x ∷ rest else rest

  -- An owner has at most one row for an id.
  abbrev pub HasOneEach : List A → Type 0
  HasOneEach xs = (o v : ℕ) → count_where (λ x. (owner x == o) && (ident x == v)) xs ≤ 1

  count_of_mem :
      (o v : ℕ) (xs : List A)
      → mem v (idents o xs) ≡ true
      → 1 ≤ count_where (λ x. (owner x == o) && (ident x == v)) xs
  unfolding mem idents count_where
  count_of_mem o v [] h = cc
  count_of_mem o v (x ∷ xs) h = ground (arith, count_of_mem o v xs)

  module _ (placed_at : (i : ℕ) (x : A) → position (place i x) ≡ i)
      (keeps : (i : ℕ) (x : A) → owner (place i x) ≡ owner x) where
    move_to_owner : (o : Option ℕ) (x : A) → owner (move_to o x) ≡ owner x
    move_to_owner none x = refl
    move_to_owner (some i) x = keeps i x

    move_owner : (c : Choice) (ids : List ℕ) (x : A) → owner (move c ids x) ≡ owner x
    unfolding move
    move_owner c ids x = move_to_owner (new_position c (ident x) ids) x

    -- A row whose id is at place `i` of the request moves to position `i`.
    move_position :
        (c : Choice) (ids : List ℕ) (x : A) (i : ℕ)
        → has_duplicates ids ≡ false
        → get_elem? ids i ≡ some (ident x)
        → position (move c ids x) ≡ i
    unfolding move
    move_position c ids x i u h = rw (new_position_eq c (ident x) ids i u h) (placed_at i x)

    -- The rows of an owner whose id is at a given place of the request.
    abbrev requested : ℕ → Option ℕ → List A → ℕ
    requested o none xs = 0
    requested o (some v) xs = count_where (λ x. (owner x == o) && (ident x == v)) xs

    requested_step :
        (o : ℕ) (ids : List ℕ) (i j : ℕ) (x : A) (xs : List A)
        → has_duplicates ids ≡ false
        → get_elem? ids j ≡ some (ident x)
        → owner x ≡ o
        → (r : Option ℕ) → get_elem? ids i ≡ r
        → requested o r (x ∷ xs) ≡ (if j == i then suc (requested o r xs) else requested o r xs)
    unfolding count_where
    requested_step o ids i j x xs u at_j own none e = elim (ℕ_discrete j i) [
      | yes p ↦ cc
      | no ne ↦ ground arith
    ]
    requested_step o ids i j x xs u at_j own (some v) e = elim (ℕ_discrete j i) [
      | yes p ↦ let same : ident x ≡ v = cc (p, e, at_j) in ground arith
      | no ne ↦ elim (ℕ_discrete (ident x) v) [
        | yes q ↦ let clash = get_unique ids v j i u (at_j ∙ ap some q) e in elim (ne clash) [ ]
        | no nq ↦ ground arith
      ]
    ]

    requested_other :
        (o : ℕ) (x : A) (xs : List A)
        → owner x ≢ o
        → (r : Option ℕ) → requested o r (x ∷ xs) ≡ requested o r xs
    unfolding count_where
    requested_other o x xs ne none = refl
    requested_other o x xs ne (some v) = ground arith

    -- After the statement a position holds the row that the request has there.
    pub placed-reorder_rows :
        (c : Choice) (o : ℕ) (ids : List ℕ) (i : ℕ)
        → has_duplicates ids ≡ false
        → (xs : List A) → all_in (idents o xs) ids ≡ true
        → placed owner position o i (reorder_rows c o ids xs) ≡ requested o (get_elem? ids i) xs
    unfolding placed reorder_rows idents all_in count_where
    placed-reorder_rows c o ids i u [] h = none_requested (get_elem? ids i)
      where
        none_requested : (r : Option ℕ) → 0 ≡ requested o r []
        none_requested none = refl
        none_requested (some v) = ground arith
    placed-reorder_rows c o ids i u (x ∷ xs) h = elim (ℕ_discrete (owner x) o) [
      | yes own ↦
          let inside : mem (ident x) ids ≡ true = ground (arith, own, h) in
          let rest : all_in (idents o xs) ids ≡ true = ground (arith, own, h) in
          let at_j = mem-get (ident x) ids inside in
          let moved = move_position c ids x at_j.0 u at_j.1 in
          let step = requested_step o ids i at_j.0 x xs u at_j.1 own (get_elem? ids i) refl in
          ground
            (arith, own, moved, move_owner c ids x, step, placed-reorder_rows c o ids i u xs rest)
      | no ne ↦
          let rest : all_in (idents o xs) ids ≡ true = ground (arith, ne, h) in
          ground (
            arith,
            ne,
            requested_other o x xs ne (get_elem? ids i),
            placed-reorder_rows c o ids i u xs rest,
          )
    ]

    -- A request that names every row of the owner once numbers the rows in its order.
    pub reorder_rows-IsNumbered :
        (c : Choice) (o : ℕ) (ids : List ℕ) (xs : List A)
        → has_duplicates ids ≡ false
        → same_set ids (idents o xs) ≡ true
        → HasOneEach xs
        → IsNumbered owner position o (length ids) (reorder_rows c o ids xs)
    unfolding same_set
    reorder_rows-IsNumbered c o ids xs u same one i =
        let there : all_in ids (idents o xs) ≡ true = ground (arith, same) in
        let back : all_in (idents o xs) ids ≡ true = ground (arith, same) in
        placed-reorder_rows c o ids i u xs back ∙ filled (get_elem? ids i) refl there
      where
        filled :
            (r : Option ℕ)
            → get_elem? ids i ≡ r
            → all_in ids (idents o xs) ≡ true
            → requested o r xs ≡ (if ltb i (length ids) then 1 else 0)
        filled none e there = ground (arith, get-none ids i e)
        filled (some v) e there = ground (
          arith,
          get-some ids i v e,
          one o v,
          count_of_mem o v xs (get-all_in ids (idents o xs) i v there e),
        )

    pub count-reorder_rows :
        (q : A → Bool)
        → ((i : ℕ) (x : A) → q (place i x) ≡ q x)
        → (c : Choice) (o : ℕ) (ids : List ℕ) (xs : List A)
        → count_where q (reorder_rows c o ids xs) ≡ count_where q xs
    unfolding reorder_rows move
    count-reorder_rows q same c o ids xs =
        count-update_where q (λ x. owner x == o) (move c ids)
          (λ x. moved (new_position c (ident x) ids) x) xs
      where
        moved : (r : Option ℕ) (x : A) → q (move_to r x) ≡ q x
        moved none x = refl
        moved (some i) x = same i x

    -- The rows of another owner keep their positions.
    pub placed-reorder_other :
        (c : Choice) (o other : ℕ) (ids : List ℕ)
        → other ≢ o
        → (i : ℕ) (xs : List A)
        → placed owner position other i (reorder_rows c o ids xs) ≡ placed owner position other i xs
    unfolding reorder_rows
    placed-reorder_other c o other ids ne i xs =
        placed_other owner position (move c ids) (move_owner c ids) (λ x. owner x == o) o other
          (λ x h. ground (arith, h)) ne i xs
