-- ===== src/AdminApi/Ids.antt =====
-- -- The ids of a reorder request of api/admin.py, and the place that the database gives each.
use native.Mathlib.Decide.{ℕ_discrete}
use vlog.Prelude.{
  ℕ, zero, suc, ◌+◌, ◌<◌, ◌≡◌, ◌≤◌, ap, Bool, true, false, List, [], ◌∷◌, refl, sym, ◌∙◌, arith,
  ◌&&◌, ◌||◌, ◌==◌, Option, none, some, length, get_elem?, if◌then◌else◌,
}

-- `n in ids`.
unfoldable pub mem : ℕ → List ℕ → Bool
mem n [] = false
mem n (m ∷ ms) = (m == n) || mem n ms

unfoldable pub all_in : List ℕ → List ℕ → Bool
all_in [] ms = true
all_in (n ∷ ns) ms = mem n ms && all_in ns ms

-- `set(a) == set(b)`.
unfoldable pub same_set : List ℕ → List ℕ → Bool
same_set ns ms = all_in ns ms && all_in ms ns

-- `len(ids) != len(set(ids))`.
unfoldable pub has_duplicates : List ℕ → Bool
has_duplicates [] = false
has_duplicates (n ∷ ns) = mem n ns || has_duplicates ns

-- The batch rows of an id: its places in the request, counted from `k`.
unfoldable pub places : ℕ → List ℕ → ℕ → List ℕ
places v [] k = []
places v (n ∷ ns) k = let rest = places v ns (suc k) in if n == v then k ∷ rest else rest

-- Which of several batch rows that match one row `UPDATE ... FROM` takes is up to the database; it
-- takes one if there is one.
pub record Choice : Type 0 where
  pub pick : ℕ → List ℕ → ℕ
  pub only : (i : ℕ) → pick i [] ≡ i

-- The new position of the row with an id, or none if no batch row matches.
unfoldable pub new_position : Choice → ℕ → List ℕ → Option ℕ
new_position c v ids = elim (places v ids 0) [ [] ↦ none | i ∷ more ↦ some (c.pick i more) ]

pub mem-get : (v : ℕ) (ids : List ℕ) → mem v ids ≡ true → (i : ℕ) × (get_elem? ids i ≡ some v)
unfolding mem
mem-get v [] h = cc
mem-get v (n ∷ ns) h = elim (ℕ_discrete n v) [
  | yes e ↦ (0, rw e refl)
  | no ne ↦
      let later : mem v ns ≡ true = ground (arith, h, ne) in
      let found = mem-get v ns later in (suc found.0, found.1)
]

get-mem : (v : ℕ) (ids : List ℕ) (i : ℕ) → get_elem? ids i ≡ some v → mem v ids ≡ true
unfolding mem
get-mem v [] i h = cc
get-mem v (n ∷ ns) zero h = let e : n ≡ v = cc h in rw e (ground arith)
get-mem v (n ∷ ns) (suc i) h = ground (arith, get-mem v ns i h)

places_none : (v : ℕ) (ids : List ℕ) (k : ℕ) → mem v ids ≡ false → places v ids k ≡ []
unfolding mem places
places_none v [] k h = refl
places_none v (n ∷ ns) k h = ground (arith, places_none v ns (suc k))

-- Without duplicates an id has one batch row, at its place in the request.
places_one :
    (v : ℕ) (ids : List ℕ) (k i : ℕ)
    → has_duplicates ids ≡ false
    → get_elem? ids i ≡ some v
    → places v ids k ≡ (k + i) ∷ []
unfolding mem places has_duplicates
places_one v [] k i u h = cc
places_one v (n ∷ ns) k zero u h =
    let e : n ≡ v = cc h in
    let once : mem v ns ≡ false = rw (sym e) (ground (arith, u)) in
    rw (e, places_none v ns (suc k) once) (ground arith)
places_one v (n ∷ ns) k (suc i) u h =
    let tail : has_duplicates ns ≡ false = ground (arith, u) in
    let once : mem n ns ≡ false = ground (arith, u) in
    let rest = places_one v ns (suc k) i tail h in
    elim (ℕ_discrete n v) [
      | yes e ↦ let twice : mem n ns ≡ true = rw e (get-mem v ns i h) in cc
      | no ne ↦ rw rest (ground arith)
    ]

pub new_position_eq :
    (c : Choice) (v : ℕ) (ids : List ℕ) (i : ℕ)
    → has_duplicates ids ≡ false
    → get_elem? ids i ≡ some v
    → new_position c v ids ≡ some i
unfolding new_position
new_position_eq c v ids i u h =
    rw (places_one v ids 0 i u h, new_position) (ap some (c.only (0 + i)) ∙ ground arith)

pub get_unique :
    (ids : List ℕ) (v i j : ℕ)
    → has_duplicates ids ≡ false
    → get_elem? ids i ≡ some v
    → get_elem? ids j ≡ some v
    → i ≡ j
get_unique ids v i j u hi hj =
    let p = places_one v ids 0 i u hi in
    let q = places_one v ids 0 j u hj in
    let same : (0 + i) ∷ [] ≡ (0 + j) ∷ [] = sym p ∙ q in
    let e : 0 + i ≡ 0 + j = cc same in omega (arith, e)

pub get-none : (ids : List ℕ) (i : ℕ) → get_elem? ids i ≡ none → length ids ≤ i
get-none [] i h = omega arith
get-none (n ∷ ns) zero h = cc
get-none (n ∷ ns) (suc i) h = omega (arith, get-none ns i h)

pub get-some : (ids : List ℕ) (i v : ℕ) → get_elem? ids i ≡ some v → i < length ids
get-some [] i v h = cc
get-some (n ∷ ns) zero v h = omega arith
get-some (n ∷ ns) (suc i) v h = omega (arith, get-some ns i v h)

pub get-all_in :
    (ids ms : List ℕ) (i v : ℕ) → all_in ids ms ≡ true → get_elem? ids i ≡ some v → mem v ms ≡ true
unfolding all_in
get-all_in [] ms i v h e = cc
get-all_in (n ∷ ns) ms zero v h e = let same : n ≡ v = cc e in rw (sym same) (ground (arith, h))
get-all_in (n ∷ ns) ms (suc i) v h e =
    let rest : all_in ns ms ≡ true = ground (arith, h) in get-all_in ns ms i v rest e
