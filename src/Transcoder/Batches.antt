-- ===== src/Transcoder/Batches.antt =====
-- worker/transcoder.py: `group_qualities_by_resolution`. The two indices of the source are the lists of
-- what is left of the two groups.
use vlog.Prelude.{
  ℕ, zero, suc, String, Bool, List, [], ◌∷◌, ◌++◌, ◌%◌, ◌==◌, not, if◌then◌else◌, ltb, leb, length,
  keep_if,
}

pub record Quality : Type 0 where
  pub name : String
  pub height : ℕ

unfoldable pub is_high : Quality → Bool
is_high q = leb 1080 q.height

-- Which of two waiting qualities comes next in a batch of `k`, with what is left of the groups.
unfoldable pub choose :
    ℕ → Quality → List Quality → Quality → List Quality → Quality × List Quality × List Quality
choose k x high y low = if k % 2 == 0 then (x, high, y ∷ low) else (y, x ∷ high, low)

-- The inner loop: up to `n` more for a batch of `k`, with what is left of the groups.
unfoldable pub fill_batch :
    ℕ → ℕ → List Quality → List Quality → List Quality × List Quality × List Quality
unfolding choose
fill_batch zero k high low = ([], high, low)
fill_batch (suc n) k [] [] = ([], [], [])
fill_batch (suc n) k (x ∷ high) [] =
    let rest = fill_batch n (suc k) high [] in (x ∷ rest.0, rest.1, rest.2)
fill_batch (suc n) k [] (y ∷ low) =
    let rest = fill_batch n (suc k) [] low in (y ∷ rest.0, rest.1, rest.2)
fill_batch (suc n) k (x ∷ high) (y ∷ low) =
    let c = choose k x high y low in
    let rest = fill_batch n (suc k) c.1 c.2 in (c.0 ∷ rest.0, rest.1, rest.2)

unfoldable pub add_batch : List Quality → List (List Quality) → List (List Quality)
add_batch [] batches = batches
add_batch (x ∷ rest) batches = (x ∷ rest) ∷ batches

abbrev pub left_over : List Quality → List Quality → ℕ
left_over high low = length (high ++ low)

-- The outer loop, on fuel: each round takes at least one quality, so their number is enough.
unfoldable pub batch_loop : ℕ → ℕ → List Quality → List Quality → List (List Quality)
unfolding fill_batch add_batch
batch_loop zero n high low = []
batch_loop (suc fuel) n high low =
    let filled = fill_batch n 0 high low in
    let rest = batch_loop fuel n filled.1 filled.2 in
    if ltb 0 (left_over high low) then add_batch filled.0 rest else []

unfoldable pub singletons : List Quality → List (List Quality)
singletons [] = []
singletons (q ∷ rest) = (q ∷ []) ∷ singletons rest

unfoldable pub group_qualities_by_resolution : List Quality → ℕ → List (List Quality)
unfolding batch_loop singletons is_high
group_qualities_by_resolution qualities n =
    if leb n 1
    then singletons qualities
    else batch_loop (length qualities) n (keep_if is_high qualities)
        (keep_if (λ q. not (is_high q)) qualities)
