-- ===== src/Prelude/Tables.antt =====
-- Tables as lists of rows with a numeric primary key: reading a row by its key, and what an update
-- leaves in it.
use mathlib.Core.Path.{subst}
use native.Mathlib.Decide.{ℕ_discrete}
use vlog.Prelude.{
  sym, ◌∙◌, All, All-map, keep_if, Bool-cases, inl, inr, true, false, ℕ, Bool, Option, none, some,
  List, [], ◌∷◌, ◌≡◌, ◌≢◌, refl, arith, ◌==◌, if◌then◌else◌, find_first, update_where,
}

module _ {ℓ} {A : Type ℓ} where
  -- What `UPDATE ... SET f WHERE p` makes of a row, and of a row that may be missing.
  abbrev pub set_if : (A → Bool) → (A → A) → Option A → Option A
  set_if p f none = none
  set_if p f (some x) = some (if p x then f x else x)

module _ {ℓ} {A : Type ℓ} (key : A → ℕ) where
  -- The row with a given key.
  abbrev pub fetch : ℕ → List A → Option A
  fetch k xs = find_first (λ x. key x == k) xs

  pub fetch-key : (k : ℕ) (xs : List A) (x : A) → fetch k xs ≡ some x → key x ≡ k
  fetch-key k [] x h = cc
  fetch-key k (y ∷ ys) x h = ground (arith, fetch-key k ys x)

  -- An update that keeps the keys acts on the row with a given key as on a single row.
  pub fetch-update_where :
      (p : A → Bool) (f : A → A)
      → ((x : A) → key (f x) ≡ key x)
      → (k : ℕ) (xs : List A) → fetch k (update_where p f xs) ≡ set_if p f (fetch k xs)
  fetch-update_where p f keeps k [] = refl
  fetch-update_where p f keeps k (x ∷ xs) =
      ground (arith, keeps x, fetch-update_where p f keeps k xs)

  -- No row of the table has the key.
  abbrev pub Absent : ℕ → List A → Type 0
  Absent k [] = Unit
  Absent k (x ∷ xs) = (key x ≢ k) × Absent k xs

  -- The primary key constraint.
  abbrev pub HasUniqueKeys : List A → Type 0
  HasUniqueKeys [] = Unit
  HasUniqueKeys (x ∷ xs) = Absent (key x) xs × HasUniqueKeys xs

  Absent-update_where :
      (p : A → Bool) (f : A → A)
      → ((x : A) → key (f x) ≡ key x)
      → (k : ℕ) (xs : List A) → Absent k xs
      → Absent k (update_where p f xs)
  Absent-update_where p f keeps k [] h = tt
  Absent-update_where p f keeps k (x ∷ xs) h =
      (ground (arith, keeps x, h.0), Absent-update_where p f keeps k xs h.1)

  key_of_if :
      (p : A → Bool) (f : A → A)
      → ((x : A) → key (f x) ≡ key x)
      → (x : A) → key (if p x then f x else x) ≡ key x
  key_of_if p f keeps x = ground (arith, keeps x)

  pub HasUniqueKeys-update_where :
      (p : A → Bool) (f : A → A)
      → ((x : A) → key (f x) ≡ key x)
      → (xs : List A) → HasUniqueKeys xs
      → HasUniqueKeys (update_where p f xs)
  HasUniqueKeys-update_where p f keeps [] h = tt
  HasUniqueKeys-update_where p f keeps (x ∷ xs) h = (
    rw (key_of_if p f keeps x) (Absent-update_where p f keeps (key x) xs h.0),
    HasUniqueKeys-update_where p f keeps xs h.1,
  )

  fetch-Absent : (k : ℕ) (xs : List A) → Absent k xs → fetch k xs ≡ none
  fetch-Absent k [] h = refl
  fetch-Absent k (x ∷ xs) h = ground (arith, h.0, fetch-Absent k xs h.1)

  pub fetch_here : (k : ℕ) (x : A) (xs : List A) → key x ≡ k → fetch k (x ∷ xs) ≡ some x
  fetch_here k x xs h = ground arith

  pub fetch_later :
      (k : ℕ) (x y : A) (xs : List A)
      → Absent (key x) xs
      → fetch k xs ≡ some y
      → fetch k (x ∷ xs) ≡ some y
  fetch_later k x y xs absent h = ground (arith, fetch-Absent (key x) xs absent)

  -- A row other than the first.
  pub fetch_ne : (k : ℕ) (x : A) (xs : List A) → key x ≢ k → fetch k (x ∷ xs) ≡ fetch k xs
  fetch_ne k x xs h = ground arith

  -- An update of the row with one key.
  abbrev pub update_key : ℕ → (A → A) → List A → List A
  update_key k f xs = update_where (λ x. key x == k) f xs

  pub fetch-update_key :
      (k : ℕ) (f : A → A) (xs : List A) (x : A)
      → ((x : A) → key (f x) ≡ key x)
      → fetch k xs ≡ some x
      → fetch k (update_key k f xs) ≡ some (f x)
  fetch-update_key k f xs x keeps h =
      fetch-update_where (λ x. key x == k) f keeps k xs ∙ rw h (ground (arith, fetch-key k xs x h))

  pub fetch-update_key_ne :
      (k k' : ℕ) (f : A → A) (xs : List A)
      → ((x : A) → key (f x) ≡ key x)
      → k ≢ k'
      → fetch k (update_key k' f xs) ≡ fetch k xs
  fetch-update_key_ne k k' f xs keeps ne =
      fetch-update_where (λ x. key x == k') f keeps k xs
      ∙ unchanged (fetch k xs) (λ x h. fetch-key k xs x h)
    where
      unchanged :
          (r : Option A) → ((x : A) → r ≡ some x → key x ≡ k) → set_if (λ x. key x == k') f r ≡ r
      unchanged none h = refl
      unchanged (some x) h = ground (arith, h x refl)

  -- A property of every row that can be read.
  abbrev pub EachRow {κ} : (A → Type κ) → List A → Type (ℓ ⊔ κ)
  EachRow P xs = (k : ℕ) (x : A) → fetch k xs ≡ some x → P x

  pub EachRow-of_All {κ} : (P : A → Type κ) (xs : List A) → All P xs → EachRow P xs
  EachRow-of_All P [] h k x e = cc
  EachRow-of_All P (y ∷ ys) h k x e = elim (ℕ_discrete (key y) k) [
    | yes p ↦ let same : y ≡ x = cc (fetch_here k y ys p, e) in subst P same h.0
    | no p ↦ EachRow-of_All P ys h.1 k x (sym (fetch_ne k y ys p) ∙ e)
  ]

  pub EachRow-update_where {κ} :
      (P : A → Type κ) (p : A → Bool) (f : A → A) (xs : List A)
      → ((x : A) → key (f x) ≡ key x)
      → ((x : A) → P x → p x ≡ true → P (f x))
      → EachRow P xs
      → EachRow P (update_where p f xs)
  EachRow-update_where P p f xs keeps step each k y h =
      go (fetch k xs) refl (sym (fetch-update_where p f keeps k xs) ∙ h)
    where
      branch : (x : A) (b : Bool) → p x ≡ b → P x → some (if b then f x else x) ≡ some y → P y
      branch x true e px q = let e' : f x ≡ y = cc q in subst P e' (step x px e)
      branch x false e px q = let e' : x ≡ y = cc q in subst P e' px

      go : (r : Option A) → fetch k xs ≡ r → set_if p f r ≡ some y → P y
      go none e q = cc
      go (some x) e q = branch x (p x) refl (each k x e) q

  pub EachRow-update_key {κ} :
      (P : A → Type κ) (k : ℕ) (f : A → A) (xs : List A) (x : A)
      → ((x : A) → key (f x) ≡ key x)
      → fetch k xs ≡ some x
      → P (f x)
      → EachRow P xs
      → EachRow P (update_key k f xs)
  EachRow-update_key P k f xs x keeps found new each i y h = elim (ℕ_discrete i k) [
    | yes e ↦ let q : f x ≡ y = cc (fetch-update_key k f xs x keeps found, e, h) in subst P q new
    | no ne ↦ each i y (sym (fetch-update_key_ne i k f xs keeps ne) ∙ h)
  ]

  -- The rows that a SELECT returns are those with their keys, and the condition holds of them.
  pub All-keep_if :
      (p : A → Bool) (xs : List A)
      → HasUniqueKeys xs
      → All (λ x. (fetch (key x) xs ≡ some x) × (p x ≡ true)) (keep_if p xs)
  All-keep_if p [] u = tt
  All-keep_if p (x ∷ xs) u =
      let rest : All (λ y. (fetch (key y) (x ∷ xs) ≡ some y) × (p y ≡ true)) (keep_if p xs) =
        All-map (λ y h. (fetch_later (key y) x y xs u.0 h.0, h.1)) (keep_if p xs)
          (All-keep_if p xs u.1) in
      elim (Bool-cases (p x)) [
        | inl e ↦ rw e ((fetch_here (key x) x xs refl, e), rest)
        | inr e ↦ rw e rest
      ]
