-- ===== src/Prelude/Deletes.antt =====
-- Tables after `DELETE ... WHERE not p`.
use mathlib.Core.Path.{subst}
use native.Mathlib.Decide.{ℕ_discrete}
use vlog.Prelude.{
  ℕ, Bool, true, false, none, some, List, [], ◌∷◌, ◌≡◌, ◌≢◌, refl, sym, ◌∙◌, arith, if◌then◌else◌,
  keep_if,
}
use vlog.Prelude.Tables.{fetch, HasUniqueKeys, Absent, fetch_here, fetch_ne}

module _ {ℓ} {A : Type ℓ} (key : A → ℕ) where
  pub fetch_of_Absent : (k : ℕ) (xs : List A) → Absent key k xs → fetch key k xs ≡ none
  fetch_of_Absent k [] h = refl
  fetch_of_Absent k (x ∷ rest) h = ground (arith, h.0, fetch_of_Absent k rest h.1)

  pub Absent-fetch : (k : ℕ) (xs : List A) → fetch key k xs ≡ none → Absent key k xs
  Absent-fetch k [] h = tt
  Absent-fetch k (x ∷ rest) h = (ground (arith, h), Absent-fetch k rest (ground (arith, h)))

module _ {ℓ} {A : Type ℓ} (key : A → ℕ) (q : A → Bool) where
  pub fetch_missing :
      (k : ℕ) (xs : List A) → fetch key k xs ≡ none → fetch key k (keep_if q xs) ≡ none
  fetch_missing k [] h = refl
  fetch_missing k (x ∷ rest) h = ground (arith, fetch_missing k rest)

  fetch_first :
      (k : ℕ) (x : A) (b : Bool) (xs : List A)
      → key x ≡ k
      → fetch key k xs ≡ none
      → fetch key k (if b then x ∷ xs else xs) ≡ (if b then some x else none)
  fetch_first k x true xs e h = fetch_here key k x xs e
  fetch_first k x false xs e h = h

  fetch_rest :
      (k : ℕ) (x : A) (b : Bool) (xs : List A)
      → key x ≢ k
      → fetch key k (if b then x ∷ xs else xs) ≡ fetch key k xs
  fetch_rest k x true xs ne = fetch_ne key k x xs ne
  fetch_rest k x false xs ne = refl

  -- The row with a key stays if it passes the test, and is gone otherwise.
  pub fetch-keep_if :
      (k : ℕ) (xs : List A) (y : A)
      → HasUniqueKeys key xs
      → fetch key k xs ≡ some y
      → fetch key k (keep_if q xs) ≡ (if q y then some y else none)
  fetch-keep_if k [] y u h = cc
  fetch-keep_if k (x ∷ rest) y u h = elim (ℕ_discrete (key x) k) [
    | yes e ↦
        let same : x ≡ y = cc (fetch_here key k x rest e, h) in
        let gone =
          fetch_missing k rest
            (fetch_of_Absent key k rest (subst (λ i. Absent key i rest) e u.0)) in
        fetch_first k x (q x) (keep_if q rest) e gone ∙ rw same refl
    | no ne ↦
        fetch_rest k x (q x) (keep_if q rest) ne
        ∙ fetch-keep_if k rest y u.1 (sym (fetch_ne key k x rest ne) ∙ h)
  ]

  Absent-if :
      (k : ℕ) (b : Bool) (x : A) (xs : List A)
      → key x ≢ k
      → Absent key k xs
      → Absent key k (if b then x ∷ xs else xs)
  Absent-if k true x xs ne h = (ne, h)
  Absent-if k false x xs ne h = h

  pub Absent-keep_if : (k : ℕ) (xs : List A) → Absent key k xs → Absent key k (keep_if q xs)
  Absent-keep_if k [] h = tt
  Absent-keep_if k (x ∷ rest) h =
      Absent-if k (q x) x (keep_if q rest) h.0 (Absent-keep_if k rest h.1)

  HasUniqueKeys-if :
      (b : Bool) (x : A) (xs : List A)
      → Absent key (key x) xs
      → HasUniqueKeys key xs
      → HasUniqueKeys key (if b then x ∷ xs else xs)
  HasUniqueKeys-if true x xs h i = (h, i)
  HasUniqueKeys-if false x xs h i = i

  pub HasUniqueKeys-keep_if :
      (xs : List A) → HasUniqueKeys key xs → HasUniqueKeys key (keep_if q xs)
  HasUniqueKeys-keep_if [] u = tt
  HasUniqueKeys-keep_if (x ∷ rest) u =
      HasUniqueKeys-if (q x) x (keep_if q rest) (Absent-keep_if (key x) rest u.0)
        (HasUniqueKeys-keep_if rest u.1)
