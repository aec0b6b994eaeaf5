-- ===== src/Prelude/Dicts.antt =====
-- Dictionaries with text keys, in the order of insertion, as Python keeps them.
use text.Mathlib.Text.{◌==◌ as str_eq}
use text.Mathlib.TextEquality.{eq_iff}
use text.Mathlib.TextPositions.{eq_refl}
use vlog.Prelude.{
  String, true, false, suc, Option, none, some, List, [], ◌∷◌, ◌≡◌, ◌≤◌, ◌<◌, refl, sym, ap, ◌∙◌,
  arith, if◌then◌else◌, length, is_some, Bool-cases, inl, inr,
}

abbrev pub Dict {ℓ} : Type ℓ → Type ℓ
Dict A = List (String × A)

module _ {ℓ} {A : Type ℓ} where
  unfoldable pub get : String → Dict A → Option A
  get n [] = none
  get n ((m, s) ∷ rest) = let found = get n rest in if str_eq n m then some s else found

  unfoldable pub put : String → A → Dict A → Dict A
  put n s [] = (n, s) ∷ []
  put n s ((m, t) ∷ rest) =
      let tail = put n s rest in if str_eq n m then (m, s) ∷ rest else (m, t) ∷ tail

  -- `del d[n]`, where `n` is a key.
  unfoldable pub delete : String → Dict A → Dict A
  delete n [] = []
  delete n ((m, t) ∷ rest) = let left = delete n rest in if str_eq n m then left else (m, t) ∷ left

  pub get-put : (n : String) (s : A) (d : Dict A) → get n (put n s d) ≡ some s
  unfolding get put
  get-put n s [] = ground (arith, eq_refl n)
  get-put n s ((m, t) ∷ rest) = ground (arith, get-put n s rest)

  pub get-put_ne :
      (n m : String) (s : A) (d : Dict A) → str_eq m n ≡ false → get m (put n s d) ≡ get m d
  unfolding get put
  get-put_ne n m s [] h = ground arith
  get-put_ne n m s ((k, t) ∷ rest) h = elim (Bool-cases (str_eq n k)) [
    | inl e ↦
        let other : str_eq m k ≡ false = sym (ap (str_eq m) ((eq_iff n k).0 e)) ∙ h in ground arith
    | inr e ↦ ground (arith, get-put_ne n m s rest h)
  ]

  pub get-delete : (n : String) (d : Dict A) → get n (delete n d) ≡ none
  unfolding get delete
  get-delete n [] = refl
  get-delete n ((m, t) ∷ rest) = ground (arith, get-delete n rest)

  pub get-delete_ne :
      (n m : String) (d : Dict A) → str_eq m n ≡ false → get m (delete n d) ≡ get m d
  unfolding get delete
  get-delete_ne n m [] h = refl
  get-delete_ne n m ((k, t) ∷ rest) h = elim (Bool-cases (str_eq n k)) [
    | inl e ↦
        let other : str_eq m k ≡ false = sym (ap (str_eq m) ((eq_iff n k).0 e)) ∙ h in
        ground (arith, get-delete_ne n m rest h)
    | inr e ↦ ground (arith, get-delete_ne n m rest h)
  ]

  pub length-delete-le : (n : String) (d : Dict A) → length (delete n d) ≤ length d
  unfolding delete
  length-delete-le n [] = omega arith
  length-delete-le n ((m, t) ∷ rest) = ground (arith, length-delete-le n rest)

  pub length-delete-lt :
      (n : String) (d : Dict A) → is_some (get n d) ≡ true → length (delete n d) < length d
  unfolding get delete
  length-delete-lt n [] h = cc
  length-delete-lt n ((m, t) ∷ rest) h =
      ground (arith, length-delete-le n rest, length-delete-lt n rest)

  pub length-put-here :
      (n : String) (s : A) (d : Dict A) → is_some (get n d) ≡ true → length (put n s d) ≡ length d
  unfolding get put
  length-put-here n s [] h = cc
  length-put-here n s ((m, t) ∷ rest) h = ground (arith, length-put-here n s rest)

  pub length-put-le : (n : String) (s : A) (d : Dict A) → length (put n s d) ≤ suc (length d)
  unfolding put
  length-put-le n s [] = omega arith
  length-put-le n s ((m, t) ∷ rest) = ground (arith, length-put-le n s rest)
