-- ===== src/SegmentWatcher/Names.antt =====
-- worker/segment_watcher.py: sets of file names and lists without repetition.
use text.Mathlib.Text.{◌==◌ as str_eq}
use text.Mathlib.TextEquality.{eq_iff}
use text.Mathlib.TextPositions.{eq_refl}
use vlog.Prelude.{
  String, true, false, List, [], ◌∷◌, ◌≡◌, ◌||◌, sym, ap, ◌∙◌, arith, All, Bool-cases, inl, inr,
}
use vlog.SegmentWatcher.Files.{has, discard}

abbrev pub Distinct : List String → Type 0
Distinct [] = Unit
Distinct (n ∷ rest) = (has n rest ≡ false) × Distinct rest

pub str_eq_sym : (a b : String) → str_eq a b ≡ false → str_eq b a ≡ false
str_eq_sym a b h = elim (Bool-cases (str_eq b a)) [
  | inl e ↦ let same : str_eq a b ≡ true = (eq_iff a b).1 (sym ((eq_iff b a).0 e)) in cc
  | inr e ↦ e
]

pub has_self : (n : String) (q : List String) → has n (n ∷ q) ≡ true
unfolding has
has_self n q = ap (λ b. b || has n q) (eq_refl n)

-- A name that is absent differs from each member.
pub differs :
    (n m : String) (q : List String) → has n q ≡ false → has m q ≡ true → str_eq n m ≡ false
unfolding has
differs n m [] h i = cc
differs n m (x ∷ rest) h i = elim (Bool-cases (str_eq n m)) [
  | inl e ↦ let same : n ≡ m = (eq_iff n m).0 e in cc
  | inr e ↦ e
]

pub has-discard :
    (n m : String) (q : List String)
    → str_eq n m ≡ false
    → has m q ≡ true
    → has m (discard n q) ≡ true
unfolding has discard
has-discard n m [] d h = cc
has-discard n m (x ∷ rest) d h = elim (Bool-cases (str_eq m x)) [
  | inl e ↦
      let other : str_eq n x ≡ false = sym (ap (str_eq n) ((eq_iff m x).0 e)) ∙ d in ground arith
  | inr e ↦ ground (arith, has-discard n m rest d)
]

pub All-differs :
    (n : String) (ns : List String) → has n ns ≡ false → All (λ m. str_eq m n ≡ false) ns
unfolding has
All-differs n [] h = tt
All-differs n (m ∷ rest) h = (str_eq_sym n m (ground arith), All-differs n rest (ground arith))
