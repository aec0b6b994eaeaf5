-- ===== src/Transcoder/Resuming.antt =====
-- worker/transcoder.py: the quality records when a job starts again.
use mathlib.Core.Path.{subst}
use text.Mathlib.Text.{◌==◌ as str_eq}
use text.Mathlib.TextEquality.{eq_iff}
use vlog.Prelude.{
  ℕ, String, Bool, true, false, Option, none, some, List, [], ◌∷◌, ◌≡◌, ◌==◌, ◌&&◌, ◌||◌, refl, sym,
  ap, ◌∙◌, arith, if◌then◌else◌, find_first, is_some,
}
use vlog.WorkerApi.Schema.{QualityProgress}
use vlog.Transcoder.Batches.{Quality}
use vlog.Transcoder.Qualities.{
  is_of, get_quality_status, new_quality, init_quality_progress, get_completed_qualities, listed,
  or_new,
}

or_new_again :
    (o : Option QualityProgress) (a b : Bool) (k : ℕ) (n : String)
    → or_new (or_new o a k n) b k n ≡ or_new o (a || b) k n
or_new_again none true b k n = refl
or_new_again none false b k n = refl
or_new_again (some q) a b k n = refl

or_new-false : (o : Option QualityProgress) (k : ℕ) (n : String) → or_new o false k n ≡ o
or_new-false none k n = refl
or_new-false (some q) k n = refl

and_false : (b : Bool) → b && false ≡ false
and_false true = refl
and_false false = refl

or_new_if :
    (x c d : Bool) (o : Option QualityProgress) (k : ℕ) (n : String)
    → or_new o ((x && c) || (x && d)) k n ≡ or_new o (x && (if c then true else d)) k n
or_new_if true true d o k n = refl
or_new_if true false d o k n = refl
or_new_if false c d o k n = refl

-- The record of one quality, if there is none.
add_one : ℕ → String → List QualityProgress → List QualityProgress
unfolding get_quality_status
add_one k m rows = if is_some (get_quality_status k m rows) then rows else new_quality k m ∷ rows

same_quality :
    (k i : ℕ) (m n : String) (rows : List QualityProgress)
    → (k == i) && str_eq m n ≡ true
    → (k ≡ i) × (m ≡ n)
same_quality k i m n rows h =
    let e : str_eq m n ≡ true = ground (arith, h) in (ground (arith, h), (eq_iff m n).0 e)

module _ (k : ℕ) (i : ℕ) (n : String) where
  add-find :
      (m : String) (rows : List QualityProgress)
      → get_quality_status i n (add_one k m rows)
        ≡ or_new (get_quality_status i n rows) ((k == i) && str_eq m n) i n
  unfolding add_one get_quality_status
  add-find m rows = go ((k == i) && str_eq m n) refl (find_first (is_of k m) rows) refl
    where
      moved :
          (k ≡ i) × (m ≡ n)
          → (o : Option QualityProgress) → find_first (is_of k m) rows ≡ o
          → find_first (is_of i n) rows ≡ o
      moved same o f =
          subst (λ x. find_first (is_of x n) rows ≡ o) same.0
            (subst (λ x. find_first (is_of k x) rows ≡ o) same.1 f)

      go :
          (b : Bool)
          → (k == i) && str_eq m n ≡ b
          → (o : Option QualityProgress) → find_first (is_of k m) rows ≡ o
          → find_first
              (is_of i n)
              (if is_some (find_first (is_of k m) rows) then rows else new_quality k m ∷ rows)
            ≡ or_new (find_first (is_of i n) rows) ((k == i) && str_eq m n) i n
      go true e none f =
          let same = same_quality k i m n rows e in
          let f' : find_first (is_of i n) rows ≡ none = moved same none f in
          rw (f, f', e) (λ t. some (new_quality (same.0 t) (same.1 t)))
      go true e (some x) f =
          let same = same_quality k i m n rows e in
          let f' : find_first (is_of i n) rows ≡ some x = moved same (some x) f in rw (f, f') refl
      go false e none f = rw (f, e) (sym (or_new-false (find_first (is_of i n) rows) i n))
      go false e (some x) f = rw (f, e) (sym (or_new-false (find_first (is_of i n) rows) i n))

  init-find :
      (qs : List Quality) (rows : List QualityProgress)
      → get_quality_status i n (init_quality_progress k qs rows)
        ≡ or_new (get_quality_status i n rows) ((k == i) && listed n qs) i n
  unfolding init_quality_progress add_one
  init-find [] rows = sym (
      ap (λ b. or_new (get_quality_status i n rows) b i n) (and_false (k == i))
      ∙ or_new-false (get_quality_status i n rows) i n)
  init-find (q ∷ rest) rows =
      init-find rest (add_one k q.name rows)
      ∙ ap (λ o. or_new o ((k == i) && listed n rest) i n) (add-find q.name rows)
      ∙ or_new_again (get_quality_status i n rows) ((k == i) && str_eq q.name n)
          ((k == i) && listed n rest) i n
      ∙ or_new_if (k == i) (str_eq q.name n) (listed n rest) (get_quality_status i n rows) i n

  add-completed :
      (m : String) (b : Bool) (rows : List QualityProgress)
      → get_completed_qualities i (if b then rows else new_quality k m ∷ rows)
        ≡ get_completed_qualities i rows
  unfolding get_completed_qualities
  add-completed m true rows = refl
  add-completed m false rows = rw (and_false (k == i)) refl

  init-completed :
      (qs : List Quality) (rows : List QualityProgress)
      → get_completed_qualities i (init_quality_progress k qs rows) ≡ get_completed_qualities i rows
  unfolding init_quality_progress add_one
  init-completed [] rows = refl
  init-completed (q ∷ rest) rows =
      init-completed rest (add_one k q.name rows)
      ∙ add-completed q.name (is_some (get_quality_status k q.name rows)) rows

-- `init_quality_progress`, for any records that there are: a record that exists stays the one that is found; a
-- listed quality of the job that has none gets a new one, pending at 0 percent; no other record
-- appears; and the completed qualities of every job are the same list as before.
pub init_quality_progress-resumes :
    (k i : ℕ) (n : String) (qs : List Quality) (rows : List QualityProgress)
    → (get_quality_status i n (init_quality_progress k qs rows)
        ≡ or_new (get_quality_status i n rows) ((k == i) && listed n qs) i n)
      × (get_completed_qualities i (init_quality_progress k qs rows)
          ≡ get_completed_qualities i rows)
init_quality_progress-resumes k i n qs rows =
    (init-find k i n qs rows, init-completed k i n qs rows)
