-- ===== src/Transcoder/Verification.antt =====
-- worker/transcoder.py: step 3c of `process_video_resumable`, the re-verification of the qualities.
use text.Mathlib.Text.{◌==◌ as str_eq}
use text.Mathlib.TextEquality.{eq_iff}
use text.Mathlib.TextPositions.{eq_refl}
use mathlib.Core.Path.{subst}
use vlog.Prelude.{
  ℕ, zero, suc, String, Bool, true, false, Option, none, List, [], ◌∷◌, ◌++◌, ◌+◌, ◌≤◌, ◌≡◌, ◌⊎◌,
  inl, inr, refl, sym, ◌∙◌, arith, Bool-cases, ◌||◌, keep_if, All,
}
use vlog.WorkerApi.Schema.{Config}
use vlog.Transcoder.Batches.{Quality, group_qualities_by_resolution}
use vlog.Transcoder.Grouping.{count, count_all, group_qualities_by_resolution-count}
use vlog.Transcoder.Qualities.{get_quality_status}
use vlog.Transcoder.Encodes.{
  Info, Encode, encoded, not_encoded, raised, Outside, Success, Tally, succeed, fail, mark,
  conclude, original_step, original_of, success_of, transcode_single_quality, run_batch,
  run_batches, in_successful, in_failed, is_incomplete, is_done, verify, before_quality,
  before_batch,
}
use vlog.Transcoder.Process.{World, planned, tracked, encode_all, encode_and_verify}

-- The quality is among the successful or the failed ones.
abbrev pub Covered : String → Tally → Type 0
Covered n t = (in_successful n t.successful || in_failed n t.failed) ≡ true

in_successful-append :
    (n : String) (xs ys : List Success)
    → in_successful n (xs ++ ys) ≡ (in_successful n xs || in_successful n ys)
unfolding in_successful
in_successful-append n [] ys = refl
in_successful-append n (x ∷ xs) ys = ground (arith, in_successful-append n xs ys)

in_failed-append :
    (n : String) (xs ys : List String) → in_failed n (xs ++ ys) ≡ (in_failed n xs || in_failed n ys)
unfolding in_failed
in_failed-append n [] ys = refl
in_failed-append n (x ∷ xs) ys = ground (arith, in_failed-append n xs ys)

succeed-Covered : (n : String) (s : Success) (t : Tally) → Covered n t → Covered n (succeed s t)
unfolding succeed
succeed-Covered n s t h = ground (arith, in_successful-append n t.successful (s ∷ []), h)

fail-Covered : (n m : String) (t : Tally) → Covered n t → Covered n (fail m t)
unfolding fail
fail-Covered n m t h = ground (arith, in_failed-append n t.failed (m ∷ []), h)

succeed-here : (s : Success) (t : Tally) → Covered s.name (succeed s t)
unfolding succeed in_successful
succeed-here s t = ground (arith, in_successful-append s.name t.successful (s ∷ []), eq_refl s.name)

fail-here : (n : String) (t : Tally) → Covered n (fail n t)
unfolding fail in_failed
fail-here n t = ground (arith, in_failed-append n t.failed (n ∷ []), eq_refl n)

mark-Covered :
    (now k : ℕ) (n m status : String) (e : Option String) (t : Tally)
    → Covered n t
    → Covered n (mark now k m status e t)
unfolding mark
mark-Covered now k n m status e t h = h

conclude-Covered :
    (now k : ℕ) (n text : String) (s : Success) (e : Encode) (t : Tally)
    → Covered n t
    → Covered n (conclude now k text s e t)
unfolding conclude mark
conclude-Covered now k n text s encoded t h = succeed-Covered n s _ h
conclude-Covered now k n text s (not_encoded e) t h = fail-Covered n s.name _ h
conclude-Covered now k n text s (raised e) t h = fail-Covered n s.name _ h

conclude-here :
    (now k : ℕ) (text : String) (s : Success) (e : Encode) (t : Tally)
    → Covered s.name (conclude now k text s e t)
unfolding conclude
conclude-here now k text s encoded t = succeed-here s _
conclude-here now k text s (not_encoded e) t = fail-here s.name _
conclude-here now k text s (raised e) t = fail-here s.name _

original_step-Covered :
    (o : Outside) (now k : ℕ) (i : Info) (t : Tally)
    → Covered "original" (original_step o now k i t)
unfolding original_step original_of
original_step-Covered o now k i t =
    elim (Bool-cases (is_done (get_quality_status k "original" t.rows))) [
      | inl e ↦ rw (e, original_step) (succeed-here (original_of i) t)
      | inr e ↦ elim (Bool-cases (o.is_complete "original")) [
        | inl e' ↦ rw (e, e', original_step) (succeed-here (original_of i) _)
        | inr e' ↦
            rw (e, e', original_step)
              (conclude-here now k "Remux failed" (original_of i) (o.remux 0) _)
      ]
    ]

module _ (o : Outside) (now k : ℕ) (n : String) where
  -- The encode of a quality keeps what is covered, and covers the quality.
  single-Covered :
      (q : Quality) (t : Tally)
      → Covered n t ⊎ (q.name ≡ n)
      → Covered n (transcode_single_quality o now k q t)
  unfolding transcode_single_quality success_of
  single-Covered q t h = elim (Bool-cases (o.stops (before_quality q.name))) [
    | inl a ↦ rw (a, transcode_single_quality) (failed h)
    | inr a ↦ elim (Bool-cases (is_done (get_quality_status k q.name t.rows))) [
      | inl b ↦ rw (a, b, transcode_single_quality) (succeeded t h)
      | inr b ↦ elim (Bool-cases (o.is_complete q.name)) [
        | inl d ↦ rw (a, b, d, transcode_single_quality) (succeeded _ (marked "completed" h))
        | inr d ↦ rw (a, b, d, transcode_single_quality) (concluded _ (marked "in_progress" h))
      ]
    ]
  ]
    where
      failed : Covered n t ⊎ (q.name ≡ n) → Covered n (fail q.name t)
      failed (inl c) = fail-Covered n q.name t c
      failed (inr e) = subst (λ m. Covered m (fail q.name t)) e (fail-here q.name t)

      succeeded : (u : Tally) → Covered n u ⊎ (q.name ≡ n) → Covered n (succeed (success_of o q) u)
      succeeded u (inl c) = succeed-Covered n (success_of o q) u c
      succeeded u (inr e) =
          subst (λ m. Covered m (succeed (success_of o q) u)) e (succeed-here (success_of o q) u)

      marked :
          (status : String)
          → Covered n t ⊎ (q.name ≡ n)
          → Covered n (mark now k q.name status none t) ⊎ (q.name ≡ n)
      marked status (inl c) = inl (mark-Covered now k n q.name status none t c)
      marked status (inr e) = inr e

      concluded :
          (u : Tally)
          → Covered n u ⊎ (q.name ≡ n)
          → Covered n (
              conclude now k "Transcoding process returned non-zero exit code"
                (success_of o q)
                (o.transcode 0 q.name)
                u)
      concluded u (inl c) = conclude-Covered now k n _ (success_of o q) (o.transcode 0 q.name) u c
      concluded u (inr e) =
          subst
            (λ m. Covered m (
              conclude now k "Transcoding process returned non-zero exit code" (success_of o q)
                (o.transcode 0 q.name) u))
            e (conclude-here now k _ (success_of o q) (o.transcode 0 q.name) u)

  abbrev named : Quality → Bool
  named q = str_eq q.name n

  batch-Covered :
      (qs : List Quality) (t : Tally)
      → Covered n t ⊎ (1 ≤ count named qs)
      → Covered n (run_batch o now k qs t)
  unfolding run_batch
  batch-Covered [] t (inl h) = h
  batch-Covered [] t (inr h) = elim (none_named h) [ ]
    where
      none_named : 1 ≤ 0 → ⊥
      none_named h = omega arith
  batch-Covered (q ∷ rest) t h =
      batch-Covered rest (transcode_single_quality o now k q t)
        (next_covered (str_eq q.name n) refl h)
    where
      next_covered :
          (b : Bool)
          → str_eq q.name n ≡ b
          → Covered n t ⊎ (1 ≤ count named (q ∷ rest))
          → Covered n (transcode_single_quality o now k q t) ⊎ (1 ≤ count named rest)
      next_covered b e (inl c) = inl (single-Covered q t (inl c))
      next_covered true e (inr p) = inl (single-Covered q t (inr ((eq_iff q.name n).0 e)))
      next_covered false e (inr p) = inr (ground (arith, e, p))

  -- When no shutdown ends the batches, every quality in one of them is covered.
  batches-Covered :
      (m : ℕ) (batches : List (List Quality)) (t : Tally)
      → Covered n t ⊎ (1 ≤ count_all named batches)
      → (run_batches o now k m batches t).0 ≡ true
      → Covered n (run_batches o now k m batches t).1
  unfolding run_batches
  batches-Covered m [] t (inl h) done = h
  batches-Covered m [] t (inr h) done = elim (none_named h) [ ]
    where
      none_named : 1 ≤ 0 → ⊥
      none_named h = omega arith
  batches-Covered m (batch ∷ rest) t h done = elim (Bool-cases (o.stops (before_batch m))) [
    | inl e ↦ let stopped : false ≡ true = sym (rw (e, run_batches) refl) ∙ done in cc
    | inr e ↦
        let more : (run_batches o now k (suc m) rest (run_batch o now k batch t)).0 ≡ true =
          sym (rw (e, run_batches) refl) ∙ done in
        rw (e, run_batches)
          (batches-Covered (suc m) rest (run_batch o now k batch t) (after h) more)
  ]
    where
      split : (a b : ℕ) → 1 ≤ a + b → (1 ≤ a) ⊎ (1 ≤ b)
      split zero b h = inr (omega (arith, h))
      split (suc a) b h = inl (omega arith)

      after :
          Covered n t ⊎ (1 ≤ count_all named (batch ∷ rest))
          → Covered n (run_batch o now k batch t) ⊎ (1 ≤ count_all named rest)
      after (inl c) = inl (batch-Covered batch t (inl c))
      after (inr p) = elim (split (count named batch) (count_all named rest) p) [
        | inl a ↦ inl (batch-Covered batch t (inr a))
        | inr b ↦ inr b
      ]

named_once : (q : Quality) (qs : List Quality) → 1 ≤ count (λ r. str_eq r.name q.name) (q ∷ qs)
named_once q qs = ground (arith, eq_refl q.name)

-- Nothing is incomplete where every quality is covered.
nothing_incomplete :
    (k : ℕ) (t : Tally) (qs : List Quality)
    → All (λ q. Covered q.name t) qs
    → keep_if (is_incomplete k t) qs ≡ []
unfolding is_incomplete
nothing_incomplete k t [] h = refl
nothing_incomplete k t (q ∷ rest) h = ground (arith, h.0, nothing_incomplete k t rest h.1)

All-tail :
    (P : Quality → Type 0) (all_ qs : List Quality)
    → ((q : Quality) → 1 ≤ count (λ r. str_eq r.name q.name) all_ → P q)
    → ((p : Quality → Bool) → count p qs ≤ count p all_)
    → All P qs
All-tail P all_ [] h sub = tt
All-tail P all_ (q ∷ rest) h sub = (
  h q (omega (arith, sub (λ r. str_eq r.name q.name), named_once q rest)),
  All-tail P all_ rest h (λ p. ground (arith, sub p)),
)

module _ (c : Config) (w : World) (now v : ℕ) where
  tracked-Covered :
      (k : ℕ) (i : Info) (t : Tally)
      → (encode_all c w now v k i t).0 ≡ true
      → All (λ q. Covered q.name (encode_all c w now v k i t).1) (tracked c w now v i)
  unfolding tracked encode_all
  tracked-Covered k i t done =
      let first = original_step w.outside now k i t in
      let batches = group_qualities_by_resolution (planned c w now v i.height) w.parallel_count in
      (
        batches-Covered w.outside now k "original" 0 batches first
            (inl (original_step-Covered w.outside now k i t)) done,
        All-tail (λ q. Covered q.name (run_batches w.outside now k 0 batches first).1)
            (planned c w now v i.height) (planned c w now v i.height)
            (λ q there.
              batches-Covered w.outside now k q.name 0 batches first
                (inr (
                  rw
                    (group_qualities_by_resolution-count (λ r. str_eq r.name q.name)
                      w.parallel_count (planned c w now v i.height))
                    there))
                done)
            (λ p. omega arith),
      )

  verify_nothing :
      (k : ℕ) (i : Info) (t : Tally)
      → All (λ q. Covered q.name t) (tracked c w now v i)
      → verify w.outside now k i (tracked c w now v i) 3 0 t ≡ (true, t)
  unfolding verify
  verify_nothing k i t h = rw (nothing_incomplete k t (tracked c w now v i) h, verify) refl

  -- Once the batches have run to the end without a shutdown, the re-verification finds no quality
  -- that is incomplete: it starts no pass and changes nothing.
  pub encode_and_verify-eq :
      (k : ℕ) (i : Info) (t : Tally)
      → encode_and_verify c w now v k i t ≡ encode_all c w now v k i t
  unfolding encode_and_verify
  encode_and_verify-eq k i t = elim (Bool-cases (encode_all c w now v k i t).0) [
    | inr e ↦ rw (e, encode_and_verify) refl
    | inl e ↦
        let made = encode_all c w now v k i t in
        rw (e, encode_and_verify) (verify_nothing k i made.1 (tracked-Covered k i t e))
  ]
