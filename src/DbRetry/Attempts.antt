-- ===== src/DbRetry/Attempts.antt =====
-- api/db_retry.py: how often `execute_with_retry` calls the function, and what its result means.
use vlog.Prelude.{
  ℕ, zero, suc, true, false, ◌≡◌, ◌≤◌, ◌<◌, ◌+◌, refl, arith, if◌then◌else◌, inl, inr, Bool-cases,
  sym,
}
use mathlib.Core.Path.{subst}
use native.Mathlib.Decide.{ℕ_discrete}
use vlog.DbRetry.Errors.{Causes, is_retryable_database_error, is_deadlock_error}
use vlog.DbRetry.Retry.{
  Attempt, returned, raised, Result, value, reraised, deadlock_error, retryable_error,
  count_deadlock, gives_up, retry_loop, execute_with_retry, max_deadlock_retries,
}

module _ {A : Type 0} where
  abbrev counted : Attempt A → ℕ → ℕ
  counted (returned a) d = d
  counted (raised e) d = if is_deadlock_error e then suc d else d

module _ {A : Type 0} (call : ℕ → Attempt A) where
  -- How many of the first `i` calls failed with a deadlock.
  abbrev pub deadlocks : ℕ → ℕ
  deadlocks zero = 0
  deadlocks (suc i) = counted (call i) (deadlocks i)

  -- What the last call, number `i`, did where the loop ended with a result.
  abbrev pub EndsWith : ℕ → Result A → Type 0
  EndsWith i (value a) = call i ≡ returned a
  EndsWith i (reraised e) = (call i ≡ raised e) × (is_retryable_database_error e ≡ false)
  EndsWith i (deadlock_error d) =
      (e : Causes) × (call i ≡ raised e)
      × (is_deadlock_error e ≡ true)
      × (d ≡ 3)
      × (deadlocks (suc i) ≡ 3)
  EndsWith i retryable_error =
      (e : Causes) × (call i ≡ raised e) × (is_retryable_database_error e ≡ true)

  -- Call number `i` failed in a way that is retried.
  abbrev pub IsRetried : ℕ → Type 0
  IsRetried i = (e : Causes) × (call i ≡ raised e) × (is_retryable_database_error e ≡ true)

  -- Calls `k` to `last` were made, the last one accounts for the result, and those before were
  -- retried; fewer than three deadlocks came before the last one, and `retryable_error` took all
  -- `n` attempts.
  pub record IsRun (k n : ℕ) (r : ℕ × Result A) : Type 0 where
    pub last : ℕ
    pub calls : r.0 ≡ suc last
    pub low : k ≤ last
    pub high : last < k + n
    pub ends : EndsWith last r.1
    pub retried : (i : ℕ) → k ≤ i → i < last → IsRetried i
    pub few : deadlocks last < 3
    pub used : r.1 ≡ retryable_error → suc last ≡ k + n

  module _ (n k d : ℕ) where
    loop_returned : (a : A) → call k ≡ returned a → retry_loop (suc n) k d call ≡ (suc k, value a)
    unfolding retry_loop
    loop_returned a h = ground (arith, h)

    loop_reraised :
        (e : Causes)
        → call k ≡ raised e
        → is_retryable_database_error e ≡ false
        → retry_loop (suc n) k d call ≡ (suc k, reraised e)
    unfolding retry_loop
    loop_reraised e h i = ground (arith, h, i)

    loop_deadlock :
        (e : Causes)
        → call k ≡ raised e
        → is_retryable_database_error e ≡ true
        → gives_up d e ≡ true
        → retry_loop (suc n) k d call ≡ (suc k, deadlock_error (count_deadlock d e))
    unfolding retry_loop
    loop_deadlock e h i g = ground (arith, h, i, g)

    loop_later :
        (e : Causes)
        → call k ≡ raised e
        → is_retryable_database_error e ≡ true
        → gives_up d e ≡ false
        → retry_loop (suc n) k d call ≡ retry_loop n (suc k) (count_deadlock d e) call
    unfolding retry_loop
    loop_later e h i g = ground (arith, h, i, g)

  -- The run that ends with call `k`.
  one_call :
      (n k : ℕ) (r : Result A)
      → EndsWith k r
      → deadlocks k < 3
      → (r ≡ retryable_error → n ≡ 0)
      → IsRun k (suc n) (suc k, r)
  one_call n k r h l u = record {
    last = k;
    calls = refl;
    low = omega arith;
    high = omega arith;
    ends = h;
    retried = λ i a b. ground (arith, a, b);
    few = l;
    used = λ e. omega (arith, u e);
  }

  one_more : (n k : ℕ) (r : ℕ × Result A) → IsRetried k → IsRun (suc k) n r → IsRun k (suc n) r
  one_more n k r h run = record {
    last = run.last;
    calls = run.calls;
    low = omega (arith, run.low);
    high = omega (arith, run.high);
    ends = run.ends;
    retried = λ i a b. elim (ℕ_discrete i k) [
      | yes e ↦ subst IsRetried (sym e) h
      | no ne ↦ run.retried i (omega (arith, a, ne)) b
    ];
    few = run.few;
    used = λ e. omega (arith, run.used e);
  }

  gives_up_count :
      (d : ℕ) (e : Causes)
      → d < max_deadlock_retries
      → gives_up d e ≡ true
      → (is_deadlock_error e ≡ true) × (count_deadlock d e ≡ 3)
  unfolding gives_up count_deadlock
  gives_up_count d e h g = ground arith

  goes_on_count :
      (d : ℕ) (e : Causes)
      → d < max_deadlock_retries
      → gives_up d e ≡ false
      → count_deadlock d e < max_deadlock_retries
  unfolding gives_up count_deadlock
  goes_on_count d e h g = ground arith

  count_next :
      (k d : ℕ) (e : Causes)
      → call k ≡ raised e
      → d ≡ deadlocks k
      → count_deadlock d e ≡ deadlocks (suc k)
  unfolding count_deadlock
  count_next k d e h c = rw (h, c) refl

  attempt_round :
      (n k d : ℕ) (a : Attempt A)
      → call k ≡ a
      → d < max_deadlock_retries
      → d ≡ deadlocks k
      → ((e : ℕ)
          → e < max_deadlock_retries
          → e ≡ deadlocks (suc k)
          → IsRetried k
          → IsRun k (suc n) (retry_loop n (suc k) e call))
      → IsRun k (suc n) (retry_loop (suc n) k d call)
  attempt_round n k d (returned a) h l c later =
      rw (loop_returned n k d a h) (one_call n k (value a) h (omega (arith, l, c)) (λ q. cc))
  attempt_round n k d (raised e) h l c later = elim (Bool-cases (is_retryable_database_error e)) [
    | inr i ↦
        rw (loop_reraised n k d e h i)
          (one_call n k (reraised e) (h, i) (omega (arith, l, c)) (λ q. cc))
    | inl i ↦ elim (Bool-cases (gives_up d e)) [
      | inl g ↦
          let three = gives_up_count d e l g in
          rw (loop_deadlock n k d e h i g) (
            one_call n k (deadlock_error (count_deadlock d e))
              (e, h, three.0, three.1, omega (arith, three.1, count_next k d e h c))
              (omega (arith, l, c)) (λ q. cc))
      | inr g ↦
          rw (loop_later n k d e h i g)
            (later (count_deadlock d e) (goes_on_count d e l g) (count_next k d e h c) (e, h, i))
    ]
  ]

  retry_loop-IsRun :
      (n k d : ℕ)
      → d < max_deadlock_retries
      → d ≡ deadlocks k
      → IsRun k (suc n) (retry_loop (suc n) k d call)
  unfolding retry_loop
  retry_loop-IsRun zero k d h c =
      attempt_round zero k d (call k) refl h c
        (λ e l q r. one_call zero k retryable_error r (omega (arith, h, c)) (λ x. refl))
  retry_loop-IsRun (suc n) k d h c = attempt_round (suc n) k d (call k) refl h c (λ e l q r.
      one_more (suc n) k (retry_loop (suc n) (suc k) e call) r (retry_loop-IsRun n (suc k) e l q))

  -- `execute_with_retry` calls the function at least once and at most `max_retries + 1` times. All
  -- calls before the last one failed with errors that are retried, and the result is the last
  -- call's: its value, its error if that is not retried, DeadlockError with the count 3 if it was
  -- the third deadlock, or DatabaseRetryableError, which comes only after all `max_retries + 1`
  -- calls. Before the last call there were fewer than three deadlocks.
  pub execute_with_retry-IsRun :
      (max_retries : ℕ) → IsRun 0 (suc max_retries) (execute_with_retry max_retries call)
  unfolding execute_with_retry
  execute_with_retry-IsRun max_retries = retry_loop-IsRun max_retries 0 0 (omega arith) refl
