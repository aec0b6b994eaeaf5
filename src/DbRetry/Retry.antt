-- ===== src/DbRetry/Retry.antt =====
-- api/db_retry.py: `execute_with_retry`. The delays between the attempts leave no trace.
use vlog.Prelude.{ℕ, zero, suc, Bool, ◌&&◌, not, if◌then◌else◌, leb}
use vlog.DbRetry.Errors.{Causes, is_retryable_database_error, is_deadlock_error}

abbrev pub max_deadlock_retries : ℕ
max_deadlock_retries = 3

module _ (A : Type 0) where
  -- What a call of the function does.
  pub data Attempt : Type 0 where
    returned : A → Attempt
    raised : Causes → Attempt

  -- The value, an exception that is raised again, DeadlockError with its count, or
  -- DatabaseRetryableError.
  pub data Result : Type 0 where
    value : A → Result
    reraised : Causes → Result
    deadlock_error : ℕ → Result
    retryable_error : Result

unfoldable pub count_deadlock : ℕ → Causes → ℕ
count_deadlock d e = if is_deadlock_error e then suc d else d

unfoldable pub gives_up : ℕ → Causes → Bool
gives_up d e = is_deadlock_error e && leb max_deadlock_retries (count_deadlock d e)

module _ {A : Type 0} where
  -- The loop with `n` attempts left, after `k` calls and `d` deadlocks: the number of calls in the
  -- end, and the result. `call k` is what the call number `k` does.
  unfoldable pub retry_loop : ℕ → ℕ → ℕ → (ℕ → Attempt A) → ℕ × Result A
  unfolding count_deadlock gives_up
  retry_loop zero k d call = (k, retryable_error)
  retry_loop (suc n) k d call = elim (call k) [
    | returned a ↦ (suc k, value a)
    | raised e ↦
        let later = retry_loop n (suc k) (count_deadlock d e) call in
        if not (is_retryable_database_error e)
        then (suc k, reraised e)
        else if gives_up d e
        then (suc k, deadlock_error (count_deadlock d e))
        else later
  ]

  unfoldable pub execute_with_retry : ℕ → (ℕ → Attempt A) → ℕ × Result A
  unfolding retry_loop
  execute_with_retry max_retries call = retry_loop (suc max_retries) 0 0 call
