-- ===== src/Tests/DbRetry.antt =====
-- api/db_retry.py: a function that fails at first.
use vlog.Prelude.{ℕ, zero, suc, none, some, [], ◌∷◌, ◌≡◌, refl}
use vlog.Prelude.Text.{codes}
use vlog.DbRetry.Errors.{Causes, is_retryable_database_error, is_deadlock_error}
use vlog.DbRetry.Retry.{Attempt, returned, raised, deadlock_error, execute_with_retry}
use vlog.DbRetry.Attempts.{IsRun, execute_with_retry-IsRun}

abbrev deadlock : Causes
deadlock =
    record { text = codes "error"; sqlstate = none }
    ∷ record { text = codes "40p01: deadlock detected"; sqlstate = some "40P01" }
    ∷ []

abbrev locked : Causes
locked = record { text = codes "database is locked"; sqlstate = none } ∷ []

-- Two deadlocks with another error between them, then one more deadlock.
abbrev call : ℕ → Attempt ℕ
call zero = raised deadlock
call (suc zero) = raised locked
call (suc (suc zero)) = raised deadlock
call (suc (suc (suc zero))) = raised deadlock
call (suc (suc (suc (suc n)))) = returned n

program : Unit {0}
unfolding execute_with_retry is_retryable_database_error is_deadlock_error
program = tt

-- The deadlocks are counted although they are not consecutive.
aborted : execute_with_retry 5 call ≡ (4, deadlock_error 3)
unfolding program
aborted = refl

execute_with_retry-IsRun_example : IsRun call 0 6 (execute_with_retry 5 call)
execute_with_retry-IsRun_example = execute_with_retry-IsRun call 5
