-- ===== src/DbRetry/Errors.antt =====
-- api/db_retry.py: `is_retryable_database_error` and `is_deadlock_error`.
use text.Mathlib.Text.{◌==◌ as str_eq}
use vlog.Prelude.{
  Bool, true, false, String, Option, none, some, List, [], ◌∷◌, ◌≡◌, ◌==◌, ◌&&◌, ◌||◌, arith,
}
use vlog.Prelude.Text.{Text, codes}

-- One exception of a chain of causes: its text in lower case, and the SQLSTATE if it has one.
pub record Raised : Type 0 where
  pub text : Text
  pub sqlstate : Option String

-- The exception, its cause, the cause of that, and so on; an exception is a list that is not empty.
abbrev pub Causes : Type 0
Causes = List Raised

unfoldable pub starts : Text → Text → Bool
starts [] t = true
starts (c ∷ p) [] = false
starts (c ∷ p) (d ∷ t) = (c == d) && starts p t

-- `pattern in text`.
unfoldable pub contains : Text → Text → Bool
unfolding starts
contains p [] = starts p []
contains p (d ∷ t) = starts p (d ∷ t) || contains p t

unfoldable pub contains_any : List Text → Text → Bool
contains_any [] t = false
contains_any (p ∷ rest) t = contains p t || contains_any rest t

abbrev pub sqlite_patterns : List Text
sqlite_patterns =
    codes "database is locked"
    ∷ codes "database table is locked"
    ∷ codes "sqlite_busy"
    ∷ codes "sqlite_locked"
    ∷ []

abbrev pub deadlock_pattern : Text
deadlock_pattern = codes "deadlock detected"

abbrev pub postgres_patterns : List Text
postgres_patterns =
    deadlock_pattern
    ∷ codes "could not serialize access"
    ∷ codes "could not obtain lock"
    ∷ codes "connection refused"
    ∷ codes "connection reset"
    ∷ codes "server closed the connection unexpectedly"
    ∷ codes "canceling statement due to lock timeout"
    ∷ codes "lock timeout"
    ∷ []

abbrev pub is_state : String → Option String → Bool
is_state s none = false
is_state s (some t) = str_eq t s

unfoldable pub retryable_here : Raised → Bool
unfolding contains_any
retryable_here x =
    contains_any sqlite_patterns x.text
    || (contains_any postgres_patterns x.text
        || (is_state "40P01" x.sqlstate || is_state "40001" x.sqlstate))

unfoldable pub deadlock_here : Raised → Bool
unfolding contains
deadlock_here x = contains deadlock_pattern x.text || is_state "40P01" x.sqlstate

unfoldable pub is_retryable_database_error : Causes → Bool
unfolding retryable_here
is_retryable_database_error [] = false
is_retryable_database_error (x ∷ causes) = retryable_here x || is_retryable_database_error causes

unfoldable pub is_deadlock_error : Causes → Bool
unfolding deadlock_here
is_deadlock_error [] = false
is_deadlock_error (x ∷ causes) = deadlock_here x || is_deadlock_error causes

here_lem : (x : Raised) → deadlock_here x ≡ true → retryable_here x ≡ true
unfolding deadlock_here retryable_here contains_any
here_lem x h = ground arith

-- Every deadlock, also one among the causes, is an error that is retried.
pub deadlock_retryable :
    (e : Causes) → is_deadlock_error e ≡ true → is_retryable_database_error e ≡ true
unfolding is_deadlock_error is_retryable_database_error
deadlock_retryable [] h = cc
deadlock_retryable (x ∷ causes) h = ground (arith, here_lem x, deadlock_retryable causes)
