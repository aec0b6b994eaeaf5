-- ===== src/JobState/Queries.antt =====
-- api/job_state.py: the SQL conditions against the Python predicates.
use vlog.Prelude.{
  All, ℕ, Bool, true, false, Option, none, some, is_none, leb, ltb, ◌≤◌, refl, [], ◌∷◌, ◌≡◌, ◌⊎◌,
  arith,
}
use vlog.Prelude.Text.{Text}
use vlog.Prelude.Int.{ℤ, pos}
use vlog.JobState.Rows.{Mapping, mapping, DateTime, naive, aware, ensure_utc_datetime}
use vlog.JobState.Machine.{
  ok, value_error, StateResult, is_unclaimed, is_claimed, is_expired, is_completed, is_failed,
  is_retrying, can_claim,
}
use vlog.JobState.Sql.{
  Condition, is_word, word_tail, matches_identifier, matches_param, sql_unclaimed, sql_claimed,
  sql_expired, sql_completed, sql_failed, sql_retrying, sql_claimable, selects,
}

-- The condition that a method returned selects the row exactly when the test holds of it.
abbrev pub Selects : StateResult Condition → Mapping → ℕ → Bool → Type 0
Selects (ok c) r now test = selects r now c ≡ test
Selects value_error r now test = ⊥

-- The column holds a number that is at least one.
abbrev pub IsCounted : Option ℤ → ℕ → Type 0
IsCounted column n = (column ≡ some (pos n)) × (1 ≤ n)

ensure-is_none : (t : Option DateTime) → is_none (ensure_utc_datetime t) ≡ is_none t
unfolding ensure_utc_datetime
ensure-is_none none = refl
ensure-is_none (some (naive t)) = refl
ensure-is_none (some (aware z t)) = refl

module _ (a : Text) (alias : matches_identifier a ≡ true) (r : Mapping) (now clock : ℕ) where
  -- With a valid table alias, and on a row of the table whose attempt_number and max_attempts are
  -- not NULL and at least 1, the conditions on a state that does not turn on time select the row
  -- exactly when the predicate of that state holds of it, and so does `sql_claimable` for
  -- `can_claim`.
  pub sql-predicates :
      (n max : ℕ)
      → IsCounted r.attempt_number n
      → IsCounted r.max_attempts max
      → Selects (sql_unclaimed a) r now (is_unclaimed (mapping r))
        × Selects (sql_completed a) r now (is_completed (mapping r))
        × Selects (sql_failed a) r now (is_failed (mapping r))
        × Selects (sql_retrying a) r now (is_retrying (mapping r))
        × Selects (sql_claimable a) r now (can_claim (mapping r) (some now))
  unfolding sql_unclaimed sql_completed sql_failed sql_retrying sql_claimable selects is_unclaimed
      is_completed is_failed is_retrying can_claim
  sql-predicates n max (e, l) (f, q) =
      ground (arith, alias, e, l, f, q, ensure-is_none r.claimed_at, ensure-is_none r.completed_at)

  -- With a valid table alias: an unclaimed row with an error that is not completed, whose
  -- max_attempts is NULL, is selected by neither `sql_failed`, `sql_retrying` nor `sql_claimable`,
  -- while `is_failed` holds of it from the third attempt on and `is_retrying` and `can_claim`
  -- before.
  null_max-predicates :
      (n : ℕ)
      → IsCounted r.attempt_number n
      → r.max_attempts ≡ none
      → r.claimed_at ≡ none
      → r.completed_at ≡ none
      → is_none r.last_error ≡ false
      → Selects (sql_failed a) r now false
        × Selects (sql_retrying a) r now false
        × Selects (sql_claimable a) r now false
        × (is_failed (mapping r) ≡ leb 3 n)
        × (is_retrying (mapping r) ≡ ltb n 3)
        × (can_claim (mapping r) (some now) ≡ ltb n 3)
  unfolding sql_failed sql_retrying sql_claimable selects is_failed is_retrying can_claim
  null_max-predicates n (e, l) f free open_ error =
      ground (arith, alias, e, l, f, free, open_, error)

  -- With a valid alias and a valid parameter name that is bound to `now`, `sql_claimed` and
  -- `sql_expired` select a row exactly when `is_claimed` and `is_expired` hold of it at `now`: a
  -- NULL expiry is selected by neither.
  pub sql_claimed-predicates :
      (p : Text)
      → matches_param p ≡ true
      → Selects (sql_claimed a p) r now (is_claimed (mapping r) (some now) clock)
        × Selects (sql_expired a p) r now (is_expired (mapping r) (some now) clock)
  unfolding sql_claimed sql_expired selects is_claimed is_expired
  sql_claimed-predicates p param =
      ground (arith, alias, param, ensure-is_none r.claimed_at, ensure-is_none r.completed_at)

-- A character of an identifier, or the newline that `$` lets through.
abbrev pub IsWordOrNewline : ℕ → Type 0
IsWordOrNewline c = (is_word c ≡ true) ⊎ (c ≡ 10)

word_tail-All : (t : Text) → word_tail t ≡ true → All IsWordOrNewline t
unfolding word_tail
word_tail-All [] h = tt
word_tail-All (c ∷ []) h = (ground arith, tt)
word_tail-All (c ∷ d ∷ rest) h = (ground arith, word_tail-All (d ∷ rest) (ground arith))

-- Every character of a text that the alias check accepts is a letter, a digit, an underscore or a
-- newline: no quote, space, semicolon or comment sign reaches the query through an alias.
pub matches_identifier-All : (t : Text) → matches_identifier t ≡ true → All IsWordOrNewline t
unfolding matches_identifier is_word
matches_identifier-All [] h = cc
matches_identifier-All (c ∷ rest) h = (ground arith, word_tail-All rest (ground arith))
