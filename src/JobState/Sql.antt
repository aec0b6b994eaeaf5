-- ===== src/JobState/Sql.antt =====
-- api/job_state.py, the `sql_*` methods: the condition that each returns, its text, and its meaning
-- on a row of the table, as it is stored, under SQL's three-valued logic.
use vlog.Prelude.{
  ℕ, Bool, true, false, Option, none, some, [], ◌∷◌, ◌++◌, ◌&&◌, ◌||◌, if◌then◌else◌, ltb, leb,
  ◌==◌, is_none,
}
use vlog.Prelude.Text.{Text, codes}
use vlog.Prelude.Int.{ℤ, at_most}
use vlog.JobState.Rows.{Mapping, ensure_utc_datetime}
use vlog.JobState.Machine.{StateResult, ok, value_error}

-- [a-zA-Z_] and [a-zA-Z0-9_].
unfoldable pub is_start : ℕ → Bool
is_start c = leb b'a' c && leb c b'z' || leb b'A' c && leb c b'Z' || c == b'_'

unfoldable pub is_word : ℕ → Bool
unfolding is_start
is_word c = is_start c || leb b'0' c && leb c b'9'

-- `[a-zA-Z0-9_]*$`: Python's `$` also matches before one final newline.
unfoldable pub word_tail : Text → Bool
unfolding is_word
word_tail [] = true
word_tail (c ∷ []) = is_word c || c == 10
word_tail (c ∷ d ∷ rest) = is_word c && word_tail (d ∷ rest)

unfoldable pub matches_identifier : Text → Bool
unfolding is_start word_tail
matches_identifier [] = false
matches_identifier (c ∷ rest) = is_start c && word_tail rest

unfoldable pub matches_param : Text → Bool
unfolding matches_identifier
matches_param [] = false
matches_param (c ∷ rest) = c == b':' && matches_identifier rest

pub data Column : Type 0 where
  claimed_at completed_at last_error : Column

pub data Condition : Type 0 where
  is_null : Text → Column → Condition
  not_null : Text → Column → Condition
  expires_after : Text → Text → Condition
  expires_by : Text → Text → Condition
  attempts_used : Text → Condition
  attempts_left : Text → Condition
  both : Condition → Condition → Condition
  either : Condition → Condition → Condition

infixr 6 ◌and◌
abbrev pub ◌and◌ : Condition → Condition → Condition
a and b = both a b

-- The validators raise ValueError.
unfoldable pub validated : Bool → Condition → StateResult Condition
validated true c = ok c
validated false c = value_error

unfoldable pub sql_unclaimed : Text → StateResult Condition
unfolding validated matches_identifier
sql_unclaimed a =
    validated (matches_identifier a)
      (is_null a claimed_at and is_null a completed_at and is_null a last_error)

unfoldable pub sql_claimed : Text → Text → StateResult Condition
unfolding validated matches_identifier matches_param
sql_claimed a p =
    validated (matches_identifier a && matches_param p)
      (not_null a claimed_at and expires_after a p and is_null a completed_at)

unfoldable pub sql_expired : Text → Text → StateResult Condition
unfolding validated matches_identifier matches_param
sql_expired a p =
    validated (matches_identifier a && matches_param p)
      (not_null a claimed_at and expires_by a p and is_null a completed_at)

unfoldable pub sql_completed : Text → StateResult Condition
unfolding validated matches_identifier
sql_completed a = validated (matches_identifier a) (not_null a completed_at)

unfoldable pub sql_failed : Text → StateResult Condition
unfolding validated matches_identifier
sql_failed a =
    validated (matches_identifier a)
      (is_null a completed_at and not_null a last_error and attempts_used a)

unfoldable pub sql_retrying : Text → StateResult Condition
unfolding validated matches_identifier
sql_retrying a =
    validated (matches_identifier a) (
      is_null a completed_at and not_null a last_error and attempts_left a and is_null a claimed_at)

-- An error of the first call ends the method, so does one of the second.
unfoldable pub either_of : StateResult Condition → StateResult Condition → StateResult Condition
either_of (ok u) (ok r) = ok (either u r)
either_of (ok u) value_error = value_error
either_of value_error r = value_error

unfoldable pub sql_claimable : Text → StateResult Condition
unfolding validated matches_identifier sql_unclaimed sql_retrying either_of
sql_claimable a =
    if matches_identifier a then either_of (sql_unclaimed a) (sql_retrying a) else value_error

-- The text that the f-strings build.
column_name : Column → Text
column_name claimed_at = codes "claimed_at"
column_name completed_at = codes "completed_at"
column_name last_error = codes "last_error"

unfoldable pub render : Condition → Text
unfolding column_name
render (is_null a c) = a ++ (codes "." ++ (column_name c ++ codes " IS NULL"))
render (not_null a c) = a ++ (codes "." ++ (column_name c ++ codes " IS NOT NULL"))
render (expires_after a p) = a ++ (codes ".claim_expires_at > " ++ p)
render (expires_by a p) = a ++ (codes ".claim_expires_at <= " ++ p)
render (attempts_used a) = a ++ (codes ".attempt_number >= " ++ (a ++ codes ".max_attempts"))
render (attempts_left a) = a ++ (codes ".attempt_number < " ++ (a ++ codes ".max_attempts"))
render (both c d) = render c ++ (codes " AND " ++ render d)
render (either c d) = codes "((" ++ (render c ++ (codes ") OR (" ++ (render d ++ codes "))")))

-- SQL's truth values and connectives.
pub data Truth : Type 0 where
  holds fails unknown : Truth

unfoldable pub and3 : Truth → Truth → Truth
and3 fails t = fails
and3 holds t = t
and3 unknown fails = fails
and3 unknown holds = unknown
and3 unknown unknown = unknown

unfoldable pub or3 : Truth → Truth → Truth
or3 holds t = holds
or3 fails t = t
or3 unknown holds = holds
or3 unknown fails = unknown
or3 unknown unknown = unknown

abbrev truth : Bool → Truth
truth true = holds
truth false = fails

-- A comparison with NULL is unknown.
abbrev compared : Option ℕ → (ℕ → Bool) → Truth
compared none test = unknown
compared (some t) test = truth (test t)

-- `x <= y` on two columns.
unfoldable pub at_most3 : Option ℤ → Option ℤ → Truth
unfolding at_most
at_most3 none y = unknown
at_most3 (some x) none = unknown
at_most3 (some x) (some y) = truth (at_most x y)

unfoldable pub not3 : Truth → Truth
not3 holds = fails
not3 fails = holds
not3 unknown = unknown

null_at : Mapping → Column → Bool
null_at r claimed_at = is_none r.claimed_at
null_at r completed_at = is_none r.completed_at
null_at r last_error = is_none r.last_error

negate : Bool → Bool
negate true = false
negate false = true

-- `attempt_number` and `max_attempts` are compared as the columns hold them: NULL, zero and negative
-- numbers are not replaced by the defaults of `from_mapping`.
unfoldable pub eval : Mapping → ℕ → Condition → Truth
unfolding null_at negate and3 or3 at_most3 not3 ensure_utc_datetime
eval r now (is_null a c) = truth (null_at r c)
eval r now (not_null a c) = truth (negate (null_at r c))
eval r now (expires_after a p) = compared (ensure_utc_datetime r.claim_expires_at) (λ t. ltb now t)
eval r now (expires_by a p) = compared (ensure_utc_datetime r.claim_expires_at) (λ t. leb t now)
eval r now (attempts_used a) = at_most3 r.max_attempts r.attempt_number
eval r now (attempts_left a) = not3 (at_most3 r.max_attempts r.attempt_number)
eval r now (both c d) = and3 (eval r now c) (eval r now d)
eval r now (either c d) = or3 (eval r now c) (eval r now d)

-- A WHERE clause keeps the rows at which its condition holds.
unfoldable pub selects : Mapping → ℕ → Condition → Bool
unfolding eval
selects r now c = elim (eval r now c) [ holds ↦ true | fails ↦ false | unknown ↦ false ]
