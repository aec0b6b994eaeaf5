-- ===== src/Tests/JobState.antt =====
-- api/job_state.py at concrete rows.
use vlog.Prelude.{true, false, none, some, ◌≡◌, ◌↔◌, ◌⊎◌, refl, ◌++◌, ◌∷◌, [], arith}
use vlog.Prelude.Int.{pos, negsuc}
use vlog.Prelude.Text.{codes}
use vlog.JobState.Rows.{
  unclaimed, claimed, expired, failed, retrying, JobRow, Mapping, naive, aware, row, mapping,
}
use vlog.JobState.Machine.{
  ok, value_error, get_state, is_unclaimed, is_completed, is_failed, is_retrying, can_claim,
}
use vlog.JobState.Sql as Sql
use vlog.JobState.Sql.{
  Condition, both, not_null, is_null, expires_after, matches_identifier, matches_param, sql_claimed,
  sql_claimable, sql_unclaimed, sql_completed, sql_failed, sql_retrying, sql_expired, render,
  selects, validated, either_of,
}
use vlog.JobState.States.{InState, IsCorrupt, get_state_iff, get_state-error_iff, can_claim_iff}
use vlog.JobState.Queries.{Selects, sql-predicates}

-- Claimed until 50, after two failed attempts of three.
abbrev held : JobRow
held = record {
  claimed_at = some 10;
  claim_expires_at = some 50;
  completed_at = none;
  last_error = some "exit 1";
  attempt_number = 2;
  max_attempts = 3;
}

abbrev last_try : JobRow
last_try = record held { attempt_number = 3 }

abbrev half_written : Mapping
half_written = record {
  claimed_at = some (naive 10);
  claim_expires_at = some (aware 7 50);
  completed_at = none;
  last_error = none;
  attempt_number = some (negsuc 4);
  max_attempts = none;
}

states :
    (get_state (row held) (some 20) 0 ≡ ok claimed)
    × (get_state (row held) (some 50) 0 ≡ ok expired)
    × (get_state (row last_try) (some 20) 0 ≡ ok failed)
    × (get_state (row (record held { claimed_at = none })) none 20 ≡ ok retrying)
    × (get_state (row (record held { claim_expires_at = none })) none 20 ≡ value_error)
    × (get_state (mapping half_written) none 20 ≡ ok claimed)
unfolding get_state
states = (refl, refl, refl, refl, refl, refl)

abbrev condition : Condition
condition =
    both (not_null (codes "tj") Sql.claimed_at)
      (both (expires_after (codes "tj") (codes ":now")) (is_null (codes "tj") Sql.completed_at))

-- The text that the f-string builds.
claimed_text :
    (sql_claimed (codes "tj") (codes ":now") ≡ ok condition)
    × (render condition
        ≡ codes
            "tj.claimed_at IS NOT NULL AND tj.claim_expires_at > :now AND tj.completed_at IS NULL")
unfolding sql_claimed render
claimed_text = (refl, refl)

-- A final newline passes the check of an alias.
newline_passes :
    (matches_identifier (codes "tj" ++ 10 ∷ []) ≡ true)
    × (matches_identifier (codes "tj; --") ≡ false)
    × (matches_param (codes ":now") ≡ true)
unfolding matches_identifier matches_param
newline_passes = (refl, refl, refl)

get_state_iff_example : (get_state (row held) (some 20) 0 ≡ ok claimed) ↔ InState claimed held 20
get_state_iff_example = get_state_iff held 20 0 claimed

get_state-error_iff_example : (get_state (row held) (some 20) 0 ≡ value_error) ↔ IsCorrupt held
get_state-error_iff_example = get_state-error_iff held 20 0

can_claim_iff_example : (can_claim (row held) (some 20) ≡ true) ↔ (
    (get_state (row held) (some 20) 0 ≡ ok unclaimed)
    ⊎ (get_state (row held) (some 20) 0 ≡ ok retrying))
can_claim_iff_example = can_claim_iff held 20 0

-- The same row as the table has it.
abbrev stored : Mapping
stored = record {
  claimed_at = some (naive 10);
  claim_expires_at = some (aware 7 50);
  completed_at = none;
  last_error = some "exit 1";
  attempt_number = some (pos 2);
  max_attempts = some (pos 3);
}

sql-predicates_example :
    Selects (sql_unclaimed (codes "tj")) stored 20 (is_unclaimed (mapping stored))
    × Selects (sql_completed (codes "tj")) stored 20 (is_completed (mapping stored))
    × Selects (sql_failed (codes "tj")) stored 20 (is_failed (mapping stored))
    × Selects (sql_retrying (codes "tj")) stored 20 (is_retrying (mapping stored))
    × Selects (sql_claimable (codes "tj")) stored 20 (can_claim (mapping stored) (some 20))
unfolding matches_identifier
sql-predicates_example =
    sql-predicates (codes "tj") refl stored 20 0 2 3 (refl, omega arith) (refl, omega arith)

abbrev unlimited : Mapping
unlimited = record stored { claimed_at = none; max_attempts = none }

-- With a NULL in max_attempts the two disagree: Python counts to three.
unlimited_row :
    Selects (sql_retrying (codes "tj")) unlimited 20 false
    × Selects (sql_claimable (codes "tj")) unlimited 20 false
    × (is_retrying (mapping unlimited) ≡ true)
    × (can_claim (mapping unlimited) (some 20) ≡ true)
unfolding sql_retrying sql_claimable selects is_retrying can_claim
unlimited_row = (refl, refl, refl, refl)
