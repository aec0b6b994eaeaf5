-- ===== src/JobState/Rows.antt =====
-- api/job_state.py, `JobState` to `JobRow`: the fields of a job row and how a row is normalised.
-- A time is the number of its UTC instant; text columns are `String`.
use vlog.Prelude.{ℕ, String, Option, none, some, if◌then◌else◌, ltb}
use vlog.Prelude.Int.{ℤ, pos, negsuc}

pub data JobState : Type 0 where
  unclaimed claimed expired completed failed retrying : JobState

-- A Python datetime: without a zone, or with one (the zone's key, then the instant in UTC).
pub data DateTime : Type 0 where
  naive : ℕ → DateTime
  aware : ℕ → ℕ → DateTime

-- The instant of the UTC datetime that the source returns.
unfoldable pub ensure_utc_datetime : Option DateTime → Option ℕ
ensure_utc_datetime none = none
ensure_utc_datetime (some (naive t)) = some t
ensure_utc_datetime (some (aware zone t)) = some t

pub record JobRow : Type 0 where
  pub claimed_at : Option ℕ
  pub claim_expires_at : Option ℕ
  pub completed_at : Option ℕ
  pub last_error : Option String
  pub attempt_number : ℕ
  pub max_attempts : ℕ

-- A database row: a missing key and a NULL are both `none`, as the source treats them alike.
pub record Mapping : Type 0 where
  pub claimed_at : Option DateTime
  pub claim_expires_at : Option DateTime
  pub completed_at : Option DateTime
  pub last_error : Option String
  pub attempt_number : Option ℤ
  pub max_attempts : Option ℤ

-- `if n is None or n < 1: n = default`.
unfoldable pub at_least_one : ℕ → Option ℤ → ℕ
at_least_one default none = default
at_least_one default (some (negsuc n)) = default
at_least_one default (some (pos n)) = if ltb n 1 then default else n

unfoldable pub from_mapping : Mapping → JobRow
unfolding ensure_utc_datetime at_least_one
from_mapping r = record {
  claimed_at = ensure_utc_datetime r.claimed_at;
  claim_expires_at = ensure_utc_datetime r.claim_expires_at;
  completed_at = ensure_utc_datetime r.completed_at;
  last_error = r.last_error;
  attempt_number = at_least_one 1 r.attempt_number;
  max_attempts = at_least_one 3 r.max_attempts;
}

-- `Union[JobRow, Mapping]`.
pub data JobLike : Type 0 where
  row : JobRow → JobLike
  mapping : Mapping → JobLike

unfoldable pub normalize_job : JobLike → JobRow
unfolding from_mapping
normalize_job (row r) = r
normalize_job (mapping m) = from_mapping m
