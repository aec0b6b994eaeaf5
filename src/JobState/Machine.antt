-- ===== src/JobState/Machine.antt =====
-- api/job_state.py, `TranscodingJobStateMachine`: the predicates, the state of a job, and the checks
-- before a transition. `clock` is what `datetime.now(timezone.utc)` returns.
use vlog.Prelude.{
  ℕ, Bool, false, Option, none, some, ◌&&◌, ◌||◌, if◌then◌else◌, ltb, leb, is_none, is_some,
}
use vlog.JobState.Rows.{
  JobState, unclaimed, claimed, expired, completed, failed, retrying, JobLike, normalize_job, row,
}

pub data StateResult {ℓ} (A : Type ℓ) : Type ℓ where
  ok : A → StateResult A
  value_error : StateResult A

unfoldable pub resolve_time : Option ℕ → ℕ → ℕ
resolve_time none clock = clock
resolve_time (some t) clock = t

-- `t is not None and t > now`, and with `<=`.
abbrev pub after : Option ℕ → ℕ → Bool
after none now = false
after (some t) now = ltb now t

abbrev pub not_after : Option ℕ → ℕ → Bool
not_after none now = false
not_after (some t) now = leb t now

unfoldable pub is_unclaimed : JobLike → Bool
unfolding normalize_job
is_unclaimed j =
    let job = normalize_job j in
    is_none job.claimed_at && (is_none job.completed_at && is_none job.last_error)

unfoldable pub is_claimed : JobLike → Option ℕ → ℕ → Bool
unfolding normalize_job resolve_time
is_claimed j current_time clock =
    let job = normalize_job j in
    is_some job.claimed_at
    && (is_none job.completed_at && after job.claim_expires_at (resolve_time current_time clock))

unfoldable pub is_expired : JobLike → Option ℕ → ℕ → Bool
unfolding normalize_job resolve_time
is_expired j current_time clock =
    let job = normalize_job j in
    is_some job.claimed_at
    && (is_none job.completed_at
        && not_after job.claim_expires_at (resolve_time current_time clock))

unfoldable pub is_completed : JobLike → Bool
unfolding normalize_job
is_completed j = is_some (normalize_job j).completed_at

unfoldable pub is_failed : JobLike → Bool
unfolding normalize_job
is_failed j =
    let job = normalize_job j in
    is_none job.completed_at && (is_some job.last_error && leb job.max_attempts job.attempt_number)

unfoldable pub is_retrying : JobLike → Bool
unfolding normalize_job
is_retrying j =
    let job = normalize_job j in
    is_none job.completed_at
    && (is_some job.last_error
        && (ltb job.attempt_number job.max_attempts && is_none job.claimed_at))

unfoldable pub get_state : JobLike → Option ℕ → ℕ → StateResult JobState
unfolding normalize_job resolve_time is_completed is_failed is_claimed is_expired is_retrying
    is_unclaimed
get_state j current_time clock =
    let job = row (normalize_job j) in
    let now = some (resolve_time current_time clock) in
    if is_completed job
    then ok completed
    else if is_failed job
    then ok failed
    else if is_claimed job now clock
    then ok claimed
    else if is_expired job now clock
    then ok expired
    else if is_retrying job
    then ok retrying
    else if is_unclaimed job
    then ok unclaimed
    else value_error

unfoldable pub can_claim : JobLike → Option ℕ → Bool
unfolding normalize_job is_unclaimed is_retrying
can_claim j current_time = let job = row (normalize_job j) in is_unclaimed job || is_retrying job

unfoldable pub can_reclaim : JobLike → Option ℕ → ℕ → Bool
unfolding normalize_job is_expired
can_reclaim j current_time clock = is_expired (row (normalize_job j)) current_time clock

unfoldable pub can_complete : JobLike → Option ℕ → ℕ → Bool
unfolding normalize_job is_claimed
can_complete j current_time clock = is_claimed (row (normalize_job j)) current_time clock

unfoldable pub can_fail : JobLike → Option ℕ → ℕ → Bool
unfolding normalize_job is_claimed
can_fail j current_time clock = is_claimed (row (normalize_job j)) current_time clock
