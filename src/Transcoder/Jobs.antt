-- ===== src/Transcoder/Jobs.antt =====
-- worker/transcoder.py: the job management functions of the local worker, over the tables that the worker
-- API serves to the remote ones.
use vlog.Prelude.{
  ℕ, String, Bool, not, Option, none, some, ◌+◌, ◌==◌, ◌&&◌, ◌||◌, if◌then◌else◌, is_none,
  find_first, update_where,
}
use vlog.Prelude.Text.{take_chars}
use vlog.Prelude.Tables.{fetch}
use vlog.WorkerApi.Schema.{Job, Database, Moment, Config, is_owner}
use vlog.WorkerApi.Stale.{before}
use vlog.WorkerApi.Selection.{job_id}

abbrev pub local_worker : String
local_worker = "LOCAL_WORKER"

-- api/enums.py
pub data JobFailureMode : Type 0 where
  retryable permanent : JobFailureMode

unfoldable pub set_job : ℕ → (Job → Job) → Database → Database
set_job k f db = record db { jobs = update_where (λ j. j.id == k) f db.jobs }

-- The WHERE clause of `get_existing_job`.
unfoldable pub is_obtainable : ℕ → ℕ → Job → Bool
is_obtainable now video_id j =
    (j.video_id == video_id)
    && (is_none j.completed_at
        && (is_none j.claimed_at
            || (before j.claim_expires_at now || is_owner j.worker_id local_worker)))

unfoldable pub set_local : Config → ℕ → Job → Job
set_local c now j = record j {
  worker_id = some local_worker;
  claimed_at = some now;
  claim_expires_at = some (now + c.claim_duration);
  processed_by_worker_id = some local_worker;
  processed_by_worker_name = some "Local Worker";
}

unfoldable pub obtain : Config → ℕ → Option Job → Database → Database × Option Job
unfolding set_job set_local
obtain c now none db = (db, none)
obtain c now (some j) db = (set_job j.id (set_local c now) db, some j)

-- `taken` are the rows that other transactions have locked (SKIP LOCKED of PostgreSQL; none on SQLite).
-- The caller gets the row as it was before the claim. `locked`: the retries of the transaction give
-- up; any other error is raised, with nothing changed.
unfoldable pub get_existing_job :
    Config → Moment → (ℕ → Bool) → ℕ → Database → Database × Option Job
unfolding obtain is_obtainable
get_existing_job c m taken video_id db =
    if m.locked
    then (db, none)
    else obtain c m.now
        (find_first (λ j. not (taken j.id) && is_obtainable m.now video_id j) db.jobs) db

unfoldable pub set_checkpoint : Config → ℕ → Job → Job
set_checkpoint c now j = record j {
  last_checkpoint = some now;
  claim_expires_at = some (now + c.claim_duration);
}

-- An error of the database is logged, and the row stays as it is (`stored` is false).
unfoldable pub checkpoint : Config → ℕ → Bool → ℕ → Database → Database
unfolding set_job set_checkpoint
checkpoint c now stored k db = if stored then set_job k (set_checkpoint c now) db else db

unfoldable pub set_step : Config → ℕ → String → Job → Job
set_step c now step j = record j {
  current_step = some step;
  last_checkpoint = some now;
  claim_expires_at = some (now + c.claim_duration);
}

unfoldable pub update_job_step : Config → ℕ → Bool → ℕ → String → Database → Database
unfolding set_job set_step
update_job_step c now stored k step db = if stored then set_job k (set_step c now step) db else db

unfoldable pub set_percent : Config → ℕ → ℕ → Job → Job
set_percent c now progress j = record j {
  progress_percent = progress;
  last_checkpoint = some now;
  claim_expires_at = some (now + c.claim_duration);
}

unfoldable pub update_job_progress : Config → ℕ → Bool → ℕ → ℕ → Database → Database
unfolding set_job set_percent
update_job_progress c now stored k progress db =
    if stored then set_job k (set_percent c now progress) db else db

unfoldable pub set_done : ℕ → Job → Job
set_done now j = record j {
  completed_at = some now;
  progress_percent = 100;
  last_checkpoint = some now;
}

unfoldable pub mark_job_completed : ℕ → ℕ → Database → Database
unfolding set_job set_done
mark_job_completed now k db = set_job k (set_done now) db

unfoldable pub completion_of : JobFailureMode → ℕ → Option ℕ → Option ℕ
completion_of retryable now t = t
completion_of permanent now t = some now

unfoldable pub set_error : JobFailureMode → ℕ → String → Job → Job
unfolding completion_of
set_error mode now text j = record j {
  last_error = some (take_chars 500 text);
  last_checkpoint = some now;
  completed_at = completion_of mode now j.completed_at;
}

-- A caller's deprecated Boolean stands for the mode: True for permanent.
unfoldable pub mark_job_failed : ℕ → ℕ → String → JobFailureMode → Database → Database
unfolding set_job set_error
mark_job_failed now k text mode db = set_job k (set_error mode now text) db

-- `(job["attempt_number"] or 1) + 1`.
abbrev pub next_attempt : ℕ → ℕ
next_attempt n = if n == 0 then 2 else n + 1

unfoldable pub set_reset : String → ℕ → ℕ → Job → Job
set_reset worker now attempt j = record j {
  worker_id = some worker;
  attempt_number = attempt;
  started_at = some now;
  last_checkpoint = some now;
  completed_at = none;
}

unfoldable pub reset_fetched : String → ℕ → Option Job → Database → Database
unfolding set_job set_reset
reset_fetched worker now none db = db
reset_fetched worker now (some j) db =
    set_job j.id (set_reset worker now (next_attempt j.attempt_number)) db

unfoldable pub reset_job_for_retry : String → ℕ → ℕ → Database → Database
unfolding reset_fetched
reset_job_for_retry worker now k db = reset_fetched worker now (fetch job_id k db.jobs) db
