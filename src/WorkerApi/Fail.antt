-- ===== src/WorkerApi/Fail.antt =====
-- api/worker_api.py, `fail_job`. The removal of the source file after a final failure, the metrics
-- and the notice to Redis change no table.
use vlog.Prelude.{
  ℕ, String, Bool, not, none, some, ◌+◌, ◌&&◌, if◌then◌else◌, ltb, ◌==◌, keep_if, update_where,
}
use vlog.Prelude.Text.{take_chars}
use vlog.WorkerApi.Schema.{
  Video, pending, failed, Job, Worker, Database, Moment, Reply, ok, http_error,
}
use vlog.WorkerApi.Guards.{◌>>=◌, owned_job, unexpired}
use vlog.WorkerApi.Complete.{clear_current}

pub record FailRequest : Type 0 where
  pub error_message : String
  pub retry : Bool

pub record FailReply : Type 0 where
  pub will_retry : Bool
  pub attempt_number : ℕ

unfoldable pub will_retry : FailRequest → Job → Bool
will_retry d j = d.retry && ltb j.attempt_number j.max_attempts

-- `.values(attempt_number=job["attempt_number"] + 1)`: from the row that was fetched.
unfoldable pub set_retry : FailRequest → ℕ → Job → Job
set_retry d attempt j = record j {
  last_error = some (take_chars 500 d.error_message);
  claimed_at = none;
  claim_expires_at = none;
  worker_id = none;
  current_step = none;
  attempt_number = attempt + 1;
}

unfoldable pub set_final : FailRequest → ℕ → Job → Job
set_final d now j = record j {
  last_error = some (take_chars 500 d.error_message);
  completed_at = some now;
  claimed_at = none;
  claim_expires_at = none;
}

unfoldable pub set_pending : Video → Video
set_pending v = record v { status = pending }

unfoldable pub set_failed : FailRequest → Video → Video
set_failed d v = record v { status = failed; error_message = some (take_chars 500 d.error_message) }

-- The two branches of `do_fail_transaction`.
unfoldable pub retry_transaction : FailRequest → Worker → Job → Database → Database
unfolding set_retry set_pending clear_current
retry_transaction d w job db = record db {
  jobs = update_where (λ j. j.id == job.id) (set_retry d job.attempt_number) db.jobs;
  quality_progress = keep_if (λ q. not (q.job_id == job.id)) db.quality_progress;
  videos = update_where (λ v. v.id == job.video_id) set_pending db.videos;
  workers = update_where (λ u. u.id == w.id) clear_current db.workers;
}

unfoldable pub final_transaction : FailRequest → ℕ → Worker → Job → Database → Database
unfolding set_final set_failed clear_current
final_transaction d now w job db = record db {
  jobs = update_where (λ j. j.id == job.id) (set_final d now) db.jobs;
  videos = update_where (λ v. v.id == job.video_id) (set_failed d) db.videos;
  workers = update_where (λ u. u.id == w.id) clear_current db.workers;
}

unfoldable pub fail_reply : Bool → Job → FailReply
fail_reply again j = record {
  will_retry = again;
  attempt_number = j.attempt_number + (if again then 1 else 0);
}

unfoldable pub failable : ℕ → ℕ → Worker → Database → Reply Job
unfolding owned_job unexpired
failable now k w db = do job ← owned_job k w db; unexpired now job

-- The whole endpoint.
unfoldable pub fail_job : Moment → ℕ → FailRequest → Worker → Database → Database × Reply FailReply
unfolding will_retry retry_transaction final_transaction fail_reply failable
fail_job m k d w db = elim (failable m.now k w db) [
  | http_error e ↦ (db, http_error e)
  | ok job ↦
      if m.locked
      then (db, http_error 503)
      else if will_retry d job
      then (retry_transaction d w job db, ok (fail_reply (will_retry d job) job))
      else (final_transaction d m.now w job db, ok (fail_reply (will_retry d job) job))
]
