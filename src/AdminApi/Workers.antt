-- ===== src/AdminApi/Workers.antt =====
-- The endpoints of api/admin.py that disable, enable and delete a worker, next to the leases of the
-- worker API. The API keys of a worker, which a deletion may revoke, are left out.
use text.Mathlib.Text.{◌==◌ as str_eq}
use vlog.Prelude.{
  ℕ, String, Bool, true, false, not, Option, none, some, List, ◌==◌, if◌then◌else◌, is_some,
  keep_if, find_first, update_where,
}
use vlog.Prelude.Tables.{fetch, update_key}
use vlog.WorkerApi.Schema.{
  Video, pending, Job, Worker, WorkerStatus, disabled, active, Database, Reply, ok, http_error,
  is_owner,
}

-- `workers.select().where(worker_id == w)`; workers.worker_id is unique.
unfoldable pub worker_named : String → List Worker → Option Worker
worker_named w rows = find_first (λ x. str_eq x.worker_id w) rows

unfoldable pub is_disabled : WorkerStatus → Bool
is_disabled disabled = true
is_disabled _ = false

unfoldable pub release : Job → Job
release j = record j {
  claimed_at = none;
  claim_expires_at = none;
  worker_id = none;
  current_step = none;
}

unfoldable pub set_pending : Video → Video
set_pending v = record v { status = pending }

unfoldable pub free_job : Job → Database → Database
free_job job db = record db {
  jobs = update_key (λ (j : Job). j.id) job.id release db.jobs;
  videos = update_key (λ (v : Video). v.id) job.video_id set_pending db.videos;
}

-- `if worker["current_job_id"]: ... if job and not job["completed_at"]: ...`. A key is never 0.
unfoldable pub release_current : Option ℕ → Database → Database
release_current none db = db
release_current (some k) db = elim (fetch (λ (j : Job). j.id) k db.jobs) [
  | none ↦ db
  | some job ↦ if is_some job.completed_at then db else free_job job db
]

unfoldable pub set_disabled : Worker → Worker
set_disabled w = record w { status = disabled; current_job_id = none }

unfoldable pub disable_worker : String → Database → Reply {0} Unit × Database
disable_worker w db = elim (worker_named w db.workers) [
  | none ↦ (http_error 404, db)
  | some row ↦ if is_disabled row.status then (http_error 400, db) else (
    ok tt,
    release_current row.current_job_id
        (record db { workers = update_key (λ x. x.id) row.id set_disabled db.workers }),
  )
]

unfoldable pub set_active : Worker → Worker
set_active w = record w { status = active }

unfoldable pub enable_worker : String → Database → Reply {0} Unit × Database
enable_worker w db = elim (worker_named w db.workers) [
  | none ↦ (http_error 404, db)
  | some row ↦
      if is_disabled row.status
      then (ok tt, record db { workers = update_key (λ x. x.id) row.id set_active db.workers })
      else (http_error 400, db)
]

unfoldable pub forget_worker : Job → Job
forget_worker j = record j { worker_id = none }

unfoldable pub delete_worker : String → Database → Reply {0} Unit × Database
delete_worker w db = elim (worker_named w db.workers) [
  | none ↦ (http_error 404, db)
  | some row ↦
      let released = release_current row.current_job_id db in
      (
        ok tt,
        record released {
          jobs = update_where (λ j. is_owner j.worker_id w) forget_worker released.jobs;
          workers = keep_if (λ x. not (x.id == row.id)) released.workers;
        },
      )
]
