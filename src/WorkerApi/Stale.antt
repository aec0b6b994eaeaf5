-- ===== src/WorkerApi/Stale.antt =====
-- api/worker_api.py, `_detect_and_release_stale_jobs`: one check for workers that have gone offline.
-- The webhook that it triggers for each of them changes none of these tables.
use vlog.Prelude.{
  ℕ, Bool, true, false, not, Option, none, some, List, [], ◌∷◌, ◌+◌, ◌-◌, ◌&&◌, ◌||◌, if◌then◌else◌,
  ltb, ◌==◌, is_none, keep_if, update_where, length,
}
use vlog.WorkerApi.Schema.{Job, Worker, WorkerStatus, offline, Database, Config, is_owner}
use vlog.WorkerApi.Claim.{is_processing, release_video}

unfoldable pub is_offline : WorkerStatus → Bool
is_offline offline = true
is_offline _ = false

-- A comparison with a NULL time selects no row.
abbrev pub before : Option ℕ → ℕ → Bool
before none t = false
before (some s) t = ltb s t

-- The WHERE clause of the fetch, and of the conditional update again.
unfoldable pub is_stale : ℕ → Worker → Bool
unfolding is_offline
is_stale threshold w =
    not (is_offline w.status)
    && (before w.last_heartbeat threshold
        || is_none w.last_heartbeat && ltb w.registered_at threshold)

unfoldable pub set_offline : Worker → Worker
set_offline w = record w { status = offline; current_job_id = none }

-- A job of the worker that is not completed and whose claim has no expiry or a past one.
unfoldable pub is_overdue : ℕ → Job → Bool
is_overdue now j =
    is_none j.completed_at && (is_none j.claim_expires_at || before j.claim_expires_at now)

unfoldable pub is_releasable : ℕ → Worker → Job → Bool
unfolding is_overdue
is_releasable now w j = is_owner j.worker_id w.worker_id && is_overdue now j

unfoldable pub release_job : Job → Job
release_job j = record j {
  claimed_at = none;
  claim_expires_at = none;
  worker_id = none;
  current_step = none;
}

-- The body of the inner loop.
unfoldable pub release_stale_job : Job → Database → Database
unfolding release_job is_processing release_video
release_stale_job job db = record db {
  jobs = update_where (λ j. j.id == job.id) release_job db.jobs;
  videos =
      update_where (λ v. (v.id == job.video_id) && is_processing v.status) release_video db.videos;
}

unfoldable pub release_stale_jobs : List Job → Database → Database
unfolding release_stale_job
release_stale_jobs [] db = db
release_stale_jobs (j ∷ js) db = release_stale_jobs js (release_stale_job j db)

-- `result == 0`, on what `database.execute` returns for that many updated rows.
unfoldable pub reports_none : Option ℕ → Bool
reports_none none = false
reports_none (some n) = n == 0

abbrev pub updates_worker : ℕ → Worker → Worker → Bool
updates_worker threshold w u = (u.id == w.id) && is_stale threshold u

unfoldable pub mark_offline : ℕ → Worker → Database → Database
unfolding is_stale set_offline
mark_offline threshold w db = record db {
  workers = update_where (updates_worker threshold w) set_offline db.workers;
}

-- The body of the outer loop: the database, and whether the worker was counted. `reported` gives
-- what `database.execute` returns for a number of updated rows.
unfoldable pub process_worker : (ℕ → Option ℕ) → ℕ → ℕ → Worker → Database → Database × ℕ
unfolding mark_offline is_releasable release_stale_jobs reports_none
process_worker reported now threshold w db =
    let updated = mark_offline threshold w db in
    if reports_none (reported (length (keep_if (updates_worker threshold w) db.workers)))
    then (updated, 0)
    else (release_stale_jobs (keep_if (is_releasable now w) updated.jobs) updated, 1)

unfoldable pub process_workers : (ℕ → Option ℕ) → ℕ → ℕ → List Worker → Database → Database × ℕ
unfolding process_worker
process_workers reported now threshold [] db = (db, 0)
process_workers reported now threshold (w ∷ ws) db =
    let (db', n) = process_worker reported now threshold w db in
    let (db'', total) = process_workers reported now threshold ws db' in (db'', n + total)

-- `_api_start_time` is set and the API has been up for less than the grace period.
unfoldable pub in_grace : Config → ℕ → Option ℕ → Bool
in_grace c now none = false
in_grace c now (some start) = ltb (now - start) c.startup_grace_period

-- The whole check. `skip_grace` is the answer of Redis; `meanwhile` is what other requests do to the
-- database between the fetch of the workers and the first update.
unfoldable pub detect_and_release_stale_jobs :
    Config → (ℕ → Option ℕ) → ℕ → Bool → Option ℕ → (Database → Database) → Database → Database × ℕ
unfolding in_grace is_stale process_workers
detect_and_release_stale_jobs c reported now skip_grace start meanwhile db =
    let threshold = now - c.offline_threshold in
    if not skip_grace && in_grace c now start
    then (db, 0)
    else process_workers reported now threshold (keep_if (is_stale threshold) db.workers)
        (meanwhile db)
