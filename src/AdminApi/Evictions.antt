-- ===== src/AdminApi/Evictions.antt =====
-- What disabling a worker does to the job that its row names.
use vlog.Prelude.{ℕ, String, false, none, some, ◌≡◌, refl, ap, is_some}
use vlog.Prelude.Tables.{update_key}
use vlog.WorkerApi.Schema.{Job, Worker, Database, Moment, ok, http_error}
use vlog.WorkerApi.Guards.{job_of, owned_job, ◌>>=◌}
use vlog.WorkerApi.Fail.{FailRequest, failable, fail_job}
use vlog.WorkerApi.Failure.{update_row}
use vlog.AdminApi.Workers.{
  worker_named, is_disabled, release, free_job, release_current, set_disabled, disable_worker,
}

release_current-job :
    (k : ℕ) (db : Database) (j : Job)
    → job_of k db ≡ some j
    → j.completed_at ≡ none
    → job_of k (release_current (some k) db) ≡ some (release j)
unfolding release_current free_job release
release_current-job k db j found open_ =
    let unfinished : is_some j.completed_at ≡ false = ap is_some open_ in
    rw (found, unfinished, release_current) (update_row k release db j (λ x. refl) found)

-- A job without an owner refuses every report.
refused_without_owner :
    (m : Moment) (k : ℕ) (d : FailRequest) (v : Worker) (db : Database) (j : Job)
    → job_of k db ≡ some j
    → j.worker_id ≡ none
    → fail_job m k d v db ≡ (db, http_error 403)
unfolding fail_job failable owned_job
refused_without_owner m k d v db j found free =
    rw (found, free, owned_job, failable, fail_job, ◌>>=◌) refl

module _ (w : String) (db : Database) (row : Worker) (k : ℕ) (j : Job)
    (named : worker_named w db.workers ≡ some row) (enabled : is_disabled row.status ≡ false)
    (current : row.current_job_id ≡ some k) (found : job_of k db ≡ some j)
    (open_ : j.completed_at ≡ none) where
  disabled-db : Database
  disabled-db = record db {
    workers = update_key (λ (x : Worker). x.id) row.id set_disabled db.workers;
  }

  disable-eq : disable_worker w db ≡ (ok tt, release_current (some k) disabled-db)
  unfolding disable_worker disabled-db
  disable-eq = rw (named, enabled, current, disable_worker) refl

  disable-job : job_of k (disable_worker w db).1 ≡ some (release j)
  unfolding disabled-db
  disable-job = rw disable-eq (release_current-job k disabled-db j found open_)

  -- Disabling a worker whose row names an uncompleted job frees that job, whoever holds it: the job
  -- has no claim and no owner left, and the failure report of any worker on it, the holder
  -- included, is refused with 403 and changes nothing.
  pub disable_worker-evicts :
      (i : Job) × ((disable_worker w db).0 ≡ ok tt)
      × (job_of k (disable_worker w db).1 ≡ some i)
      × (i.claimed_at ≡ none)
      × (i.worker_id ≡ none)
      × ((m : Moment) (d : FailRequest) (v : Worker)
          → fail_job m k d v (disable_worker w db).1 ≡ ((disable_worker w db).1, http_error 403))
  unfolding release
  disable_worker-evicts = (
    release j,
    ap (λ r. r.0) disable-eq,
    disable-job,
    refl,
    refl,
    λ m d v. refused m d v (disable_worker w db).1 disable-job,
  )
    where
      refused :
          (m : Moment) (d : FailRequest) (v : Worker) (after : Database)
          → job_of k after ≡ some (release j)
          → fail_job m k d v after ≡ (after, http_error 403)
      refused m d v after e = refused_without_owner m k d v after (release j) e refl
