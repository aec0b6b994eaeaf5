-- ===== src/WorkerApi/Refinement/Sweeping.antt =====
-- api/worker_api.py: `_detect_and_release_stale_jobs` follows the lease protocol.
use mathlib.Core.Path.{subst}
use native.Mathlib.Decide.{ℕ_discrete}
use vlog.Prelude.{
  ℕ, String, Bool, true, Option, some, List, [], ◌∷◌, ◌≡◌, refl, ◌∙◌, arith, Bool-cases, inl, inr,
  All, All-map, keep_if, length, ◌&&◌, ◌-◌, ◌==◌, not,
}
use vlog.Prelude.Tables.{
  HasUniqueKeys, HasUniqueKeys-update_where, fetch-update_key, fetch-update_key_ne, All-keep_if,
}
use vlog.WorkerApi.Schema.{Job, Worker, Database, Config}
use vlog.WorkerApi.Guards.{job_of}
use vlog.WorkerApi.Stale.{
  is_overdue, is_releasable, release_job, release_stale_job, release_stale_jobs, mark_offline,
  process_worker, process_workers, detect_and_release_stale_jobs, reports_none, updates_worker,
  is_stale, in_grace,
}
use vlog.WorkerApi.Selection.{job_id}
use vlog.WorkerApi.Protocol.{
  stay, then, sweep, RowsMove, RowsMove-refl, RowsMove-trans, RowsMove-update_key,
}

-- The row of a listed job is still one that the check may release.
abbrev Overdue : ℕ → Database → Job → Type 0
Overdue now db j = (x : Job) × (job_of j.id db ≡ some x) × (is_overdue now x ≡ true)

is_overdue-release_job :
    (now : ℕ) (j : Job) → is_overdue now j ≡ true → is_overdue now (release_job j) ≡ true
unfolding is_overdue release_job
is_overdue-release_job now j h = ground arith

Overdue-release :
    (now : ℕ) (db : Database) (i j : Job)
    → Overdue now db i
    → Overdue now db j
    → Overdue now (release_stale_job i db) j
unfolding release_stale_job release_job
Overdue-release now db i j oi (x, found, due) = elim (ℕ_discrete j.id i.id) [
  | yes e ↦ (
    release_job x,
    rw e (
        fetch-update_key job_id i.id release_job db.jobs x (λ x. refl)
          (subst (λ k. job_of k db ≡ some x) e found)),
    is_overdue-release_job now x due,
  )
  | no ne ↦
      (x, fetch-update_key_ne job_id j.id i.id release_job db.jobs (λ x. refl) ne ∙ found, due)
]

module _ (c : Config) (now : ℕ) (actor : String) where
  release_stale_job-RowsMove :
      (i : Job) (db : Database)
      → Overdue now db i
      → RowsMove c now actor db.jobs (release_stale_job i db).jobs
  unfolding release_stale_job release_job
  release_stale_job-RowsMove i db (x, found, due) =
      RowsMove-update_key c now actor i.id release_job db.jobs x (λ x. refl) found
        (then stay (sweep x due))

  release_stale_jobs-RowsMove :
      (js : List Job) (db : Database)
      → All (Overdue now db) js
      → RowsMove c now actor db.jobs (release_stale_jobs js db).jobs
  unfolding release_stale_jobs
  release_stale_jobs-RowsMove [] db h = RowsMove-refl c now actor db.jobs
  release_stale_jobs-RowsMove (j ∷ js) db h =
      let db' = release_stale_job j db in
      RowsMove-trans c now actor db.jobs db'.jobs (release_stale_jobs js db').jobs
        (release_stale_job-RowsMove j db h.0)
        (release_stale_jobs-RowsMove js db'
          (All-map (λ i o. Overdue-release now db j i h.0 o) js h.1))

release_stale_jobs_unique :
    (js : List Job) (db : Database)
    → HasUniqueKeys job_id db.jobs
    → HasUniqueKeys job_id (release_stale_jobs js db).jobs
unfolding release_stale_jobs release_stale_job release_job
release_stale_jobs_unique [] db u = u
release_stale_jobs_unique (j ∷ js) db u =
    release_stale_jobs_unique js (release_stale_job j db)
      (HasUniqueKeys-update_where job_id (λ x. x.id == j.id) release_job (λ x. refl) db.jobs u)

is_releasable-is_overdue :
    (now : ℕ) (w : Worker) (j : Job) → is_releasable now w j ≡ true → is_overdue now j ≡ true
unfolding is_releasable
is_releasable-is_overdue now w j h = ground arith

module _ (reported : ℕ → Option ℕ) (now threshold : ℕ) where
  process_worker_unique :
      (w : Worker) (db : Database)
      → HasUniqueKeys job_id db.jobs
      → HasUniqueKeys job_id (process_worker reported now threshold w db).0.jobs
  unfolding process_worker mark_offline
  process_worker_unique w db u =
      elim (Bool-cases
        (reports_none (reported (length (keep_if (updates_worker threshold w) db.workers))))) [
          | inl e ↦ rw e u
          | inr e ↦ rw e (
              release_stale_jobs_unique (keep_if (is_releasable now w) db.jobs)
                (mark_offline threshold w db) u)
        ]

  module _ (c : Config) (actor : String) where
    process_worker-RowsMove :
        (w : Worker) (db : Database)
        → HasUniqueKeys job_id db.jobs
        → RowsMove c now actor db.jobs (process_worker reported now threshold w db).0.jobs
    unfolding process_worker mark_offline
    process_worker-RowsMove w db u =
        elim (Bool-cases
          (reports_none (reported (length (keep_if (updates_worker threshold w) db.workers))))) [
            | inl e ↦ rw e (RowsMove-refl c now actor db.jobs)
            | inr e ↦ rw e (
                release_stale_jobs-RowsMove c now actor (keep_if (is_releasable now w) db.jobs)
                  (mark_offline threshold w db)
                  (All-map (λ j h. (j, h.0, is_releasable-is_overdue now w j h.1))
                    (keep_if (is_releasable now w) db.jobs)
                    (All-keep_if job_id (is_releasable now w) db.jobs u)))
          ]

    process_workers-RowsMove :
        (ws : List Worker) (db : Database)
        → HasUniqueKeys job_id db.jobs
        → RowsMove c now actor db.jobs (process_workers reported now threshold ws db).0.jobs
    unfolding process_workers
    process_workers-RowsMove [] db u = RowsMove-refl c now actor db.jobs
    process_workers-RowsMove (w ∷ ws) db u =
        let db' = (process_worker reported now threshold w db).0 in
        RowsMove-trans c now actor db.jobs db'.jobs
          (process_workers reported now threshold ws db').0.jobs (process_worker-RowsMove w db u)
          (process_workers-RowsMove ws db' (process_worker_unique w db u))

-- A check for offline workers moves the jobs by the protocol, whichever worker the moves are laid to:
-- none of them is an owner's.
pub detect-RowsMove :
    (c : Config) (reported : ℕ → Option ℕ) (now : ℕ) (skip : Bool) (start : Option ℕ)
    (actor : String) (db : Database)
    → HasUniqueKeys job_id db.jobs
    → RowsMove c now actor db.jobs
        (detect_and_release_stale_jobs c reported now skip start (λ d. d) db).0.jobs
unfolding detect_and_release_stale_jobs
detect-RowsMove c reported now skip start actor db u =
    elim (Bool-cases (not skip && in_grace c now start)) [
      | inl e ↦ rw e (RowsMove-refl c now actor db.jobs)
      | inr e ↦ rw e (
          process_workers-RowsMove reported now (now - c.offline_threshold) c actor
            (keep_if (is_stale (now - c.offline_threshold)) db.workers) db u)
    ]
