-- ===== src/WorkerApi/Refinement/Own.antt =====
-- api/worker_api.py: the job that the guards hand on.
use mathlib.Core.Path.{subst}
use vlog.Prelude.{ℕ, true, false, some, ◌≡◌, refl, arith, Bool-cases, inl, inr, sym, ap, ◌∙◌, ◌⊎◌}
use vlog.Prelude.Tables.{fetch-key}
use vlog.WorkerApi.Schema.{Job, Worker, Database, Reply, ok, http_error, is_owner}
use vlog.WorkerApi.Guards.{◌>>=◌, job_of, owned_job, claim_expired, unexpired}
use vlog.WorkerApi.Progress.{reportable}
use vlog.WorkerApi.Fail.{failable}
use vlog.WorkerApi.Selection.{job_id}

pub Reply-cases {ℓ} :
    {A : Type ℓ} (r : Reply A) → ((e : ℕ) × (r ≡ http_error e)) ⊎ ((a : A) × (r ≡ ok a))
Reply-cases (http_error e) = inl (e, refl)
Reply-cases (ok a) = inr (a, refl)

-- The row with the requested id, which the requesting worker owns.
pub record IsOwn (k : ℕ) (w : Worker) (db : Database) (job : Job) : Type 0 where
  pub found : job_of k db ≡ some job
  pub found_self : job_of job.id db ≡ some job
  pub id : job.id ≡ k
  pub owner : is_owner job.worker_id w.worker_id ≡ true

pub owned_job-IsOwn :
    (k : ℕ) (w : Worker) (db : Database) (job : Job) → owned_job k w db ≡ ok job → IsOwn k w db job
unfolding owned_job
owned_job-IsOwn k w db job h =
    let found : job_of k db ≡ some job = ground arith in
    let e : job.id ≡ k = fetch-key job_id k db.jobs job found in
    record {
      found = found;
      found_self = subst (λ i. job_of i db ≡ some job) (sym e) found;
      id = e;
      owner = ground arith;
    }

pub reportable-IsOwn :
    (now k : ℕ) (w : Worker) (db : Database) (job : Job)
    → reportable now k w db ≡ ok job
    → IsOwn k w db job × (claim_expired now job ≡ false)
unfolding reportable unexpired
reportable-IsOwn now k w db job h = elim (Reply-cases (owned_job k w db)) [
  | inl (e, q) ↦ cc (rw q at h)
  | inr (j, q) ↦ elim (Bool-cases (claim_expired now j)) [
    | inl c ↦ cc (rw (q, c, ◌>>=◌) at h)
    | inr c ↦
        let e : j ≡ job = cc (rw (q, c, ◌>>=◌) at h) in
        (owned_job-IsOwn k w db job (q ∙ ap ok e), subst (λ x. claim_expired now x ≡ false) e c)
  ]
]

pub failable-IsOwn :
    (now k : ℕ) (w : Worker) (db : Database) (job : Job)
    → failable now k w db ≡ ok job
    → IsOwn k w db job × (claim_expired now job ≡ false)
unfolding failable reportable
failable-IsOwn = reportable-IsOwn
