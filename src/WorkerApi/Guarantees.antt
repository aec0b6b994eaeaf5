-- ===== src/WorkerApi/Guarantees.antt =====
-- What the worker API guarantees over any sequence of requests.
use vlog.Prelude.{ℕ, String, none, some, List, [], ◌∷◌, ◌≡◌, ◌≢◌, ◌≤◌, All}
use vlog.Prelude.Tables.{EachRow, HasUniqueKeys}
use vlog.WorkerApi.Schema.{Job, Moment, Config}
use vlog.WorkerApi.Guards.{job_of}
use vlog.WorkerApi.Selection.{job_id}
use vlog.WorkerApi.Protocol.{RowsMove}
use vlog.WorkerApi.Leases.{JobOk, RowsMove-JobOk, RowsMove-IsLeased}
use vlog.WorkerApi.Refinement.Reports.{
  update_progress-RowsMove, fail_job-RowsMove, complete_job-RowsMove,
}
use vlog.WorkerApi.Refinement.Claiming.{claim_job-RowsMove}
use vlog.WorkerApi.Refinement.Sweeping.{detect-RowsMove}
use vlog.WorkerApi.System.{Server, Request, claim, progress, complete, fail, check, serve, run}

-- The worker that makes a request; a check for offline workers is made by none, written "".
abbrev pub actor : Request → String
actor (claim taken files_ok wanted w) = w.worker_id
actor (progress k d w) = w.worker_id
actor (complete k d w) = w.worker_id
actor (fail k d w) = w.worker_id
actor (check reported skip start) = ""

-- The primary key of the jobs holds, and the invariant of each job.
pub record IsSound (s : Server) : Type 0 where
  pub unique : HasUniqueKeys job_id s.db.jobs
  pub jobs : EachRow job_id JobOk s.db.jobs

-- Every request, with every outcome, moves the jobs by the lease protocol.
pub serve-RowsMove :
    (c : Config) (m : Moment) (r : Request) (s : Server)
    → HasUniqueKeys job_id s.db.jobs
    → RowsMove c m.now (actor r) s.db.jobs (serve c m r s).db.jobs
unfolding serve
serve-RowsMove c m (claim taken files_ok wanted w) s u =
    claim_job-RowsMove c m taken files_ok wanted w s.db u
serve-RowsMove c m (progress k d w) s u = update_progress-RowsMove c m.now k d w s.db
serve-RowsMove c m (complete k d w) s u = complete_job-RowsMove c m k d w s.db s.redis
serve-RowsMove c m (fail k d w) s u = fail_job-RowsMove c m k d w s.db
serve-RowsMove c m (check reported skip start) s u =
    detect-RowsMove c reported m.now skip start "" s.db u

pub serve-IsSound :
    (c : Config) (m : Moment) (r : Request) (s : Server) → IsSound s → IsSound (serve c m r s)
serve-IsSound c m r s h =
    let moves = serve-RowsMove c m r s h.unique in
    record {
      unique = moves.unique h.unique;
      jobs = RowsMove-JobOk c m.now (actor r) s.db.jobs (serve c m r s).db.jobs moves h.jobs;
    }

-- After any requests, from a sound server: job ids are unique, no job has more attempts than its
-- maximum, and a job that is not completed has a claim, an expiry and an owner together or none.
pub run-IsSound :
    (c : Config) (rs : List (Moment × Request)) (s : Server) → IsSound s → IsSound (run c rs s)
unfolding run
run-IsSound c [] s h = h
run-IsSound c ((m, r) ∷ rs) s h = run-IsSound c rs (serve c m r s) (serve-IsSound c m r s h)

-- Made by another worker than `v`, no later than `t`.
abbrev pub IsForeign : String → ℕ → Moment × Request → Type 0
IsForeign v t e = (v ≢ actor e.1) × (e.0.now ≤ t)

-- The lease: while the claim of a worker on a job runs, no sequence of requests of other workers and
-- of checks for offline workers, each made by the time of expiry, changes the job's row at all.
pub run-lease :
    (c : Config) (rs : List (Moment × Request)) (s : Server) (v : String) (k t : ℕ) (j : Job)
    → HasUniqueKeys job_id s.db.jobs
    → job_of k s.db ≡ some j
    → j.worker_id ≡ some v
    → j.claimed_at ≢ none
    → j.claim_expires_at ≡ some t
    → All (IsForeign v t) rs
    → job_of k (run c rs s).db ≡ some j
unfolding run
run-lease c [] s v k t j u found owner claimed expiry foreign = found
run-lease c ((m, r) ∷ rs) s v k t j u found owner claimed expiry foreign =
    let moves = serve-RowsMove c m r s u in
    run-lease c rs (serve c m r s) v k t j (moves.unique u)
      (RowsMove-IsLeased c m.now (actor r) s.db.jobs (serve c m r s).db.jobs v k j moves foreign.0.0
        found (record { owner = owner; claimed = claimed; unexpired = (t, expiry, foreign.0.1) }))
      owner claimed expiry foreign.1
