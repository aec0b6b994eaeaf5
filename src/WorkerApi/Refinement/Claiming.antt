-- ===== src/WorkerApi/Refinement/Claiming.antt =====
-- api/worker_api.py: `claim_job` follows the lease protocol.
use vlog.Prelude.{
  ℕ, String, Bool, true, Option, none, some, ◌≡◌, refl, arith, Bool-cases, Option-cases, inl, inr,
}
use vlog.Prelude.Tables.{
  HasUniqueKeys, HasUniqueKeys-update_where, fetch, update_key, fetch-update_key,
}
use vlog.WorkerApi.Schema.{Video, Job, Worker, Database, Moment, Config, RetranscodeMetadata, plan}
use vlog.WorkerApi.Refusal.{refusal}
use vlog.WorkerApi.Claim.{
  claim_lapsed, release_claim, release_lapsed, claimable, select_job, set_claim, record_claim,
  claim_selected, claim_transaction, clear_metadata, retranscode_cleanup, after_claim, finish_claim,
  try_claim, claim_job,
}
use vlog.WorkerApi.Selection.{job_id, select_job-IsCandidate}
use vlog.WorkerApi.Protocol.{
  stay, then, lapse, grant, clean, RowsMove, RowsMove-refl, RowsMove-trans, RowsMove-update_key,
  RowsMove-update_where,
}

pub release_lapsed_unique :
    (now : ℕ) (db : Database)
    → HasUniqueKeys job_id db.jobs
    → HasUniqueKeys job_id (release_lapsed now db).jobs
unfolding release_lapsed release_claim
release_lapsed_unique now db u =
    HasUniqueKeys-update_where job_id (claim_lapsed now) release_claim (λ x. refl) db.jobs u

module _ (c : Config) (now : ℕ) (actor : String) (db : Database) where
  release_lapsed-RowsMove : RowsMove c now actor db.jobs (release_lapsed now db).jobs
  unfolding release_lapsed release_claim
  release_lapsed-RowsMove =
      RowsMove-update_where c now actor (claim_lapsed now) release_claim db.jobs (λ x. refl)
        (λ x l. then stay (lapse x l))

claimable_free :
    (j : Job) (v : Video) → claimable j v ≡ true → (j.claimed_at ≡ none) × (j.completed_at ≡ none)
unfolding claimable
claimable_free j v h = ground arith

module _ (c : Config) (m : Moment) (taken : ℕ → Bool) (files_ok : Bool) (wanted : Option ℕ)
    (w : Worker) where
  record_claim-RowsMove :
      (db : Database) (job : Job) (v : Video)
      → fetch job_id job.id db.jobs ≡ some job
      → claimable job v ≡ true
      → RowsMove c m.now w.worker_id db.jobs (record_claim c m.now w job db).jobs
  unfolding record_claim set_claim
  record_claim-RowsMove db job v found free =
      let (unclaimed, open_) = claimable_free job v free in
      RowsMove-update_key c m.now w.worker_id job.id (set_claim c m.now w) db.jobs job (λ x. refl)
        found (then stay (grant w job refl unclaimed open_))

  pub claimed_row :
      (db : Database) (job : Job)
      → fetch job_id job.id db.jobs ≡ some job
      → fetch job_id job.id (record_claim c m.now w job db).jobs ≡ some (set_claim c m.now w job)
  unfolding record_claim set_claim
  claimed_row db job found =
      fetch-update_key job_id job.id (set_claim c m.now w) db.jobs job (λ x. refl) found

  cleared-RowsMove :
      (job mine : Job) (db : Database)
      → fetch job_id job.id db.jobs ≡ some mine
      → mine.worker_id ≡ some w.worker_id
      → RowsMove c m.now w.worker_id db.jobs (update_key job_id job.id clear_metadata db.jobs)
  unfolding clear_metadata
  cleared-RowsMove job mine db found owner =
      RowsMove-update_key c m.now w.worker_id job.id clear_metadata db.jobs mine (λ x. refl) found
        (then stay (clean mine owner))

  -- The clean-up touches the claimed job alone.
  after_claim-RowsMove :
      (meta : Option RetranscodeMetadata) (job mine : Job) (db : Database)
      → fetch job_id job.id db.jobs ≡ some mine
      → mine.worker_id ≡ some w.worker_id
      → RowsMove c m.now w.worker_id db.jobs (after_claim c m.now files_ok meta job db).0.jobs
  unfolding after_claim retranscode_cleanup clear_metadata
  after_claim-RowsMove none job mine db found owner = RowsMove-refl c m.now w.worker_id db.jobs
  after_claim-RowsMove (some RetranscodeMetadata.malformed) job mine db found owner =
      RowsMove-refl c m.now w.worker_id db.jobs
  after_claim-RowsMove (some (plan p)) job mine db found owner = elim (Bool-cases files_ok) [
    | inl e ↦ rw (e, after_claim) (cleared-RowsMove job mine db found owner)
    | inr e ↦ rw (e, after_claim) (RowsMove-refl c m.now w.worker_id db.jobs)
  ]

  claim_selected-RowsMove :
      (db : Database)
      → HasUniqueKeys job_id db.jobs
      → (r : Option (Job × Video)) → select_job taken wanted db.videos db.jobs ≡ r
      → RowsMove c m.now w.worker_id db.jobs
          (finish_claim c m.now files_ok (claim_selected c m.now w db r)).0.jobs
  unfolding claim_selected finish_claim
  claim_selected-RowsMove db unique none e = RowsMove-refl c m.now w.worker_id db.jobs
  claim_selected-RowsMove db unique (some (job, v)) e =
      let (found, is) = select_job-IsCandidate taken wanted db.videos db.jobs job v unique e in
      RowsMove-trans c m.now w.worker_id db.jobs (record_claim c m.now w job db).jobs
        (after_claim c m.now files_ok job.retranscode_metadata job
          (record_claim c m.now w job db)).0.jobs
        (record_claim-RowsMove db job v found is.claimable_)
        (after_claim-RowsMove job.retranscode_metadata job (set_claim c m.now w job)
          (record_claim c m.now w job db) (claimed_row db job found) (unfold set_claim in refl))

  try_claim-RowsMove :
      (db : Database)
      → HasUniqueKeys job_id db.jobs
      → RowsMove c m.now w.worker_id db.jobs (try_claim c m taken files_ok wanted w db).0.jobs
  unfolding try_claim claim_transaction
  try_claim-RowsMove db unique = elim (Bool-cases m.locked) [
    | inl e ↦ rw e (RowsMove-refl c m.now w.worker_id db.jobs)
    | inr e ↦
        let released = release_lapsed m.now db in
        rw e (
          RowsMove-trans c m.now w.worker_id db.jobs released.jobs
            (finish_claim c m.now files_ok (
              claim_selected c m.now w released
                (select_job taken wanted released.videos released.jobs))).0.jobs
            (release_lapsed-RowsMove c m.now w.worker_id db)
            (claim_selected-RowsMove released (release_lapsed_unique m.now db unique)
              (select_job taken wanted released.videos released.jobs) refl))
  ]

  -- A request for a job moves the jobs by the protocol.
  pub claim_job-RowsMove :
      (db : Database)
      → HasUniqueKeys job_id db.jobs
      → RowsMove c m.now w.worker_id db.jobs (claim_job c m taken files_ok wanted w db).0.jobs
  unfolding claim_job
  claim_job-RowsMove db unique = elim (Option-cases (refusal c m.now w db.workers)) [
    | inl e ↦ rw (e, claim_job) (try_claim-RowsMove db unique)
    | inr (r, e) ↦ rw (e, claim_job) (RowsMove-refl c m.now w.worker_id db.jobs)
  ]
