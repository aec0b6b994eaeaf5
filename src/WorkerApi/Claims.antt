-- ===== src/WorkerApi/Claims.antt =====
-- api/worker_api.py: what a successful request for a job has found and leaves behind.
use vlog.Prelude.{
  ℕ, Bool, true, Option, none, some, ◌≡◌, ◌+◌, ◌⊎◌, refl, sym, ap, ◌∙◌, arith, Bool-cases,
  Option-cases, inl, inr,
}
use vlog.Prelude.Tables.{HasUniqueKeys, set_if, fetch-update_where, fetch-update_key}
use vlog.WorkerApi.Schema.{
  Video, Job, Worker, Database, Moment, Config, Reply, ok, http_error, RetranscodeMetadata, plan,
}
use vlog.WorkerApi.Refusal.{claimed, Claimed, ClaimReply, refusal}
use vlog.WorkerApi.Claim.{
  claim_lapsed, release_claim, release_lapsed, claimable, select_job, set_claim, record_claim,
  claim_selected, claim_transaction, claim_response, clear_metadata, retranscode_cleanup,
  after_claim, finish_claim, try_claim, claim_job,
}
use vlog.WorkerApi.Guards.{job_of}
use vlog.WorkerApi.Selection.{job_id, select_job-IsCandidate}
use vlog.WorkerApi.Refinement.Claiming.{release_lapsed_unique, claimed_row}

-- A job before and after a worker was given it.
pub record IsGranted (c : Config) (now : ℕ) (w : Worker) (j i : Job) : Type 0 where
  pub open_ : j.completed_at ≡ none
  pub free : (j.claimed_at ≡ none) ⊎ (claim_lapsed now j ≡ true)
  pub owner : i.worker_id ≡ some w.worker_id
  pub claimed : i.claimed_at ≡ some now
  pub expiry : i.claim_expires_at ≡ some (now + c.claim_duration)
  pub attempt : i.attempt_number ≡ j.attempt_number

-- Before the request, seen through the release of lapsed claims.
released_from :
    (now : ℕ) (db : Database) (k : ℕ) (job : Job)
    → job_of k (release_lapsed now db) ≡ some job
    → job.claimed_at ≡ none
    → (j : Job) × (job_of k db ≡ some j)
      × ((j.claimed_at ≡ none) ⊎ (claim_lapsed now j ≡ true))
      × (j.completed_at ≡ job.completed_at)
      × (j.attempt_number ≡ job.attempt_number)
unfolding release_lapsed release_claim
released_from now db k job h free =
    go (job_of k db) refl
      (sym (fetch-update_where job_id (claim_lapsed now) release_claim (λ x. refl) k db.jobs) ∙ h)
  where
    go :
        (r : Option Job)
        → job_of k db ≡ r
        → set_if (claim_lapsed now) release_claim r ≡ some job
        → (j : Job) × (job_of k db ≡ some j)
          × ((j.claimed_at ≡ none) ⊎ (claim_lapsed now j ≡ true))
          × (j.completed_at ≡ job.completed_at)
          × (j.attempt_number ≡ job.attempt_number)
    go none e q = cc
    go (some j) e q = elim (Bool-cases (claim_lapsed now j)) [
      | inl l ↦
          let same : release_claim j ≡ job = cc (rw l at q) in
          (
            j,
            e,
            inr l,
            ap (λ (x : Job). x.completed_at) same,
            ap (λ (x : Job). x.attempt_number) same,
          )
      | inr l ↦
          let same : j ≡ job = cc (rw l at q) in
          (
            j,
            e,
            inl (ap (λ (x : Job). x.claimed_at) same ∙ free),
            ap (λ (x : Job). x.completed_at) same,
            ap (λ (x : Job). x.attempt_number) same,
          )
    ]

claimable_free :
    (j : Job) (v : Video) → claimable j v ≡ true → (j.claimed_at ≡ none) × (j.completed_at ≡ none)
unfolding claimable
claimable_free j v h = ground arith

replied_id : Reply ClaimReply → ℕ
replied_id (http_error e) = 0
replied_id (ok (claimed r)) = r.job_id
replied_id (ok _) = 0

refusal-ne-claimed :
    (c : Config) (now : ℕ) (w : Worker) (db : Database) (r : Claimed)
    → refusal c now w db.workers ≡ some (claimed r)
    → ⊥
unfolding refusal
refusal-ne-claimed c now w db r h = ground arith

-- The reply `claimed` names the job, and the clean-up leaves the fields of its claim.
module _ (c : Config) (now : ℕ) (w : Worker) (files_ok : Bool) where
  IsTaken : Job → Database × Reply ClaimReply → Claimed → Type 0
  IsTaken job out r =
      (r.job_id ≡ job.id)
      × ((i : Job) × (job_of job.id out.0 ≡ some i)
          × (i.worker_id ≡ some w.worker_id)
          × (i.claimed_at ≡ some now)
          × (i.claim_expires_at ≡ some (now + c.claim_duration))
          × (i.attempt_number ≡ job.attempt_number))

  after_claim-IsTaken :
      (meta : Option RetranscodeMetadata) (job : Job) (db : Database) (r : Claimed)
      → job_of job.id db ≡ some (set_claim c now w job)
      → (after_claim c now files_ok meta job db).1 ≡ ok (claimed r)
      → IsTaken job (after_claim c now files_ok meta job db) r
  unfolding replied_id after_claim claim_response IsTaken set_claim retranscode_cleanup
      clear_metadata
  after_claim-IsTaken none job db r found h =
      (sym (ap replied_id h), (set_claim c now w job, found, refl, refl, refl, refl))
  after_claim-IsTaken (some RetranscodeMetadata.malformed) job db r found h = cc
  after_claim-IsTaken (some (plan p)) job db r found h = elim (Bool-cases files_ok) [
    | inl e ↦
        rw (e, after_claim)
          (
            sym (ap replied_id (rw (e, after_claim) at h)),
            (
              clear_metadata (set_claim c now w job),
              fetch-update_key job_id job.id clear_metadata db.jobs (set_claim c now w job)
                  (λ x. refl) found,
              refl,
              refl,
              refl,
              refl,
            ),
          )
    | inr e ↦
        rw (e, after_claim)
          (
            sym (ap replied_id (rw (e, after_claim) at h)),
            (set_claim c now w job, found, refl, refl, refl, refl),
          )
  ]

  -- From the row of the released table on.
  taken-IsGranted :
      (db : Database) (job : Job) (v : Video) (out : Database × Reply ClaimReply) (r : Claimed)
      → job_of job.id (release_lapsed now db) ≡ some job
      → claimable job v ≡ true
      → IsTaken job out r
      → (j i : Job) × (job_of r.job_id db ≡ some j)
        × (job_of r.job_id out.0 ≡ some i)
        × IsGranted c now w j i
  unfolding IsTaken
  taken-IsGranted db job v out r found can (id, t) =
      let (i, after, owner, claimed_, expiry, attempt) = t in
      let (unclaimed, open_) = claimable_free job v can in
      let (j, before, free, completed, same) = released_from now db job.id job found unclaimed in
      (
        j,
        i,
        rw id before,
        rw id after,
        record {
          open_ = completed ∙ open_;
          free = free;
          owner = owner;
          claimed = claimed_;
          expiry = expiry;
          attempt = attempt ∙ sym same;
        },
      )

module _ (c : Config) (m : Moment) (taken : ℕ → Bool) (files_ok : Bool) (wanted : Option ℕ)
    (w : Worker) (db : Database) (unique : HasUniqueKeys job_id db.jobs) (r : Claimed) where
  selected-IsGranted :
      (s : Option (Job × Video))
      → select_job taken wanted (release_lapsed m.now db).videos (release_lapsed m.now db).jobs ≡ s
      → (finish_claim c m.now files_ok (claim_selected c m.now w (release_lapsed m.now db) s)).1
        ≡ ok (claimed r)
      → (j i : Job) × (job_of r.job_id db ≡ some j)
        × (job_of r.job_id
              (finish_claim c m.now files_ok
                (claim_selected c m.now w (release_lapsed m.now db) s)).0
            ≡ some i)
        × IsGranted c m.now w j i
  unfolding claim_selected finish_claim
  selected-IsGranted none e h = cc
  selected-IsGranted (some (job, v)) e h =
      let released = release_lapsed m.now db in
      let (found, is) =
        select_job-IsCandidate taken wanted released.videos released.jobs job v
          (release_lapsed_unique m.now db unique) e in
      taken-IsGranted c m.now w files_ok db job v
        (after_claim c m.now files_ok job.retranscode_metadata job
          (record_claim c m.now w job released))
        r found is.claimable_
        (after_claim-IsTaken c m.now w files_ok job.retranscode_metadata job
          (record_claim c m.now w job released) r
          (claimed_row c m taken files_ok wanted w released job found) h)

  try_claim-IsGranted :
      (try_claim c m taken files_ok wanted w db).1 ≡ ok (claimed r)
      → (j i : Job) × (job_of r.job_id db ≡ some j)
        × (job_of r.job_id (try_claim c m taken files_ok wanted w db).0 ≡ some i)
        × IsGranted c m.now w j i
  unfolding try_claim claim_transaction
  try_claim-IsGranted h = elim (Bool-cases m.locked) [
    | inl e ↦ cc (rw (e, try_claim) at h)
    | inr e ↦
        let released = release_lapsed m.now db in
        rw (e, try_claim)
          (selected-IsGranted (select_job taken wanted released.videos released.jobs) refl
            (rw (e, try_claim) at h))
  ]

  -- Where `claim_job` answers with a job, that job was not completed and either had no claim or one
  -- that had run out; it now belongs to the worker, until the claim duration has passed, at the
  -- attempt that it had.
  pub claim_job-IsGranted :
      (claim_job c m taken files_ok wanted w db).1 ≡ ok (claimed r)
      → (j i : Job) × (job_of r.job_id db ≡ some j)
        × (job_of r.job_id (claim_job c m taken files_ok wanted w db).0 ≡ some i)
        × IsGranted c m.now w j i
  unfolding claim_job
  claim_job-IsGranted h = elim (Option-cases (refusal c m.now w db.workers)) [
    | inl e ↦ rw (e, claim_job) (try_claim-IsGranted (rw (e, claim_job) at h))
    | inr (x, e) ↦
        let same : x ≡ claimed r = cc (rw (e, claim_job) at h) in
        absurd (refusal-ne-claimed c m.now w db r (e ∙ ap some same))
  ]
