-- ===== src/WorkerApi/Failure.antt =====
-- api/worker_api.py: what `fail_job` leaves of a job and of its video.
use vlog.Prelude.{
  ℕ, true, false, Option, none, some, ◌≡◌, ◌≢◌, ◌<◌, ◌≤◌, ◌+◌, ◌⊎◌, refl, ap, ◌∙◌, arith,
  Bool-cases, inl, inr,
}
use vlog.Prelude.Tables.{fetch, update_key, fetch-key, fetch-update_key}
use vlog.JobState.Rows.{row}
use vlog.JobState.Machine.{get_state, can_claim}
use vlog.JobState.Machine as Machine
use vlog.JobState.Rows as Rows
use vlog.WorkerApi.Schema.{Video, pending, Job, Worker, Database, Moment, ok, is_owner, job_row}
use vlog.WorkerApi.Claim.{claimable}
use vlog.WorkerApi.Guards.{◌>>=◌, job_of, claim_expired, unexpired}
use vlog.WorkerApi.Fail.{
  FailRequest, will_retry, fail_reply, set_retry, set_final, set_pending, retry_transaction,
  final_transaction, failable, fail_job,
}
use vlog.WorkerApi.Selection.{job_id}
use vlog.WorkerApi.Completion.{owned_job_of}

abbrev pub video_of : ℕ → Database → Option Video
video_of k db = fetch (λ (v : Video). v.id) k db.videos

-- What a failure report leaves of the job: open for another attempt, or closed for good.
abbrev pub IsReset : Job → Job → Type 0
IsReset j i =
    (i.attempt_number ≡ j.attempt_number + 1)
    × (i.claimed_at ≡ none)
    × (i.claim_expires_at ≡ none)
    × (i.worker_id ≡ none)
    × (i.completed_at ≡ j.completed_at)

abbrev pub IsClosed : ℕ → Job → Job → Type 0
IsClosed now j i =
    (i.attempt_number ≡ j.attempt_number)
    × (i.claimed_at ≡ none)
    × (i.claim_expires_at ≡ none)
    × (i.completed_at ≡ some now)

pub update_row :
    (k : ℕ) (f : Job → Job) (db : Database) (j : Job)
    → ((x : Job) → (f x).id ≡ x.id)
    → job_of k db ≡ some j
    → fetch job_id k (update_key job_id j.id f db.jobs) ≡ some (f j)
update_row k f db j keeps found =
    ap (λ x. fetch job_id k (update_key job_id x f db.jobs)) (fetch-key job_id k db.jobs j found)
    ∙ fetch-update_key job_id k f db.jobs j keeps found

failable_of :
    (now k : ℕ) (w : Worker) (db : Database) (j : Job)
    → job_of k db ≡ some j
    → is_owner j.worker_id w.worker_id ≡ true
    → claim_expired now j ≡ false
    → failable now k w db ≡ ok j
unfolding failable unexpired
failable_of now k w db j found owner live = rw (owned_job_of k w db j found owner, live, ◌>>=◌)

will_retry-true :
    (d : FailRequest) (j : Job)
    → will_retry d j ≡ true
    → (d.retry ≡ true) × (j.attempt_number < j.max_attempts)
unfolding will_retry
will_retry-true d j e = ground arith

will_retry-false :
    (d : FailRequest) (j : Job)
    → will_retry d j ≡ false
    → (d.retry ≡ false) ⊎ (j.max_attempts ≤ j.attempt_number)
unfolding will_retry
will_retry-false d j e = ground arith

will_retry_of :
    (d : FailRequest) (j : Job)
    → d.retry ≡ true
    → j.attempt_number < j.max_attempts
    → will_retry d j ≡ true
unfolding will_retry
will_retry_of d j r lt = ground arith

module _ (m : Moment) (k : ℕ) (d : FailRequest) (w : Worker) (db : Database) (j : Job)
    (found : job_of k db ≡ some j) (owner : is_owner j.worker_id w.worker_id ≡ true)
    (live : claim_expired m.now j ≡ false) (unlocked : m.locked ≡ false) where
  retried :
      will_retry d j ≡ true
      → fail_job m k d w db ≡ (retry_transaction d w j db, ok (fail_reply true j))
  unfolding fail_job
  retried again = rw (failable_of m.now k w db j found owner live, unlocked, again, fail_job)

  pub closed :
      will_retry d j ≡ false
      → fail_job m k d w db ≡ (final_transaction d m.now w j db, ok (fail_reply false j))
  unfolding fail_job
  closed last = rw (failable_of m.now k w db j found owner live, unlocked, last, fail_job)

  -- A failure report of the owner within its claim, on a database that can be written: if a retry is
  -- asked for and attempts are left, the job is freed for the next attempt, as completed as it was;
  -- else it is closed at the attempt that it had. The reply says which, with the attempt that the row
  -- now holds.
  pub fail_job-outcome :
      (i : Job) × (job_of k (fail_job m k d w db).0 ≡ some i)
      × (((fail_job m k d w db).1
              ≡ ok (record { will_retry = true; attempt_number = i.attempt_number }))
            × (d.retry ≡ true)
            × (j.attempt_number < j.max_attempts)
            × IsReset j i
          ⊎ ((fail_job m k d w db).1
              ≡ ok (record { will_retry = false; attempt_number = i.attempt_number }))
            × ((d.retry ≡ false) ⊎ (j.max_attempts ≤ j.attempt_number))
            × IsClosed m.now j i)
  unfolding retry_transaction final_transaction set_retry set_final fail_reply
  fail_job-outcome = elim (Bool-cases (will_retry d j)) [
    | inl e ↦ (
      set_retry d j.attempt_number j,
      rw (retried e) (update_row k (set_retry d j.attempt_number) db j (λ x. refl) found),
      inl (
        rw (retried e),
        (will_retry-true d j e).0,
        (will_retry-true d j e).1,
        (refl, refl, refl, refl, refl),
      ),
    )
    | inr e ↦ (
      set_final d m.now j,
      rw (closed e) (update_row k (set_final d m.now) db j (λ x. refl) found),
      inr (rw (closed e) (ground arith), will_retry-false d j e, (refl, refl, refl, refl)),
    )
  ]

  -- A retry asked for on a job that is already completed, while attempts are left: the endpoint
  -- accepts it and sets the job's video to pending, but the job stays completed, so the WHERE clause
  -- of `claim_job` excludes it with any video.
  pub completed_then_failed :
      (v : Video)
      → d.retry ≡ true
      → j.attempt_number < j.max_attempts
      → j.completed_at ≢ none
      → video_of j.video_id db ≡ some v
      → (i : Job) × (u : Video) × (job_of k (fail_job m k d w db).0 ≡ some i)
        × (video_of j.video_id (fail_job m k d w db).0 ≡ some u)
        × (u.status ≡ pending)
        × ((x : Video) → claimable i x ≡ false)
  unfolding retry_transaction set_retry set_pending claimable
  completed_then_failed v retry left done video =
      let e = retried (will_retry_of d j retry left) in
      (
        set_retry d j.attempt_number j,
        set_pending v,
        rw e (update_row k (set_retry d j.attempt_number) db j (λ x. refl) found),
        rw e (
            fetch-update_key (λ (x : Video). x.id) j.video_id set_pending db.videos v (λ x. refl)
              video),
        refl,
        λ x. ground arith,
      )

  -- A retry that leaves the job its last attempt: `claim_job` takes the job with any pending video
  -- that is not deleted, while api/job_state.py holds the job for failed and not claimable.
  pub last_attempt_disagrees :
      (now clock : ℕ)
      → d.retry ≡ true
      → j.attempt_number + 1 ≡ j.max_attempts
      → j.completed_at ≡ none
      → (i : Job) × (job_of k (fail_job m k d w db).0 ≡ some i)
        × (get_state (row (job_row i)) (some now) clock ≡ Machine.ok Rows.failed)
        × (can_claim (row (job_row i)) (some now) ≡ false)
        × ((x : Video) → x.status ≡ pending → x.deleted_at ≡ none → claimable i x ≡ true)
  unfolding retry_transaction set_retry claimable get_state can_claim job_row
  last_attempt_disagrees now clock retry last open_ =
      let e = retried (will_retry_of d j retry (omega arith)) in
      (
        set_retry d j.attempt_number j,
        rw e (update_row k (set_retry d j.attempt_number) db j (λ x. refl) found),
        ground arith,
        ground arith,
        λ x p q. ground arith,
      )
