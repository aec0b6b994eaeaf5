-- ===== src/WorkerApi/Refinement/Reports.antt =====
-- api/worker_api.py: `update_progress`, `complete_job` and `fail_job` follow the lease protocol.
use vlog.Prelude.{ℕ, true, false, none, ◌≡◌, ◌<◌, refl, arith, Bool-cases, Option-cases, inl, inr}
use vlog.WorkerApi.Schema.{Job, Worker, Database, Moment, Config}
use vlog.WorkerApi.Guards.{claim_expired, owned_job}
use vlog.WorkerApi.Progress.{
  ProgressRequest, set_progress, store_progress, reportable, update_progress,
}
use vlog.WorkerApi.Complete.{
  CompleteRequest, Redis, set_completed, complete_transaction, queue_sprites, finish_complete,
  complete_owned, complete_job, Acquired, acquired, not_acquired, in_use, acquire,
}
use vlog.WorkerApi.Fail.{
  FailRequest, will_retry, set_retry, set_final, retry_transaction, final_transaction, failable,
  fail_job,
}
use vlog.WorkerApi.Protocol.{
  MayReport, stay, then, report, complete, retry, give_up, RowsMove, RowsMove-refl,
  RowsMove-update_key,
}
use vlog.WorkerApi.Refinement.Own.{
  Reply-cases, IsOwn, owned_job-IsOwn, reportable-IsOwn, failable-IsOwn,
}

-- A progress report moves the jobs by the protocol.
pub update_progress-RowsMove :
    (c : Config) (now k : ℕ) (d : ProgressRequest) (w : Worker) (db : Database)
    → RowsMove c now w.worker_id db.jobs (update_progress c now k d w db).0.jobs
unfolding update_progress store_progress set_progress
update_progress-RowsMove c now k d w db = elim (Reply-cases (reportable now k w db)) [
  | inl (e, q) ↦ rw (q, update_progress) (RowsMove-refl c now w.worker_id db.jobs)
  | inr (job, q) ↦
      let (own, live) = reportable-IsOwn now k w db job q in
      rw (q, update_progress)
        (RowsMove-update_key c now w.worker_id job.id (set_progress c now d) db.jobs job (λ x. refl)
          own.found_self (then stay (report d job (record { owner = own.owner; live = live }))))
]

module _ (c : Config) (m : Moment) (k : ℕ) (d : FailRequest) (w : Worker) (db : Database) where
  will_retry-lt : (job : Job) → will_retry d job ≡ true → job.attempt_number < job.max_attempts
  unfolding will_retry
  will_retry-lt job h = ground arith

  -- A failure report moves the jobs by the protocol.
  pub fail_job-RowsMove : RowsMove c m.now w.worker_id db.jobs (fail_job m k d w db).0.jobs
  unfolding fail_job retry_transaction final_transaction set_retry set_final
  fail_job-RowsMove = elim (Reply-cases (failable m.now k w db)) [
    | inl (e, q) ↦ rw (q, fail_job) (RowsMove-refl c m.now w.worker_id db.jobs)
    | inr (job, q) ↦
        let (own, live) = failable-IsOwn m.now k w db job q in
        let may : MayReport c m.now w.worker_id job = record { owner = own.owner; live = live } in
        elim (Bool-cases m.locked) [
          | inl l ↦ rw (q, l, fail_job) (RowsMove-refl c m.now w.worker_id db.jobs)
          | inr l ↦ elim (Bool-cases (will_retry d job)) [
            | inl r ↦
                rw (q, l, r, fail_job)
                  (RowsMove-update_key c m.now w.worker_id job.id (set_retry d job.attempt_number)
                    db.jobs job (λ x. refl) own.found_self
                    (then stay (retry d job may (will_retry-lt job r))))
            | inr r ↦
                rw (q, l, r, fail_job)
                  (RowsMove-update_key c m.now w.worker_id job.id (set_final d m.now) db.jobs job
                    (λ x. refl) own.found_self (then stay (give_up d job may)))
          ]
        ]
  ]

queue_sprites-jobs :
    (c : Config) (job : Job) (db : Database) → (queue_sprites c job db).jobs ≡ db.jobs
unfolding queue_sprites
queue_sprites-jobs c job db = ground arith

module _ (c : Config) (m : Moment) (k : ℕ) (d : CompleteRequest) (w : Worker) (db : Database) where
  module _ (job : Job) (own : IsOwn k w db job) (uncompleted : job.completed_at ≡ none) where
    completed-RowsMove :
        claim_expired m.now job ≡ false
        → RowsMove c m.now w.worker_id db.jobs
            (queue_sprites c job (complete_transaction m.now d w job db)).jobs
    unfolding complete_transaction set_completed
    completed-RowsMove live =
        rw (queue_sprites-jobs c job (complete_transaction m.now d w job db)) (
          RowsMove-update_key c m.now w.worker_id job.id (set_completed m.now) db.jobs job
            (λ x. refl) own.found_self
            (then stay (complete job (record { owner = own.owner; live = live }) uncompleted)))

    finish_complete-RowsMove :
        (a : Acquired) (r : Redis)
        → RowsMove c m.now w.worker_id db.jobs (finish_complete c m d w job a db r).0.jobs
    unfolding finish_complete
    finish_complete-RowsMove in_use r = RowsMove-refl c m.now w.worker_id db.jobs
    finish_complete-RowsMove acquired r = elim (Bool-cases (claim_expired m.now job)) [
      | inl e ↦ rw e (RowsMove-refl c m.now w.worker_id db.jobs)
      | inr e ↦ elim (Bool-cases m.locked) [
        | inl l ↦ rw (e, l) (RowsMove-refl c m.now w.worker_id db.jobs)
        | inr l ↦ rw (e, l) (completed-RowsMove e)
      ]
    ]
    finish_complete-RowsMove not_acquired r = elim (Bool-cases (claim_expired m.now job)) [
      | inl e ↦ rw e (RowsMove-refl c m.now w.worker_id db.jobs)
      | inr e ↦ elim (Bool-cases m.locked) [
        | inl l ↦ rw (e, l) (RowsMove-refl c m.now w.worker_id db.jobs)
        | inr l ↦ rw (e, l) (completed-RowsMove e)
      ]
    ]

  complete_owned-RowsMove :
      (job : Job) (r : Redis)
      → IsOwn k w db job
      → RowsMove c m.now w.worker_id db.jobs (complete_owned c m d w job db r).0.jobs
  unfolding complete_owned
  complete_owned-RowsMove job r own = elim (Option-cases job.completed_at) [
    | inl e ↦
        rw (e, complete_owned)
          (finish_complete-RowsMove job own e (acquire m.now job.id d.completion_token r).1
            (acquire m.now job.id d.completion_token r).0)
    | inr (t, e) ↦ rw (e, complete_owned) (RowsMove-refl c m.now w.worker_id db.jobs)
  ]

  -- A completion report moves the jobs by the protocol.
  pub complete_job-RowsMove :
      (r : Redis) → RowsMove c m.now w.worker_id db.jobs (complete_job c m k d w db r).0.jobs
  unfolding complete_job
  complete_job-RowsMove r = elim (Reply-cases (owned_job k w db)) [
    | inl (e, q) ↦ rw (q, complete_job) (RowsMove-refl c m.now w.worker_id db.jobs)
    | inr (job, q) ↦
        rw (q, complete_job) (complete_owned-RowsMove job r (owned_job-IsOwn k w db job q))
  ]
