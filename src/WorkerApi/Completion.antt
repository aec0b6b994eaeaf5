-- ===== src/WorkerApi/Completion.antt =====
-- api/worker_api.py: what `complete_job` guarantees to a worker that asks again.
use text.Mathlib.TextPositions.{eq_refl}
use vlog.Prelude.{
  ℕ, String, true, false, none, some, ◌∷◌, ◌≡◌, ◌≢◌, refl, sym, ap, ◌∙◌, arith, Bool-cases,
  Option-cases, inl, inr, find_first, keep_if, List, [], ◌≤◌, ◌+◌, ltb, not, if◌then◌else◌,
}
use vlog.Prelude.Tables.{update_key, fetch-update_key}
use vlog.WorkerApi.Schema.{Job, Worker, Database, Moment, Config, ok, http_error, is_owner}
use vlog.WorkerApi.Guards.{job_of, owned_job, claim_expired}
use vlog.WorkerApi.Complete.{
  CompleteRequest, already_completed, completed, Redis, is_token, set_completed,
  complete_transaction, queue_sprites, finish_complete, complete_owned, complete_job, Acquired,
  acquired, not_acquired, in_use, acquire, Token, is_live_token, processing_token,
  completion_token_ttl,
}
use vlog.WorkerApi.Selection.{job_id}
use vlog.WorkerApi.Refinement.Own.{Reply-cases, IsOwn, owned_job-IsOwn}

-- A worker's own job that is already completed: nothing changes, whatever is sent.
pub owned_job_of :
    (k : ℕ) (w : Worker) (db : Database) (j : Job)
    → job_of k db ≡ some j
    → is_owner j.worker_id w.worker_id ≡ true
    → owned_job k w db ≡ ok j
unfolding owned_job
owned_job_of k w db j found owner = rw (found, owner, owned_job)

module _ (c : Config) (m : Moment) (k : ℕ) (d : CompleteRequest) (w : Worker) (db : Database)
    (r : Redis) where
  completed_stays :
      (j : Job)
      → job_of k db ≡ some j
      → is_owner j.worker_id w.worker_id ≡ true
      → j.completed_at ≢ none
      → complete_job c m k d w db r ≡ (db, r, ok already_completed)
  unfolding complete_job complete_owned
  completed_stays j found owner done = elim (Option-cases j.completed_at) [
    | inl e ↦ absurd (done e)
    | inr (t, e) ↦ rw (owned_job_of k w db j found owner, e, complete_job)
  ]

  -- Queueing sprites leaves the jobs.
  queue_sprites-jobs : (job : Job) (db : Database) → (queue_sprites c job db).jobs ≡ db.jobs
  unfolding queue_sprites
  queue_sprites-jobs job db = ground arith

  -- The row that a completion leaves.
  IsDone : Database → Type 0
  IsDone db' =
      (j : Job) × (i : Job) × (job_of k db ≡ some j)
      × (job_of k db' ≡ some i)
      × (i ≡ set_completed m.now j)
      × (is_owner j.worker_id w.worker_id ≡ true)

  module _ (job : Job) (own : IsOwn k w db job) where
    transaction-IsDone : IsDone (queue_sprites c job (complete_transaction m.now d w job db))
    unfolding IsDone complete_transaction set_completed
    transaction-IsDone = (
      job,
      set_completed m.now job,
      own.found,
      rw (queue_sprites-jobs job (complete_transaction m.now d w job db)) (
          ap
            (λ x. job_of k (record db { jobs = update_key job_id x (set_completed m.now) db.jobs }))
            own.id
          ∙ fetch-update_key job_id k (set_completed m.now) db.jobs job (λ x. refl) own.found),
      refl,
      own.owner,
    )

    finish-IsDone :
        (a : Acquired) (r' : Redis)
        → (finish_complete c m d w job a db r').2 ≡ ok completed
        → IsDone (finish_complete c m d w job a db r').0
    unfolding IsDone finish_complete
    finish-IsDone in_use r' h = cc
    finish-IsDone acquired r' h = elim (Bool-cases (claim_expired m.now job)) [
      | inl e ↦ cc (rw e at h)
      | inr e ↦ elim (Bool-cases m.locked) [
        | inl l ↦ cc (rw (e, l) at h)
        | inr l ↦ rw (e, l) transaction-IsDone
      ]
    ]
    finish-IsDone not_acquired r' h = elim (Bool-cases (claim_expired m.now job)) [
      | inl e ↦ cc (rw e at h)
      | inr e ↦ elim (Bool-cases m.locked) [
        | inl l ↦ cc (rw (e, l) at h)
        | inr l ↦ rw (e, l) transaction-IsDone
      ]
    ]

    owned-IsDone :
        (complete_owned c m d w job db r).2 ≡ ok completed
        → IsDone (complete_owned c m d w job db r).0
    unfolding complete_owned
    owned-IsDone h = elim (Option-cases job.completed_at) [
      | inl e ↦
          rw (e, complete_owned)
            (finish-IsDone (acquire m.now job.id d.completion_token r).1
              (acquire m.now job.id d.completion_token r).0 (rw (e, complete_owned) at h))
      | inr (t, e) ↦ cc (rw (e, complete_owned) at h)
    ]

  complete-IsDone :
      (complete_job c m k d w db r).2 ≡ ok completed → IsDone (complete_job c m k d w db r).0
  unfolding complete_job
  complete-IsDone h = elim (Reply-cases (owned_job k w db)) [
    | inl (e, q) ↦ cc (rw (q, complete_job) at h)
    | inr (job, q) ↦
        rw (q, complete_job)
          (owned-IsDone job (owned_job-IsOwn k w db job q) (rw (q, complete_job) at h))
  ]

-- Once `complete_job` has answered a worker that the job is completed, a further completion of the
-- job by that worker, at any time, with any data and in any state of Redis, changes neither the
-- database nor Redis and is answered as already completed.
pub complete_job-idempotent :
    (c : Config) (m m' : Moment) (k : ℕ) (d d' : CompleteRequest) (w : Worker) (db : Database)
    (r r' : Redis)
    → (complete_job c m k d w db r).2 ≡ ok completed
    → complete_job c m' k d' w (complete_job c m k d w db r).0 r'
      ≡ ((complete_job c m k d w db r).0, r', ok already_completed)
unfolding IsDone set_completed
complete_job-idempotent c m m' k d d' w db r r' h =
    let (j, i, before, after, same, owner) = complete-IsDone c m k d w db r h in
    completed_stays c m' k d' w (complete_job c m k d w db r).0 r' i after
      (rw (ap (λ (x : Job). x.worker_id) same) owner)
      (λ e. cc (sym (ap (λ (x : Job). x.completed_at) same) ∙ e))

is_token_self : (now k : ℕ) (t : String) → is_token k t (processing_token now k t) ≡ true
unfolding is_token processing_token
is_token_self now k t = ground (arith, eq_refl t)

-- The token that a request has set is there until its time to live has ended.
find-processing :
    (now later k : ℕ) (t : String) (rest : List Token)
    → find_first
        (is_live_token later k t)
        (processing_token now k t ∷ keep_if (λ x. not (is_token k t x)) rest)
      ≡ (if ltb later (now + completion_token_ttl) then some (processing_token now k t) else none)
unfolding is_live_token processing_token
find-processing now later k t rest = elim (Bool-cases (ltb later (now + completion_token_ttl))) [
  | inl e ↦ ground (arith, is_token_self now k t, e)
  | inr e ↦ ground (arith, is_token_self now k t, e, none_left rest)
]
  where
    none_left :
        (xs : List Token)
        → find_first (is_live_token later k t) (keep_if (λ x. not (is_token k t x)) xs) ≡ none
    none_left [] = refl
    none_left (x ∷ xs) = ground (arith, none_left xs)

still_expired :
    (now later : ℕ) (j : Job)
    → now ≤ later
    → claim_expired now j ≡ true
    → claim_expired later j ≡ true
unfolding claim_expired
still_expired now later j l h = elim (Option-cases j.claim_expires_at) [
  | inl e ↦ cc (rw e at h)
  | inr (t, e) ↦ let old : ltb t now ≡ true = rw e at h in rw e (ground (arith, old, l))
]

-- A completion with a token that comes after the expiry of the claim is refused with 409 and
-- changes no table, and the token stays in Redis. The same request again, not earlier, changes no
-- table either; it is answered as already completed, though the job is not, for as long as the
-- token lives, which is 900 seconds from the first request, and with 409 after that.
pub expired_token_lies :
    (c : Config) (m m' : Moment) (k : ℕ) (d : CompleteRequest) (t : String) (w : Worker)
    (db : Database) (r : Redis) (j : Job)
    → job_of k db ≡ some j
    → is_owner j.worker_id w.worker_id ≡ true
    → j.completed_at ≡ none
    → claim_expired m.now j ≡ true
    → d.completion_token ≡ some t
    → r.up ≡ true
    → r.faulty ≡ false
    → find_first (is_live_token m.now j.id t) r.tokens ≡ none
    → m.now ≤ m'.now
    → (r' : Redis) × (complete_job c m k d w db r ≡ (db, r', http_error 409))
      × ((complete_job c m' k d w db r').0 ≡ db)
      × ((complete_job c m' k d w db r').2
          ≡ (if ltb m'.now (m.now + 900) then ok already_completed else http_error 409))
unfolding complete_job complete_owned acquire finish_complete
expired_token_lies c m m' k d t w db r j found owner undone expired token up sane fresh later = (
  left,
  rw (owned_job_of k w db j found owner, undone, token, up, sane, fresh, expired, complete_job),
  again.0,
  again.1,
)
  where
    left : Redis
    left = record r {
      tokens = processing_token m.now j.id t ∷ keep_if (λ x. not (is_token j.id t x)) r.tokens;
    }

    again :
        ((complete_job c m' k d w db left).0 ≡ db)
        × ((complete_job c m' k d w db left).2
            ≡ (if ltb m'.now (m.now + 900) then ok already_completed else http_error 409))
    again = elim (Bool-cases (ltb m'.now (m.now + 900))) [
      | inl e ↦
          rw
            (
              owned_job_of k w db j found owner,
              undone,
              token,
              up,
              sane,
              find-processing m.now m'.now j.id t r.tokens,
              e,
              complete_job,
            )
            (refl, refl)
      | inr e ↦
          rw
            (
              owned_job_of k w db j found owner,
              undone,
              token,
              up,
              sane,
              find-processing m.now m'.now j.id t r.tokens,
              e,
              still_expired m.now m'.now j later expired,
              complete_job,
            )
            (refl, refl)
    ]
