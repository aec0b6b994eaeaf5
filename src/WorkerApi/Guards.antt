-- ===== src/WorkerApi/Guards.antt =====
-- api/worker_api.py: the checks that `update_progress`, `complete_job` and `fail_job` open with.
use vlog.Prelude.{ℕ, Bool, false, Option, none, some, if◌then◌else◌, ltb}
use vlog.Prelude.Tables.{fetch}
use vlog.WorkerApi.Schema.{Job, Worker, Database, Reply, ok, http_error, is_owner}

infixl 5 ◌>>=◌
abbrev pub ◌>>=◌ {ℓ κ} : {A : Type ℓ} {B : Type κ} → Reply A → (A → Reply B) → Reply B
ok a >>= f = f a
http_error e >>= f = http_error e

-- The row with an id, as `fetch_one` finds it.
abbrev pub job_of : ℕ → Database → Option Job
job_of k db = fetch (λ (j : Job). j.id) k db.jobs

-- 404 if there is no such job, 403 if it is not the worker's.
unfoldable pub owned_job : ℕ → Worker → Database → Reply Job
owned_job k w db = elim (job_of k db) [
  | none ↦ http_error 404
  | some j ↦ if is_owner j.worker_id w.worker_id then ok j else http_error 403
]

-- `if job["claim_expires_at"]: ... if claim_expiry < now`.
unfoldable pub claim_expired : ℕ → Job → Bool
claim_expired now j = elim j.claim_expires_at [ none ↦ false | some t ↦ ltb t now ]

-- 409 if the claim has run out.
unfoldable pub unexpired : ℕ → Job → Reply Job
unfolding claim_expired
unexpired now j = if claim_expired now j then http_error 409 else ok j
