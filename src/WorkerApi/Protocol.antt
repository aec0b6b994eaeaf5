-- ===== src/WorkerApi/Protocol.antt =====
-- The lease protocol that api/worker_api.py promises: what may happen to one job row at one time, by
-- a request of one worker, apart from how the endpoints bring it about.
use mathlib.Core.Path.{subst}
use native.Mathlib.Decide.{ℕ_discrete}
use vlog.Prelude.{
  ℕ, String, Bool, true, false, Option, none, some, List, ◌≡◌, ◌<◌, refl, update_where, ◌==◌,
}
use vlog.Prelude.Tables.{
  HasUniqueKeys, HasUniqueKeys-update_where, fetch, set_if, update_key, fetch-update_where,
  fetch-update_key, fetch-update_key_ne,
}
use vlog.WorkerApi.Schema.{Job, Worker, Config, is_owner}
use vlog.WorkerApi.Claim.{claim_lapsed, release_claim, set_claim, clear_metadata}
use vlog.WorkerApi.Guards.{claim_expired}
use vlog.WorkerApi.Progress.{ProgressRequest, set_progress}
use vlog.WorkerApi.Complete.{set_completed}
use vlog.WorkerApi.Fail.{FailRequest, set_retry, set_final}
use vlog.WorkerApi.Stale.{release_job, is_overdue}
use vlog.WorkerApi.Selection.{job_id}

module _ (c : Config) (now : ℕ) (actor : String) where
  -- The owner's claim has not run out.
  pub record MayReport (j : Job) : Type 0 where
    pub owner : is_owner j.worker_id actor ≡ true
    pub live : claim_expired now j ≡ false

  pub data Move : Job → Job → Type 0 where
    lapse : (j : Job) → claim_lapsed now j ≡ true → Move j (release_claim j)
    grant :
        (w : Worker) (j : Job)
        → w.worker_id ≡ actor
        → j.claimed_at ≡ none
        → j.completed_at ≡ none
        → Move j (set_claim c now w j)
    clean : (j : Job) → j.worker_id ≡ some actor → Move j (clear_metadata j)
    report : (d : ProgressRequest) (j : Job) → MayReport j → Move j (set_progress c now d j)
    complete : (j : Job) → MayReport j → j.completed_at ≡ none → Move j (set_completed now j)
    retry :
        (d : FailRequest) (j : Job)
        → MayReport j
        → j.attempt_number < j.max_attempts
        → Move j (set_retry d j.attempt_number j)
    give_up : (d : FailRequest) (j : Job) → MayReport j → Move j (set_final d now j)
    sweep : (j : Job) → is_overdue now j ≡ true → Move j (release_job j)

  pub data Moves (j : Job) : Job → Type 0 where
    stay : Moves j j
    then : {i k : Job} → Moves j i → Move i k → Moves j k

  pub Moves-trans : {j i k : Job} → Moves j i → Moves i k → Moves j k
  Moves-trans m stay = m
  Moves-trans m (then n s) = then (Moves-trans m n) s

  -- A table in which every row has come from the row with its id by moves.
  abbrev pub RowMoves : Option Job → Option Job → Type 0
  RowMoves none r = r ≡ none
  RowMoves (some j) r = (i : Job) × (r ≡ some i) × Moves j i

  pub record RowsMove (jobs jobs' : List Job) : Type 0 where
    pub rows : (k : ℕ) → RowMoves (fetch job_id k jobs) (fetch job_id k jobs')
    pub unique : HasUniqueKeys job_id jobs → HasUniqueKeys job_id jobs'

  RowMoves-refl : (r : Option Job) → RowMoves r r
  RowMoves-refl none = refl
  RowMoves-refl (some j) = (j, refl, stay)

  RowMoves-trans : (r s t : Option Job) → RowMoves r s → RowMoves s t → RowMoves r t
  RowMoves-trans none s t m n = subst (λ x. RowMoves x t) m n
  RowMoves-trans (some j) s t (i, e, m) n =
      let (k, e', m') = subst (λ x. RowMoves x t) e n in (k, e', Moves-trans m m')

  pub RowsMove-refl : (jobs : List Job) → RowsMove jobs jobs
  RowsMove-refl jobs = record { rows = λ k. RowMoves-refl (fetch job_id k jobs); unique = λ u. u }

  pub RowsMove-trans : (a b d : List Job) → RowsMove a b → RowsMove b d → RowsMove a d
  RowsMove-trans a b d m n = record {
    rows = λ k.
        RowMoves-trans (fetch job_id k a) (fetch job_id k b) (fetch job_id k d) (m.rows k)
          (n.rows k);
    unique = λ u. n.unique (m.unique u);
  }

  pub RowsMove-update_where :
      (p : Job → Bool) (f : Job → Job) (jobs : List Job)
      → ((x : Job) → (f x).id ≡ x.id)
      → ((x : Job) → p x ≡ true → Moves x (f x))
      → RowsMove jobs (update_where p f jobs)
  RowsMove-update_where p f jobs keeps step = record {
    rows = λ k. rw (fetch-update_where job_id p f keeps k jobs) (one (fetch job_id k jobs));
    unique = λ u. HasUniqueKeys-update_where job_id p f keeps jobs u;
  }
    where
      branch : (x : Job) (b : Bool) → p x ≡ b → RowMoves (some x) (set_if (λ y. b) f (some x))
      branch x true e = (f x, refl, step x e)
      branch x false e = (x, refl, stay)

      one : (r : Option Job) → RowMoves r (set_if p f r)
      one none = refl
      one (some x) = branch x (p x) refl

  rows_of :
      (k : ℕ) (f : Job → Job) (jobs : List Job) (x : Job)
      → ((x : Job) → (f x).id ≡ x.id)
      → fetch job_id k jobs ≡ some x
      → Moves x (f x)
      → (i : ℕ) → RowMoves (fetch job_id i jobs) (fetch job_id i (update_key job_id k f jobs))
  rows_of k f jobs x keeps found step i = elim (ℕ_discrete i k) [
    | yes e ↦ rw (e, found, fetch-update_key job_id k f jobs x keeps found) (f x, refl, step)
    | no ne ↦
        rw (fetch-update_key_ne job_id i k f jobs keeps ne) (RowMoves-refl (fetch job_id i jobs))
  ]

  pub RowsMove-update_key :
      (k : ℕ) (f : Job → Job) (jobs : List Job) (x : Job)
      → ((x : Job) → (f x).id ≡ x.id)
      → fetch job_id k jobs ≡ some x
      → Moves x (f x)
      → RowsMove jobs (update_key job_id k f jobs)
  RowsMove-update_key k f jobs x keeps found step = record {
    rows = rows_of k f jobs x keeps found step;
    unique = λ u. HasUniqueKeys-update_where job_id (λ y. y.id == k) f keeps jobs u;
  }
