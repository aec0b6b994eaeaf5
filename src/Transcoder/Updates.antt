-- ===== src/Transcoder/Updates.antt =====
-- worker/transcoder.py: a recovery pass as an update of each job by itself.
use mathlib.Core.Path.{subst}
use native.Mathlib.Decide.{ℕ_discrete}
use vlog.Prelude.{
  ℕ, String, Bool, true, none, some, List, [], ◌∷◌, ◌≡◌, ◌-◌, ◌&&◌, refl, sym, ap, ◌∙◌, arith,
  if◌then◌else◌, keep_if, Bool-cases, inl, inr, All, All-map,
}
use vlog.Prelude.Tables.{fetch, fetch_here, fetch_ne, HasUniqueKeys, Absent, All-keep_if}
use vlog.Prelude.Deletes.{fetch_of_Absent, fetch-keep_if, HasUniqueKeys-keep_if}
use vlog.WorkerApi.Schema.{Job, Database}
use vlog.WorkerApi.Stale.{before}
use vlog.WorkerApi.Selection.{job_id}
use vlog.Transcoder.Recovery.{
  recover_job, recover_jobs, is_interrupted, recover_interrupted_jobs, is_abandoned,
  check_stale_jobs,
}
use vlog.Transcoder.Recovering.{recovered, has_video, job_here, job_elsewhere, job_videos}

-- The rows of a list stand in a table.
abbrev Stand : Database → List Job → Type 0
Stand db js = All (λ y. fetch job_id y.id db.jobs ≡ some y) js

module _ (worker text : String) (threshold now : ℕ) where
  abbrev outcome : Database → Job → Job
  outcome db j = if has_video db j then recovered worker text now j else j

  kept_rows :
      (i : ℕ) (js : List Job) (j : Job) (db : Database)
      → j.id ≡ i
      → Absent job_id i js
      → Stand db js
      → Stand (recover_job worker text threshold now j db) js
  kept_rows i [] j db e a h = tt
  kept_rows i (y ∷ rest) j db e a h = (
    job_elsewhere worker text now y.id threshold j db (λ q. a.0 (q ∙ e)) ∙ h.0,
    kept_rows i rest j db e a.1 h.1,
  )

  jobs_elsewhere :
      (k : ℕ) (js : List Job) (db : Database)
      → fetch job_id k js ≡ none
      → fetch job_id k (recover_jobs worker text threshold now js db).jobs ≡ fetch job_id k db.jobs
  unfolding recover_jobs
  jobs_elsewhere k [] db h = refl
  jobs_elsewhere k (j ∷ rest) db h = elim (ℕ_discrete k j.id) [
    | yes e ↦ absurd (found (sym (fetch_here job_id k j rest (sym e)) ∙ h))
    | no ne ↦
        jobs_elsewhere k rest (recover_job worker text threshold now j db)
          (sym (fetch_ne job_id k j rest (λ q. ne (sym q))) ∙ h)
        ∙ job_elsewhere worker text now k threshold j db ne
  ]
    where
      found : some j ≡ none → ⊥
      found q = cc

  jobs_here :
      (k : ℕ) (js : List Job) (j : Job) (db : Database)
      → HasUniqueKeys job_id js
      → All (λ y. before y.last_checkpoint threshold ≡ true) js
      → Stand db js
      → fetch job_id k js ≡ some j
      → fetch job_id k (recover_jobs worker text threshold now js db).jobs ≡ some (outcome db j)
  unfolding recover_jobs
  jobs_here k [] j db u old h e = cc
  jobs_here k (y ∷ rest) j db u old h e = elim (ℕ_discrete k y.id) [
    | yes q ↦
        let same : y ≡ j = cc (fetch_here job_id k y rest (sym q), e) in
        let gone =
          subst (λ i. fetch job_id i rest ≡ none) (sym q) (fetch_of_Absent job_id y.id rest u.0) in
        jobs_elsewhere k rest (recover_job worker text threshold now y db) gone
        ∙ subst
            (λ i.
              fetch job_id i (recover_job worker text threshold now y db).jobs
              ≡ some (outcome db y))
            (sym q) (job_here worker text now threshold y db old.0 h.0)
        ∙ ap (λ x. some (outcome db x)) same
    | no ne ↦
        jobs_here k rest j (recover_job worker text threshold now y db) u.1 old.1
          (kept_rows y.id rest y db refl u.0 h.1)
          (sym (fetch_ne job_id k y rest (λ q. ne (sym q))) ∙ e)
        ∙ rw (job_videos worker text now j.video_id threshold y db) refl
  ]

  -- A pass over the rows that a test selects, all of them with old checkpoints.
  pub pass-row :
      (p : Job → Bool) (k : ℕ) (j : Job) (db : Database)
      → HasUniqueKeys job_id db.jobs
      → ((x : Job) → p x ≡ true → before x.last_checkpoint threshold ≡ true)
      → fetch job_id k db.jobs ≡ some j
      → fetch job_id k (recover_jobs worker text threshold now (keep_if p db.jobs) db).jobs
        ≡ some (if p j && has_video db j then recovered worker text now j else j)
  pass-row p k j db u old h = elim (Bool-cases (p j)) [
    | inl e ↦
        jobs_here k (keep_if p db.jobs) j db (HasUniqueKeys-keep_if job_id p db.jobs u)
          (All-map (λ x q. old x q.1) (keep_if p db.jobs) (All-keep_if job_id p db.jobs u))
          (All-map (λ x q. q.0) (keep_if p db.jobs) (All-keep_if job_id p db.jobs u))
          (fetch-keep_if job_id p k db.jobs j u h ∙ rw e refl)
        ∙ rw e refl
    | inr e ↦
        jobs_elsewhere k (keep_if p db.jobs) db (fetch-keep_if job_id p k db.jobs j u h ∙ rw e refl)
        ∙ h
        ∙ rw e refl
  ]

interrupted_old :
    (threshold : ℕ) (j : Job)
    → is_interrupted threshold j ≡ true
    → before j.last_checkpoint threshold ≡ true
unfolding is_interrupted
interrupted_old threshold j h = ground (arith, h)

abandoned_old :
    (self : String) (threshold : ℕ) (j : Job)
    → is_abandoned self threshold j ≡ true
    → before j.last_checkpoint threshold ≡ true
unfolding is_abandoned
abandoned_old self threshold j h = interrupted_old threshold j (ground (arith, h))

-- What one pass of either kind makes of a job, in the terms of the passes.
pub recovery-row :
    (self worker : String) (timeout now k : ℕ) (j : Job) (db : Database)
    → HasUniqueKeys job_id db.jobs
    → fetch job_id k db.jobs ≡ some j
    → (fetch job_id k (recover_interrupted_jobs worker timeout now db).jobs
        ≡ some (
            if is_interrupted (now - timeout) j && has_video db j
            then recovered worker "Max retry attempts exceeded" now j
            else j))
      × (fetch job_id k (check_stale_jobs self worker timeout now db).jobs
          ≡ some (
              if is_abandoned self (now - timeout) j && has_video db j
              then recovered worker "Max retry attempts exceeded (stale)" now j
              else j))
unfolding recover_interrupted_jobs check_stale_jobs
recovery-row self worker timeout now k j db u h = (
  pass-row worker "Max retry attempts exceeded" (now - timeout) now (is_interrupted (now - timeout))
      k j db u (interrupted_old (now - timeout)) h,
  pass-row worker "Max retry attempts exceeded (stale)" (now - timeout) now
      (is_abandoned self (now - timeout)) k j db u (abandoned_old self (now - timeout)) h,
)
