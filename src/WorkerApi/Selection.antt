-- ===== src/WorkerApi/Selection.antt =====
-- api/worker_api.py: which job the SELECT of `claim_job` finds.
use native.Mathlib.Decide.{ℕ_discrete}
use vlog.Prelude.{
  ap, sym, ◌∙◌, ℕ, Bool, true, false, Option, none, some, List, [], ◌∷◌, ◌≡◌, ◌≤◌, refl, arith, leb,
  Bool-cases, ◌⊎◌, inl, inr,
}
use vlog.Prelude.Tables.{fetch, HasUniqueKeys, fetch_here, fetch_later, fetch_ne}
use vlog.WorkerApi.Schema.{Video, Job}
use vlog.WorkerApi.Claim.{claimable, requested, candidate, older, select_job}

abbrev pub job_id : Job → ℕ
job_id j = j.id

-- The pair is there and its video is no younger than `t`.
abbrev pub NoYounger : ℕ → Option (Job × Video) → Type 0
NoYounger t r = (j : Job) × (v : Video) × (r ≡ some (j, v)) × (v.created_at ≤ t)

module _ (taken : ℕ → Bool) (wanted : Option ℕ) (videos : List Video) where
  -- What the WHERE clause and the locks let through.
  pub record IsCandidate (j : Job) (v : Video) : Type 0 where
    pub asked : requested wanted j ≡ true
    pub unlocked : taken j.id ≡ false
    pub claimable_ : claimable j v ≡ true
    pub video : fetch (λ (v : Video). v.id) j.video_id videos ≡ some v

  pub candidate-IsCandidate :
      (x j : Job) (v : Video)
      → candidate taken wanted videos x ≡ some (j, v)
      → (x ≡ j) × IsCandidate j v
  unfolding candidate
  candidate-IsCandidate x j v h = let e : x ≡ j = ground arith in (e, rw (← e) (ground arith))

  older_one :
      (a b : Option (Job × Video)) (r : Job × Video)
      → older a b ≡ some r
      → (a ≡ some r) ⊎ (b ≡ some r)
  unfolding older
  older_one none b r h = inr h
  older_one (some a) none r h = inl h
  older_one (some (j, v)) (some (i, u)) r h = elim (Bool-cases (leb v.created_at u.created_at)) [
    | inl e ↦ inl (rw (e, older) at h)
    | inr e ↦ inr (rw (e, older) at h)
  ]

  -- The selected job is the row with its id, and the WHERE clause holds of it and its video.
  pub select_job-IsCandidate :
      (jobs : List Job) (j : Job) (v : Video)
      → HasUniqueKeys job_id jobs
      → select_job taken wanted videos jobs ≡ some (j, v)
      → (fetch job_id j.id jobs ≡ some j) × IsCandidate j v
  unfolding select_job
  select_job-IsCandidate [] j v unique h = cc
  select_job-IsCandidate (x ∷ jobs) j v unique h =
      elim (older_one (candidate taken wanted videos x) (select_job taken wanted videos jobs) (j, v)
        h) [
          | inl first ↦
              let (same, is) = candidate-IsCandidate x j v first in
              (fetch_here job_id j.id x jobs (ap job_id same) ∙ ap some same, is)
          | inr later ↦
              let (found, is) = select_job-IsCandidate jobs j v unique.1 later in
              (fetch_later job_id j.id x j jobs unique.0 found, is)
        ]

  older-left :
      (j : Job) (v : Video) (b : Option (Job × Video))
      → NoYounger v.created_at (older (some (j, v)) b)
  unfolding older
  older-left j v none = (j, v, refl, omega arith)
  older-left j v (some (i, u)) = elim (Bool-cases (leb v.created_at u.created_at)) [
    | inl e ↦ (j, v, rw (e, older), omega arith)
    | inr e ↦ (i, u, rw (e, older), ground arith)
  ]

  older-right : (a b : Option (Job × Video)) (t : ℕ) → NoYounger t b → NoYounger t (older a b)
  unfolding older
  older-right none b t h = h
  older-right (some (i, u)) b t (j, v, e, le) = elim (Bool-cases (leb u.created_at v.created_at)) [
    | inl c ↦ (i, u, rw (e, c, older), ground arith)
    | inr c ↦ (j, v, rw (e, c, older), le)
  ]

  -- Where some row can be claimed, the SELECT finds a job, and one of a video that is no younger.
  pub select_job-NoYounger :
      (jobs : List Job) (k : ℕ) (j i : Job) (v : Video)
      → fetch job_id k jobs ≡ some j
      → candidate taken wanted videos j ≡ some (i, v)
      → NoYounger v.created_at (select_job taken wanted videos jobs)
  unfolding select_job
  select_job-NoYounger [] k j i v found c = cc
  select_job-NoYounger (x ∷ jobs) k j i v found c = elim (ℕ_discrete x.id k) [
    | yes e ↦
        let same : x ≡ j = cc (fetch_here job_id k x jobs e, found) in
        rw (same, c) (older-left i v (select_job taken wanted videos jobs))
    | no e ↦
        older-right (candidate taken wanted videos x) (select_job taken wanted videos jobs)
          v.created_at
          (select_job-NoYounger jobs k j i v (sym (fetch_ne job_id k x jobs e) ∙ found) c)
  ]
