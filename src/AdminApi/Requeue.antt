-- ===== src/AdminApi/Requeue.antt =====
-- Whether the jobs that the admin endpoints leave can be claimed by a worker.
use mathlib.Core.Path.{subst}
use vlog.Prelude.{
  sym, false, ℕ, String, true, not, Option, none, some, List, ◌∷◌, ◌≡◌, ◌↔◌, ◌⊎◌, inl, inr, refl,
  ap, ◌∙◌, arith, ◌==◌, Option-cases,
}
use vlog.Prelude.Tables.{fetch, fetch_here, Absent, HasUniqueKeys}
use vlog.Prelude.Deletes.{fetch-keep_if, Absent-fetch, HasUniqueKeys-keep_if}
use vlog.WorkerApi.Schema.{
  Video, VideoStatus, pending, processing, ready, failed, Job, RetranscodeMetadata, Database,
}
use vlog.WorkerApi.Claim.{claimable, is_waiting}
use vlog.WorkerApi.Guards.{job_of}
use vlog.WorkerApi.Selection.{job_id}
use vlog.AdminApi.Jobs.{
  job_for, new_job, create_or_reset_transcoding_job, cancel_job, retranscode_video,
  build_retranscode_metadata, wants_all, queued_qualities,
}

-- The unique constraint on transcoding_jobs.video_id.
abbrev pub HasOneJobEach : List Job → Type 0
HasOneJobEach jobs = HasUniqueKeys (λ (j : Job). j.video_id) jobs

pub cancel_job-gone :
    (v : ℕ) (db : Database) → HasOneJobEach db.jobs → job_for v (cancel_job v db).jobs ≡ none
unfolding cancel_job job_for
cancel_job-gone v db u = elim (Option-cases (job_for v db.jobs)) [
  | inl e ↦ rw (e, cancel_job) e
  | inr (j, e) ↦
      rw (e, cancel_job)
        (fetch-keep_if (λ (x : Job). x.video_id) (λ x. not (x.id == j.id)) v db.jobs j u e
          ∙ ground arith)
]

pub cancel_job-videos : (v : ℕ) (db : Database) → (cancel_job v db).videos ≡ db.videos
unfolding cancel_job
cancel_job-videos v db = elim (Option-cases (job_for v db.jobs)) [
  | inl e ↦ rw (e, cancel_job) refl
  | inr (j, e) ↦ rw (e, cancel_job) refl
]

-- A video without a job gets a new one.
pub create-jobs :
    (id v : ℕ) (m : Option RetranscodeMetadata) (db : Database)
    → job_for v db.jobs ≡ none
    → (create_or_reset_transcoding_job id v m db).jobs ≡ new_job id v m ∷ db.jobs
unfolding create_or_reset_transcoding_job
create-jobs id v m db e = rw (e, create_or_reset_transcoding_job) refl

create-videos :
    (id v : ℕ) (m : Option RetranscodeMetadata) (db : Database)
    → (create_or_reset_transcoding_job id v m db).videos ≡ db.videos
unfolding create_or_reset_transcoding_job
create-videos id v m db = refl

module _ (id v : ℕ) (m : Option RetranscodeMetadata) where
  pub new_job-id : (new_job id v m).id ≡ id
  unfolding new_job
  new_job-id = refl

  new_job-video : (new_job id v m).video_id ≡ v
  unfolding new_job
  new_job-video = refl

  new_job-fresh : (new_job id v m).claimed_at ≡ none
  unfolding new_job
  new_job-fresh = refl

  new_job-first : (new_job id v m).attempt_number ≡ 1
  unfolding new_job
  new_job-first = refl

is_waiting_iff :
    (s : VideoStatus) (m : RetranscodeMetadata)
    → (is_waiting s (some m) ≡ true) ↔ (s ≡ pending) ⊎ (s ≡ ready)
unfolding is_waiting
is_waiting_iff pending m = (λ h. inl refl, λ h. refl)
is_waiting_iff processing m = (λ h. cc, λ h. elim h [ inl e ↦ cc | inr e ↦ cc ])
is_waiting_iff ready m = (λ h. inr refl, λ h. refl)
is_waiting_iff failed m = (λ h. cc, λ h. elim h [ inl e ↦ cc | inr e ↦ cc ])

new_job-claimable :
    (id v : ℕ) (m : RetranscodeMetadata) (row : Video)
    → (claimable (new_job id v (some m)) row ≡ true)
      ↔ (row.deleted_at ≡ none) × ((row.status ≡ pending) ⊎ (row.status ≡ ready))
unfolding claimable new_job
new_job-claimable id v m row = elim (Option-cases row.deleted_at) [
  | inl live ↦
      let both = is_waiting_iff row.status m in
      let same : claimable (new_job id v (some m)) row ≡ is_waiting row.status (some m) =
        ground (arith, live) in
      rw same (λ h. (live, both.0 h), λ h. both.1 (h.1))
  | inr (t, gone) ↦
      let same : claimable (new_job id v (some m)) row ≡ false = ground (arith, gone) in
      rw same (λ h. cc, λ h. cc (sym gone ∙ h.0))
]

retranscode-db :
    (presets : List (String × ℕ)) (id v : ℕ) (names : List String) (db : Database) (row : Video)
    → fetch (λ (x : Video). x.id) v db.videos ≡ some row
    → row.deleted_at ≡ none
    → (retranscode_video presets true id v names db).1
      ≡ create_or_reset_transcoding_job id v
          (some (build_retranscode_metadata (queued_qualities presets names row) (wants_all names)))
          (cancel_job v db)
unfolding retranscode_video
retranscode-db presets id v names db row found live = rw (found, live, retranscode_video) refl

-- A table of jobs of which only `i` is the video's.
abbrev pub IsOnlyJob : ℕ → Job → List Job → Type 0
IsOnlyJob v i jobs = (job_for v jobs ≡ some i) × HasOneJobEach jobs

cancel_job-HasOneJobEach :
    (v : ℕ) (db : Database) → HasOneJobEach db.jobs → HasOneJobEach (cancel_job v db).jobs
unfolding cancel_job
cancel_job-HasOneJobEach v db u = elim (Option-cases (job_for v db.jobs)) [
  | inl e ↦ rw (e, cancel_job) u
  | inr (j, e) ↦
      rw (e, cancel_job)
        (HasUniqueKeys-keep_if (λ (x : Job). x.video_id) (λ x. not (x.id == j.id)) db.jobs u)
]

new_job-IsOnlyJob :
    (id v : ℕ) (m : Option RetranscodeMetadata) (db : Database)
    → HasOneJobEach db.jobs
    → IsOnlyJob v (new_job id v m) (new_job id v m ∷ (cancel_job v db).jobs)
unfolding job_for
new_job-IsOnlyJob id v m db u =
    let gone : fetch (λ (j : Job). j.video_id) v (cancel_job v db).jobs ≡ none =
      cancel_job-gone v db u in
    (
      fetch_here (λ (j : Job). j.video_id) v (new_job id v m) (cancel_job v db).jobs
          (new_job-video id v m),
      (
        subst (λ i. Absent (λ (j : Job). j.video_id) i (cancel_job v db).jobs)
            (sym (new_job-video id v m))
            (Absent-fetch (λ (j : Job). j.video_id) v (cancel_job v db).jobs gone),
        cancel_job-HasOneJobEach v db u,
      ),
    )

-- A re-transcode of a video that is not deleted and has its source, where no video has two jobs:
-- afterwards the video is as it was, again no video has two jobs, and the video's job is a new one,
-- unclaimed and at its first attempt, whatever held the old one. With whatever row the video has
-- then, `claim_job`'s conditions hold of this job exactly if the row is not deleted and is pending
-- or ready: the job of a video that is failed or processing cannot be claimed while its status
-- stays so.
pub retranscode_video-claimable_iff :
    (presets : List (String × ℕ)) (id v : ℕ) (names : List String) (db : Database) (row : Video)
    → HasOneJobEach db.jobs
    → fetch (λ (x : Video). x.id) v db.videos ≡ some row
    → row.deleted_at ≡ none
    → (i : Job) × (job_of id (retranscode_video presets true id v names db).1 ≡ some i)
      × IsOnlyJob v i (retranscode_video presets true id v names db).1.jobs
      × ((retranscode_video presets true id v names db).1.videos ≡ db.videos)
      × (i.claimed_at ≡ none)
      × (i.attempt_number ≡ 1)
      × ((x : Video)
          → (claimable i x ≡ true)
            ↔ (x.deleted_at ≡ none) × ((x.status ≡ pending) ⊎ (x.status ≡ ready)))
retranscode_video-claimable_iff presets id v names db row u found live =
    let m = build_retranscode_metadata (queued_qualities presets names row) (wants_all names) in
    let after = retranscode-db presets id v names db row found live in
    let jobs =
      ap (λ d. d.jobs) after
      ∙ create-jobs id v (some m) (cancel_job v db) (cancel_job-gone v db u) in
    (
      new_job id v (some m),
      rw jobs (
          fetch_here job_id id (new_job id v (some m)) (cancel_job v db).jobs
            (new_job-id id v (some m))),
      rw jobs (new_job-IsOnlyJob id v (some m) db u),
      ap (λ d. d.videos) after
          ∙ create-videos id v (some m) (cancel_job v db)
          ∙ cancel_job-videos v db,
      new_job-fresh id v (some m),
      new_job-first id v (some m),
      new_job-claimable id v m,
    )
