-- ===== src/AdminApi/JobRows.antt =====
-- -- The invariant of the jobs through each admin endpoint on jobs and workers.
use vlog.Prelude.{
  ℕ, String, Bool, true, false, not, Option, none, some, List, [], ◌∷◌, ◌≡◌, refl, sym, ◌∙◌, arith,
  ◌==◌, keep_if, update_where, Option-cases, Bool-cases, inl, inr, is_some, is_none,
}
use vlog.Prelude.Tables.{
  fetch, Absent, HasUniqueKeys, HasUniqueKeys-update_where, EachRow, EachRow-update_where,
  fetch_here, fetch_ne,
}
use vlog.Prelude.Deletes.{fetch_missing, fetch-keep_if, Absent-keep_if, HasUniqueKeys-keep_if}
use native.Mathlib.Decide.{ℕ_discrete}
use mathlib.Core.Path.{subst}
use vlog.WorkerApi.Schema.{Video, Job, RetranscodeMetadata, Database}
use vlog.WorkerApi.Selection.{job_id}
use vlog.WorkerApi.Leases.{JobOk}
use vlog.AdminApi.Jobs.{
  new_job, job_for, create_or_reset_transcoding_job, cancel_job, delete_video_and_job, delete_jobs,
  retry_video, retranscode_video, restore_video, re_upload_video, has_failed, is_processing, Upload,
  reset_for_upload, finish_upload,
}
use vlog.AdminApi.Workers.{
  release, free_job, release_current, disable_worker, enable_worker, worker_named, is_disabled,
}
use vlog.AdminApi.Requeue.{HasOneJobEach, new_job-id, cancel_job-gone, create-jobs}

-- Job ids are unique, and the invariant of the worker API holds of every job.
abbrev pub JobsOk : List Job → Type 0
JobsOk jobs = HasUniqueKeys job_id jobs × EachRow job_id JobOk jobs

JobsOk-update :
    (p : Job → Bool) (f : Job → Job) (jobs : List Job)
    → ((x : Job) → (f x).id ≡ x.id)
    → ((x : Job) → JobOk x → JobOk (f x))
    → JobsOk jobs
    → JobsOk (update_where p f jobs)
JobsOk-update p f jobs keeps step h = (
  HasUniqueKeys-update_where job_id p f keeps jobs h.0,
  EachRow-update_where job_id JobOk p f jobs keeps (λ x o e. step x o) h.1,
)

JobsOk-delete : (q : Job → Bool) (jobs : List Job) → JobsOk jobs → JobsOk (keep_if q jobs)
JobsOk-delete q jobs h = (
  HasUniqueKeys-keep_if job_id q jobs h.0,
  λ k x found. left k x (fetch job_id k jobs) refl found,
)
  where
    left :
        (k : ℕ) (x : Job) (r : Option Job)
        → fetch job_id k jobs ≡ r
        → fetch job_id k (keep_if q jobs) ≡ some x
        → JobOk x
    left k x none e found = let gone = fetch_missing job_id q k jobs e in cc
    left k x (some y) e found =
        let kept = fetch-keep_if job_id q k jobs y h.0 e in
        let same : y ≡ x = ground (arith, kept, found) in subst JobOk same (h.1 k y e)

JobsOk-insert :
    (j : Job) (jobs : List Job)
    → Absent job_id j.id jobs
    → JobOk j
    → JobsOk jobs
    → JobsOk (j ∷ jobs)
JobsOk-insert j jobs fresh o h = (
  (fresh, h.0),
  λ k x found. elim (ℕ_discrete j.id k) [
    | yes e ↦ let same : j ≡ x = cc (fetch_here job_id k j jobs e, found) in subst JobOk same o
    | no ne ↦ h.1 k x (sym (fetch_ne job_id k j jobs ne) ∙ found)
  ],
)

release-JobOk : (x : Job) → JobOk x → JobOk (release x)
unfolding release
release-JobOk x o = record { attempts = o.attempts; dated = λ e. refl; owned = λ e. refl }

cancel_job-JobsOk : (v : ℕ) (db : Database) → JobsOk db.jobs → JobsOk (cancel_job v db).jobs
unfolding cancel_job
cancel_job-JobsOk v db h = elim (Option-cases (job_for v db.jobs)) [
  | inl e ↦ rw (e, cancel_job) h
  | inr (j, e) ↦ rw (e, cancel_job) (JobsOk-delete (λ x. not (x.id == j.id)) db.jobs h)
]

cancel_job-Absent :
    (v id : ℕ) (db : Database) → Absent job_id id db.jobs → Absent job_id id (cancel_job v db).jobs
unfolding cancel_job
cancel_job-Absent v id db h = elim (Option-cases (job_for v db.jobs)) [
  | inl e ↦ rw (e, cancel_job) h
  | inr (j, e) ↦ rw (e, cancel_job) (Absent-keep_if job_id (λ x. not (x.id == j.id)) id db.jobs h)
]

pub delete_jobs-JobsOk :
    (gone : List Job) (db : Database) → JobsOk db.jobs → JobsOk (delete_jobs gone db).jobs
unfolding delete_jobs
delete_jobs-JobsOk [] db h = h
delete_jobs-JobsOk (j ∷ rest) db h =
    delete_jobs-JobsOk rest _ (JobsOk-delete (λ x. not (x.id == j.id)) db.jobs h)

new_job-JobOk : (id v : ℕ) (m : Option RetranscodeMetadata) → JobOk (new_job id v m)
unfolding new_job
new_job-JobOk id v m = record { attempts = omega arith; dated = λ e. refl; owned = λ e. refl }

create-JobsOk :
    (id v : ℕ) (m : Option RetranscodeMetadata) (db : Database)
    → job_for v db.jobs ≡ none
    → Absent job_id id db.jobs
    → JobsOk db.jobs
    → JobsOk (create_or_reset_transcoding_job id v m db).jobs
create-JobsOk id v m db free fresh h = rw (create-jobs id v m db free) (
    JobsOk-insert (new_job id v m) db.jobs (new_job-Absent id v m db.jobs fresh)
      (new_job-JobOk id v m) h)
  where
    new_job-Absent :
        (id v : ℕ) (m : Option RetranscodeMetadata) (jobs : List Job)
        → Absent job_id id jobs
        → Absent job_id (new_job id v m).id jobs
    new_job-Absent id v m jobs fresh =
        subst (λ k. Absent job_id k jobs) (sym (new_job-id id v m)) fresh

release_current-JobsOk :
    (k : Option ℕ) (db : Database) → JobsOk db.jobs → JobsOk (release_current k db).jobs
unfolding release_current free_job release
release_current-JobsOk none db h = h
release_current-JobsOk (some k) db h = elim (Option-cases (fetch job_id k db.jobs)) [
  | inl e ↦ rw (e, release_current) h
  | inr (j, e) ↦ elim (Bool-cases (is_some j.completed_at)) [
    | inl e' ↦ rw (e, e', release_current) h
    | inr e' ↦
        rw (e, e', release_current)
          (JobsOk-update (λ x. x.id == j.id) release db.jobs (λ x. refl) release-JobOk h)
  ]
]

pub disable_worker-JobsOk :
    (w : String) (db : Database) → JobsOk db.jobs → JobsOk (disable_worker w db).1.jobs
unfolding disable_worker
disable_worker-JobsOk w db h = elim (Option-cases (worker_named w db.workers)) [
  | inl e ↦ rw (e, disable_worker) h
  | inr (row, e) ↦ elim (Bool-cases (is_disabled row.status)) [
    | inl e' ↦ rw (e, e', disable_worker) h
    | inr e' ↦ rw (e, e', disable_worker) (release_current-JobsOk row.current_job_id _ h)
  ]
]

pub enable_worker-jobs : (w : String) (db : Database) → (enable_worker w db).1.jobs ≡ db.jobs
unfolding enable_worker
enable_worker-jobs w db = elim (Option-cases (worker_named w db.workers)) [
  | inl e ↦ rw (e, enable_worker) refl
  | inr (row, e) ↦ elim (Bool-cases (is_disabled row.status)) [
    | inl e' ↦ rw (e, e', enable_worker) refl
    | inr e' ↦ rw (e, e', enable_worker) refl
  ]
]

pub retry-jobs :
    (source : Bool) (v : ℕ) (db : Database) → (retry_video source v db).1.jobs ≡ db.jobs
unfolding retry_video
retry-jobs source v db = elim (Option-cases (fetch (λ (x : Video). x.id) v db.videos)) [
  | inl e ↦ rw (e, retry_video) refl
  | inr (row, e) ↦ elim (Bool-cases (has_failed row.status)) [
    | inl e' ↦ elim (Bool-cases source) [
      | inl s ↦ rw (e, e', s, retry_video) refl
      | inr s ↦ rw (e, e', s, retry_video) refl
    ]
    | inr e' ↦ rw (e, e', retry_video) refl
  ]
]

pub restore-jobs :
    (moved : Bool) (v : ℕ) (db : Database) → (restore_video moved v db).1.jobs ≡ db.jobs
unfolding restore_video
restore-jobs moved v db = elim (Option-cases (fetch (λ (x : Video). x.id) v db.videos)) [
  | inl e ↦ rw (e, restore_video) refl
  | inr (row, e) ↦ elim (Bool-cases (is_none row.deleted_at)) [
    | inl e' ↦ rw (e, e', restore_video) refl
    | inr e' ↦ rw (e, e', restore_video) refl
  ]
]

pub delete_video-JobsOk :
    (v : ℕ) (db : Database) → JobsOk db.jobs → JobsOk (delete_video_and_job v db).jobs
unfolding delete_video_and_job
delete_video-JobsOk v db h = cancel_job-JobsOk v db h

module _ (id v : ℕ) (db : Database) (fresh : Absent job_id id db.jobs) (one : HasOneJobEach db.jobs)
    (h : JobsOk db.jobs) where
  recreated-JobsOk :
      (m : Option RetranscodeMetadata)
      → JobsOk (create_or_reset_transcoding_job id v m (cancel_job v db)).jobs
  recreated-JobsOk m =
      create-JobsOk id v m (cancel_job v db) (cancel_job-gone v db one)
        (cancel_job-Absent v id db fresh) (cancel_job-JobsOk v db h)

  pub retranscode-JobsOk :
      (presets : List (String × ℕ)) (source : Bool) (names : List String)
      → JobsOk (retranscode_video presets source id v names db).1.jobs
  unfolding retranscode_video
  retranscode-JobsOk presets source names =
      elim (Option-cases (fetch (λ (x : Video). x.id) v db.videos)) [
        | inl e ↦ rw (e, retranscode_video) h
        | inr (row, e) ↦ elim (Bool-cases (is_some row.deleted_at)) [
          | inl e' ↦ rw (e, e', retranscode_video) h
          | inr e' ↦ elim (Bool-cases source) [
            | inl s ↦ rw (e, e', s, retranscode_video) (recreated-JobsOk _)
            | inr s ↦ rw (e, e', s, retranscode_video) h
          ]
        ]
      ]

  reset_for_upload-JobsOk : JobsOk (reset_for_upload id v db).jobs
  unfolding reset_for_upload
  reset_for_upload-JobsOk =
      create-JobsOk id v none _ (cancel_job-gone v db one) (cancel_job-Absent v id db fresh)
        (cancel_job-JobsOk v db h)

  pub re_upload-JobsOk :
      (large allowed : Bool) (upload : Upload)
      → JobsOk (re_upload_video large allowed upload id v db).1.jobs
  unfolding re_upload_video finish_upload
  re_upload-JobsOk true allowed upload = h
  re_upload-JobsOk false false upload = h
  re_upload-JobsOk false true upload =
      elim (Option-cases (fetch (λ (x : Video). x.id) v db.videos)) [
        | inl e ↦ rw (e, re_upload_video) h
        | inr (row, e) ↦ elim (Bool-cases (is_some row.deleted_at)) [
          | inl e' ↦ rw (e, e', re_upload_video) h
          | inr e' ↦ elim (Bool-cases (is_processing row.status)) [
            | inl e'' ↦ rw (e, e', e'', re_upload_video) h
            | inr e'' ↦ rw (e, e', e'', re_upload_video) (finished upload)
          ]
        ]
      ]
    where
      finished : (u : Upload) → JobsOk (finish_upload u v (reset_for_upload id v db)).1.jobs
      finished (Upload.refused code) = reset_for_upload-JobsOk
      finished (Upload.stored none) = reset_for_upload-JobsOk
      finished (Upload.stored (some info)) = reset_for_upload-JobsOk
