-- ===== src/AdminApi/Jobs.antt =====
-- The endpoints and helpers of api/admin.py on videos and their transcoding jobs: the creation and
-- the reset of a job, the deletion of a video, orphaned jobs, retry, re-transcode and restore. What
-- the file system answers is an argument. The rows of playback_sessions and video_tags, the audit
-- log, webhooks and the message to Redis, whose failure is logged only, are left out.
use text.Mathlib.Text.{◌==◌ as str_eq}
use vlog.Prelude.{
  ℕ, String, Bool, true, false, not, Option, none, some, List, [], ◌∷◌, ◌+◌, ◌==◌, leb,
  if◌then◌else◌, is_none, is_some, keep_if, find_first,
}
use vlog.Prelude.Tables.{fetch, update_key}
use vlog.WorkerApi.Schema.{
  Video, VideoStatus, pending, processing, failed, Job, RetranscodeMetadata, plan, Database, Reply,
  ok, http_error,
}

-- `build_retranscode_metadata`, less the directory of the files.
unfoldable pub build_retranscode_metadata : List String → Bool → RetranscodeMetadata
build_retranscode_metadata qualities all_ = plan (record {
  retranscode_all = all_;
  qualities_to_delete = qualities;
  delete_transcription = all_;
})

-- The row that the INSERT makes; `id` is the database's next key.
unfoldable pub new_job : ℕ → ℕ → Option RetranscodeMetadata → Job
new_job id video_id metadata = record {
  id = id;
  video_id = video_id;
  worker_id = none;
  current_step = some "pending";
  progress_percent = 0;
  started_at = none;
  last_checkpoint = none;
  completed_at = none;
  claimed_at = none;
  claim_expires_at = none;
  attempt_number = 1;
  max_attempts = 3;
  last_error = none;
  processed_by_worker_id = none;
  processed_by_worker_name = none;
  retranscode_metadata = metadata;
}

-- `ON CONFLICT (video_id) DO UPDATE SET ...`.
unfoldable pub reset_job : Option RetranscodeMetadata → Job → Job
reset_job metadata j = record j {
  current_step = some "pending";
  progress_percent = 0;
  attempt_number = j.attempt_number + 1;
  worker_id = none;
  claimed_at = none;
  claim_expires_at = none;
  started_at = none;
  completed_at = none;
  last_error = none;
  retranscode_metadata = metadata;
}

-- The job of a video; transcoding_jobs.video_id is unique.
unfoldable pub job_for : ℕ → List Job → Option Job
job_for v jobs = fetch (λ (j : Job). j.video_id) v jobs

unfoldable pub create_or_reset_transcoding_job :
    ℕ → ℕ → Option RetranscodeMetadata → Database → Database
unfolding job_for
create_or_reset_transcoding_job id v metadata db = record db {
  jobs = elim (job_for v db.jobs) [
    | none ↦ new_job id v metadata ∷ db.jobs
    | some old ↦ update_key (λ (j : Job). j.video_id) v (reset_job metadata) db.jobs
  ];
}

-- The job of a video with its progress, as `if job: ...` deletes them.
unfoldable pub cancel_job : ℕ → Database → Database
cancel_job v db = elim (job_for v db.jobs) [
  | none ↦ db
  | some job ↦ record db {
    quality_progress = keep_if (λ q. not (q.job_id == job.id)) db.quality_progress;
    jobs = keep_if (λ j. not (j.id == job.id)) db.jobs;
  }
]

unfoldable pub delete_video_and_job : ℕ → Database → Database
delete_video_and_job v db =
    let rest = cancel_job v db in
    record rest {
      transcriptions = keep_if (λ t. not (t == v)) rest.transcriptions;
      video_qualities = keep_if (λ q. not (q.video_id == v)) rest.video_qualities;
      videos = keep_if (λ x. not (x.id == v)) rest.videos;
    }

-- `LEFT JOIN videos ... WHERE v.id IS NULL`.
unfoldable pub is_orphan : List Video → Job → Bool
is_orphan videos j = is_none (fetch (λ (v : Video). v.id) j.video_id videos)

unfoldable pub delete_jobs : List Job → Database → Database
delete_jobs [] db = db
delete_jobs (job ∷ rest) db = delete_jobs rest (record db {
  quality_progress = keep_if (λ q. not (q.job_id == job.id)) db.quality_progress;
  jobs = keep_if (λ j. not (j.id == job.id)) db.jobs;
})

unfoldable pub cleanup_orphaned_jobs : Database → Database
cleanup_orphaned_jobs db = delete_jobs (keep_if (is_orphan db.videos) db.jobs) db

unfoldable pub set_pending : Video → Video
set_pending v = record v { status = pending; error_message = none }

unfoldable pub has_failed : VideoStatus → Bool
has_failed failed = true
has_failed _ = false

-- `source_exists`: one of the files of the upload is there.
unfoldable pub retry_video : Bool → ℕ → Database → Reply {0} Unit × Database
retry_video source_exists v db = elim (fetch (λ (x : Video). x.id) v db.videos) [
  | none ↦ (http_error 404, db)
  | some row ↦
      if has_failed row.status
      then if source_exists
        then (ok tt, record db { videos = update_key (λ x. x.id) v set_pending db.videos })
        else (http_error 400, db)
      else (http_error 400, db)
]

-- `"all" in requested_qualities`.
unfoldable pub wants_all : List String → Bool
wants_all names = is_some (find_first (λ n. str_eq n "all") names)

-- The names of QUALITY_PRESETS that are no higher than the source.
unfoldable pub preset_names : List (String × ℕ) → ℕ → List String
preset_names [] height = []
preset_names ((name, h) ∷ rest) height =
    let more = preset_names rest height in if leb h height then name ∷ more else more

unfoldable pub height_of : Video → ℕ
height_of row = elim row.source_height [ none ↦ 0 | some h ↦ h ]

unfoldable pub queued_qualities : List (String × ℕ) → List String → Video → List String
queued_qualities presets names row =
    if wants_all names then "original" ∷ preset_names presets (height_of row) else names

-- The answer carries the qualities that are queued.
unfoldable pub retranscode_video :
    List (String × ℕ) → Bool → ℕ → ℕ → List String → Database → Reply (List String) × Database
retranscode_video presets source_exists id v names db =
    elim (fetch (λ (x : Video). x.id) v db.videos) [
      | none ↦ (http_error 404, db)
      | some row ↦
          if is_some row.deleted_at
          then (http_error 400, db)
          else if source_exists
          then (
            ok (queued_qualities presets names row),
            create_or_reset_transcoding_job id v
                (some (
                  build_retranscode_metadata (queued_qualities presets names row)
                    (wants_all names)))
                (cancel_job v db),
          )
          else (http_error 400, db)
    ]

unfoldable pub set_deleted : Option ℕ → Video → Video
set_deleted at x = record x { deleted_at = at }

-- `moved`: every file was moved back. If one was not, the row is given its old `deleted_at` again.
unfoldable pub restore_video : Bool → ℕ → Database → Reply {0} Unit × Database
restore_video moved v db = elim (fetch (λ (x : Video). x.id) v db.videos) [
  | none ↦ (http_error 404, db)
  | some row ↦ if is_none row.deleted_at then (http_error 400, db) else (
    if moved then ok tt else http_error 500,
    record db {
      videos =
          if moved
          then update_key (λ x. x.id) v (set_deleted none) db.videos
          else update_key (λ x. x.id) v (set_deleted row.deleted_at)
              (update_key (λ x. x.id) v (set_deleted none) db.videos);
    },
  )
]

unfoldable pub is_processing : VideoStatus → Bool
is_processing processing = true
is_processing _ = false

-- What `get_video_info` reads of the new file: the duration, the width and the height.
pub record VideoInfo : Type 0 where
  pub duration : ℕ
  pub width : ℕ
  pub height : ℕ

-- What saving the file gives: the status of the HTTPException that it raised, or, where it is
-- stored, what probing it gives, if that succeeds.
pub data Upload : Type 0 where
  refused : ℕ → Upload
  stored : Option VideoInfo → Upload

unfoldable pub reset_video : Video → Video
reset_video x = record x {
  status = pending;
  duration = some 0;
  source_width = some 0;
  source_height = some 0;
  error_message = none;
}

unfoldable pub set_info : VideoInfo → Video → Video
set_info info x = record x {
  duration = some info.duration;
  source_width = some info.width;
  source_height = some info.height;
}

-- The clean-up of the tables, one transaction.
unfoldable pub reset_for_upload : ℕ → ℕ → Database → Database
reset_for_upload id v db =
    let rest = cancel_job v db in
    create_or_reset_transcoding_job id v none (record rest {
      transcriptions = keep_if (λ t. not (t == v)) rest.transcriptions;
      video_qualities = keep_if (λ q. not (q.video_id == v)) rest.video_qualities;
      videos = update_key (λ x. x.id) v reset_video rest.videos;
    })

unfoldable pub finish_upload : Upload → ℕ → Database → Reply {0} Unit × Database
finish_upload (refused code) v db = (http_error code, db)
finish_upload (stored none) v db = (ok tt, db)
finish_upload (stored (some info)) v db =
    (ok tt, record db { videos = update_key (λ x. x.id) v (set_info info) db.videos })

-- `too_large`: the Content-Length is above the limit. `allowed`: the extension of the file is one
-- of those allowed.
unfoldable pub re_upload_video : Bool → Bool → Upload → ℕ → ℕ → Database → Reply {0} Unit × Database
re_upload_video too_large allowed upload id v db =
    if too_large
    then (http_error 413, db)
    else if allowed
    then elim (fetch (λ (x : Video). x.id) v db.videos) [
      | none ↦ (http_error 404, db)
      | some row ↦
          if is_some row.deleted_at
          then (http_error 400, db)
          else if is_processing row.status
          then (http_error 400, db)
          else finish_upload upload v (reset_for_upload id v db)
    ]
    else (http_error 400, db)
