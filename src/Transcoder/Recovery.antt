-- ===== src/Transcoder/Recovery.antt =====
-- worker/transcoder.py: `recover_interrupted_jobs` and `check_stale_jobs`. One pass takes place at one
-- time. Source files, partial output and alerts leave no trace in the tables.
use text.Mathlib.Text.{◌==◌ as str_eq}
use vlog.Prelude.{
  ℕ, String, Bool, false, not, Option, none, some, List, [], ◌∷◌, ◌-◌, ◌==◌, ◌&&◌, if◌then◌else◌,
  leb, is_none, keep_if, update_where,
}
use vlog.Prelude.Tables.{fetch}
use vlog.WorkerApi.Schema.{Video, pending, failed, Job, Database}
use vlog.WorkerApi.Stale.{before}
use vlog.Transcoder.Jobs.{permanent, mark_job_failed, reset_job_for_retry}

abbrev pub video_id : Video → ℕ
video_id v = v.id

unfoldable pub set_video : ℕ → (Video → Video) → Database → Database
set_video k f db = record db { videos = update_where (λ v. v.id == k) f db.videos }

unfoldable pub set_video_failed : Video → Video
set_video_failed v = record v {
  status = failed;
  error_message = some "Max retry attempts exceeded";
}

unfoldable pub set_video_pending : Video → Video
set_video_pending v = record v { status = pending }

unfoldable pub reset_video_to_pending : ℕ → Database → Database
unfolding set_video set_video_pending
reset_video_to_pending k db = set_video k set_video_pending db

-- `worker` is the one of the default state, which `reset_job_for_retry` takes.
unfoldable pub recover_one : String → String → ℕ → Job → Database → Database
unfolding set_video set_video_failed mark_job_failed reset_job_for_retry reset_video_to_pending
recover_one worker text now j db =
    if leb j.max_attempts j.attempt_number
    then set_video j.video_id set_video_failed (mark_job_failed now j.id text permanent db)
    else reset_video_to_pending j.video_id (reset_job_for_retry worker now j.id db)

-- The body of the loop: the age is checked again, and the video must be there.
unfoldable pub recover_seen : String → String → ℕ → Job → Option Video → Database → Database
unfolding recover_one
recover_seen worker text now j none db = db
recover_seen worker text now j (some v) db = recover_one worker text now j db

unfoldable pub recover_job : String → String → ℕ → ℕ → Job → Database → Database
unfolding recover_seen
recover_job worker text threshold now j db =
    if before j.last_checkpoint threshold
    then recover_seen worker text now j (fetch video_id j.video_id db.videos) db
    else db

unfoldable pub recover_jobs : String → String → ℕ → ℕ → List Job → Database → Database
unfolding recover_job
recover_jobs worker text threshold now [] db = db
recover_jobs worker text threshold now (j ∷ rest) db =
    recover_jobs worker text threshold now rest (recover_job worker text threshold now j db)

unfoldable pub is_interrupted : ℕ → Job → Bool
is_interrupted threshold j = is_none j.completed_at && before j.last_checkpoint threshold

unfoldable pub recover_interrupted_jobs : String → ℕ → ℕ → Database → Database
unfolding recover_jobs is_interrupted
recover_interrupted_jobs worker timeout now db =
    recover_jobs worker "Max retry attempts exceeded" (now - timeout) now
      (keep_if (is_interrupted (now - timeout)) db.jobs) db

-- `worker_id != :w`, which no NULL passes.
abbrev pub is_other : Option String → String → Bool
is_other none w = false
is_other (some v) w = not (str_eq v w)

unfoldable pub is_abandoned : String → ℕ → Job → Bool
unfolding is_interrupted
is_abandoned self threshold j = is_interrupted threshold j && is_other j.worker_id self

-- `self` is the worker of the state that is passed, `worker` that of the default state.
unfoldable pub check_stale_jobs : String → String → ℕ → ℕ → Database → Database
unfolding recover_jobs is_abandoned
check_stale_jobs self worker timeout now db =
    recover_jobs worker "Max retry attempts exceeded (stale)" (now - timeout) now
      (keep_if (is_abandoned self (now - timeout)) db.jobs) db
