-- ===== src/Transcoder/Outcomes.antt =====
-- worker/transcoder.py: how a run of `process_video_resumable` on a job ends.
use vlog.Prelude.{
  ℕ, String, Bool, true, false, some, List, ◌==◌, ◌≡◌, ◌⊎◌, inl, inr, refl, ap, ◌∙◌, if◌then◌else◌,
  is_some, find_first, update_where,
}
use vlog.Prelude.Tables.{fetch, fetch-update_where, fetch-update_key, set_if}
use vlog.WorkerApi.Schema.{Video, pending, ready, failed, Job, VideoQuality, Database, Config}
use vlog.WorkerApi.Guards.{job_of}
use vlog.WorkerApi.Selection.{job_id}
use vlog.Transcoder.Jobs.{
  JobFailureMode, set_job, checkpoint, set_checkpoint, update_job_step, set_step, mark_job_failed,
  set_error,
}
use vlog.Transcoder.Recovery.{video_id, set_video, set_video_pending, reset_video_to_pending}
use vlog.Transcoder.Process

-- The video and the job are in their tables.
pub record Present (v k : ℕ) (db : Database) : Type 0 where
  pub video : (x : Video) × (fetch video_id v db.videos ≡ some x)
  pub job : (j : Job) × (job_of k db ≡ some j)

pub find_updated {ℓ} :
    {A : Type ℓ} (key : A → ℕ) (p : A → Bool) (f : A → A)
    → ((x : A) → key (f x) ≡ key x)
    → (k : ℕ) (xs : List A) (x : A) → fetch key k xs ≡ some x
    → fetch key k (update_where p f xs) ≡ some (if p x then f x else x)
find_updated key p f keeps k xs x h = fetch-update_where key p f keeps k xs ∙ ap (set_if p f) h

pub set_job-Present :
    (v k i : ℕ) (f : Job → Job) (db : Database)
    → ((x : Job) → (f x).id ≡ x.id)
    → Present v k db
    → Present v k (set_job i f db)
unfolding set_job
set_job-Present v k i f db keeps h = record {
  video = h.video;
  job = (_, find_updated job_id (λ j. j.id == i) f keeps k db.jobs h.job.0 h.job.1);
}

pub set_video-Present :
    (v k i : ℕ) (f : Video → Video) (db : Database)
    → ((x : Video) → (f x).id ≡ x.id)
    → Present v k db
    → Present v k (set_video i f db)
unfolding set_video
set_video-Present v k i f db keeps h = record {
  video = (_, find_updated video_id (λ x. x.id == i) f keeps v db.videos h.video.0 h.video.1);
  job = h.job;
}

-- The video itself after an update of its row.
pub set_video-here :
    (v k : ℕ) (f : Video → Video) (db : Database)
    → ((x : Video) → (f x).id ≡ x.id)
    → Present v k db
    → (x : Video) × (fetch video_id v (set_video v f db).videos ≡ some (f x))
unfolding set_video
set_video-here v k f db keeps h =
    (h.video.0, fetch-update_key video_id v f db.videos h.video.0 keeps h.video.1)

pub set_job-here :
    (v k : ℕ) (f : Job → Job) (db : Database)
    → ((x : Job) → (f x).id ≡ x.id)
    → Present v k db
    → (j : Job) × (job_of k (set_job k f db) ≡ some (f j))
unfolding set_job
set_job-here v k f db keeps h = (h.job.0, fetch-update_key job_id k f db.jobs h.job.0 keeps h.job.1)

pub step-Present :
    (c : Config) (now v k : ℕ) (name : String) (db : Database)
    → Present v k db
    → Present v k (update_job_step c now true k name db)
unfolding update_job_step set_step
step-Present c now v k name db h = set_job-Present v k k (set_step c now name) db (λ x. refl) h

pub checkpoint-Present :
    (c : Config) (now v k : ℕ) (db : Database)
    → Present v k db
    → Present v k (checkpoint c now true k db)
unfolding checkpoint set_checkpoint
checkpoint-Present c now v k db h = set_job-Present v k k (set_checkpoint c now) db (λ x. refl) h

pub failed-Present :
    (now v k : ℕ) (text : String) (mode : JobFailureMode) (db : Database)
    → Present v k db
    → Present v k (mark_job_failed now k text mode db)
unfolding mark_job_failed set_error
failed-Present now v k text mode db h =
    set_job-Present v k k (set_error mode now text) db (λ x. refl) h

-- What is left when the function returns: with True the video is ready, the job is completed and the
-- video has a quality; with False the video is pending or failed.
abbrev pub Settled : ℕ → ℕ → ℕ → Bool → Database → Type 0
Settled now v k true db =
    ((x : Video) × (fetch video_id v db.videos ≡ some x) × (x.status ≡ ready))
    × ((j : Job) × (job_of k db ≡ some j) × (j.completed_at ≡ some now))
    × (is_some (find_first (λ (q : VideoQuality). q.video_id == v) db.video_qualities) ≡ true)
Settled now v k false db =
    (x : Video) × (fetch video_id v db.videos ≡ some x)
    × ((x.status ≡ pending) ⊎ (x.status ≡ failed))

pub pending-Settled :
    (now v k : ℕ) (db : Database)
    → Present v k db
    → Settled now v k false (reset_video_to_pending v db)
unfolding reset_video_to_pending set_video_pending
pending-Settled now v k db h =
    let here = set_video-here v k set_video_pending db (λ x. refl) h in
    (set_video_pending here.0, here.1, inl refl)

pub failed-Settled :
    (now v k : ℕ) (text : String) (db : Database)
    → Present v k db
    → Settled now v k false (set_video v (Process.set_failed text) db)
unfolding Process.set_failed
failed-Settled now v k text db h =
    let here = set_video-here v k (Process.set_failed text) db (λ x. refl) h in
    (Process.set_failed text here.0, here.1, inr refl)
