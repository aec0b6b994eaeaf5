-- ===== src/Transcoder/Process.antt =====
-- worker/transcoder.py: `process_video_resumable`. One run takes place at one time, so that the
-- checkpoints between the encodes write what the last update of the step wrote. The texts of error
-- messages, whose form the code builds, are arguments; webhooks, alerts and files leave no trace.
use text.Mathlib.Text.{◌==◌ as str_eq}
use vlog.Prelude.{
  ℕ, String, Bool, true, false, Option, none, some, List, [], ◌∷◌, ◌==◌, ◌&&◌, if◌then◌else◌,
  is_some, leb, ltb, keep_if, find_first,
}
use vlog.Prelude.Text.{take_chars}
use vlog.Prelude.Tables.{fetch}
use vlog.WorkerApi.Schema.{Video, processing, ready, failed, Job, VideoQuality, Database, Config}
use vlog.WorkerApi.Complete.{queue_sprites, fill}
use vlog.WorkerApi.Selection.{job_id}
use vlog.Transcoder.Batches.{Quality, group_qualities_by_resolution}
use vlog.Transcoder.Jobs.{
  retryable, permanent, checkpoint, update_job_step, mark_job_completed, mark_job_failed,
  get_existing_job,
}
use vlog.Transcoder.Recovery.{video_id, set_video, reset_video_to_pending}
use vlog.Transcoder.Qualities.{init_quality_progress}
use vlog.Transcoder.Encodes.{
  Info, at_start, after_probe, after_thumbnail, Outside, Tally, Success, original_step, run_batches,
  verify,
}

-- What a run finds besides the encodes. `probe` has the error of a failed probe; `thumbnail` and
-- `playlists` the error that their step raises, if it does.
pub data Probe : Type 0 where
  probed : Info → Probe
  not_probed : String → Probe

pub record World : Type 0 where
  pub valid_slug : Bool
  pub source_exists : Bool
  pub taken : ℕ → Bool
  pub probe : Probe
  pub thumbnail_exists : Bool
  pub thumbnail : Option String
  pub playlists : Option String
  pub outside : Outside
  pub presets : List Quality
  pub smallest : Quality
  pub parallel_count : ℕ
  pub streaming_format : String
  pub streaming_codec : String
  pub all_failed : List String → String
  pub attempt_failed : ℕ → String → String

-- How a step ends: the next one follows, the function returns, or an exception leaves the `try`.
pub data Step {ℓ} (A : Type ℓ) : Type ℓ where
  next : A → Database → Step A
  returns : Bool → Database → Step A
  raises : String → Database → Step A

unfoldable pub and_then {ℓ κ} :
    {A : Type ℓ} {B : Type κ} → Step A → (A → Database → Step B) → Step B
and_then (next a db) f = f a db
and_then (returns b db) f = returns b db
and_then (raises e db) f = raises e db

unfoldable pub set_failed : String → Video → Video
set_failed text v = record v { status = failed; error_message = some text }

unfoldable pub set_processing : Video → Video
set_processing v = record v { status = processing }

unfoldable pub set_probed : Info → Video → Video
set_probed i v = record v {
  status = processing;
  duration = some i.duration;
  source_width = some i.width;
  source_height = some i.height;
}

unfoldable pub stop_if : Bool → ℕ → Info → Database → Step Info
stop_if true v i db = returns false (reset_video_to_pending v db)
stop_if false v i db = next i db

unfoldable pub is_step : List String → Option String → Bool
is_step names none = true
is_step names (some s) = is_some (find_first (str_eq s) names)

unfoldable pub zero_if_none : Option ℕ → ℕ
zero_if_none none = 0
zero_if_none (some n) = n

-- The row that the probe of an earlier run left.
unfoldable pub info_of : Option Video → Info
info_of none = record { width = 0; height = 0; duration = 0 }
info_of (some v) = record {
  width = zero_if_none v.source_width;
  height = zero_if_none v.source_height;
  duration = zero_if_none v.duration;
}

module _ (c : Config) (w : World) (now v : ℕ) where
  unfoldable pub probe_result : ℕ → Probe → Database → Step Info
  probe_result k (not_probed text) db =
      returns false
        (set_video v (set_failed (take_chars 500 text)) (mark_job_failed now k text permanent db))
  probe_result k (probed i) db =
      stop_if (w.outside.stops after_probe) v i
        (checkpoint c now true k (set_video v (set_probed i) db))

  -- Step 1.
  unfoldable pub probe_step : Job → Database → Step Info
  probe_step job db =
      if is_step ("pending" ∷ "claimed" ∷ "probe" ∷ []) job.current_step
      then probe_result job.id w.probe (update_job_step c now true job.id "probe" db)
      else next (info_of (fetch video_id v db.videos)) db

  unfoldable pub make_thumbnail : ℕ → Option String → Info → Database → Step Info
  make_thumbnail k (some e) i db = raises e db
  make_thumbnail k none i db =
      stop_if (w.outside.stops after_thumbnail) v i (checkpoint c now true k db)

  -- Step 2.
  unfoldable pub thumbnail_step : Job → Info → Database → Step Info
  thumbnail_step job i db =
      if w.thumbnail_exists
      then stop_if (w.outside.stops after_thumbnail) v i (
          if is_step ("probe" ∷ "thumbnail" ∷ []) job.current_step
          then checkpoint c now true job.id (update_job_step c now true job.id "thumbnail" db)
          else db)
      else make_thumbnail job.id w.thumbnail i (update_job_step c now true job.id "thumbnail" db)

  unfoldable pub get_applicable_qualities : ℕ → List Quality
  get_applicable_qualities height = keep_if (λ q. leb q.height height) w.presets

  -- `if not qualities: qualities = [QUALITY_PRESETS[-1]]`.
  unfoldable pub planned : ℕ → List Quality
  planned height = elim (get_applicable_qualities height) [
    | [] ↦ w.smallest ∷ []
    | q ∷ rest ↦ q ∷ rest
  ]

  unfoldable pub tracked : Info → List Quality
  tracked i = record { name = "original"; height = i.height } ∷ planned i.height

  -- The tally after steps 3a and 3b, and whether no shutdown ended them.
  unfoldable pub encode_all : ℕ → Info → Tally → Bool × Tally
  encode_all k i t =
      run_batches w.outside now k 0
        (group_qualities_by_resolution (planned i.height) w.parallel_count)
        (original_step w.outside now k i t)

  -- With step 3c.
  unfoldable pub encode_and_verify : ℕ → Info → Tally → Bool × Tally
  encode_and_verify k i t =
      let made = encode_all k i t in
      if made.0 then verify w.outside now k i (tracked i) 3 0 made.1 else made

  -- `if not successful_qualities: ... raise`.
  unfoldable pub report : List Success → List String → Database → Step (List Success)
  report [] bad db = raises (w.all_failed bad) db
  report (s ∷ more) bad db = next (s ∷ more) db

  unfoldable pub after_encodes : Database → Bool × Tally → Step (List Success)
  after_encodes db (false, t) =
      returns false (reset_video_to_pending v (record db { quality_progress = t.rows }))
  after_encodes db (true, t) =
      report t.successful t.failed (record db { quality_progress = t.rows })

  -- Step 3.
  unfoldable pub transcode_step : Job → Info → Database → Step (List Success)
  transcode_step job i db =
      let started = update_job_step c now true job.id "transcode" db in
      after_encodes started (
        encode_and_verify job.id i (record {
          successful = [];
          failed = [];
          rows = init_quality_progress job.id (tracked i) started.quality_progress;
        }))

  -- Step 4.
  unfoldable pub playlist_step : Job → List Success → Database → Step (List Success)
  playlist_step job done db =
      let started = update_job_step c now true job.id "master_playlist" db in
      elim w.playlists [
        | some e ↦ raises e started
        | none ↦ next done (checkpoint c now true job.id started)
      ]

  -- `if not existing: ... insert`, for each quality.
  unfoldable pub save_qualities : List Success → List VideoQuality → List VideoQuality
  save_qualities [] rows = rows
  save_qualities (s ∷ rest) rows = save_qualities rest (
      if is_some (find_first (λ q. (q.video_id == v) && str_eq q.quality s.name) rows)
      then rows
      else record {
        video_id = v;
        quality = s.name;
        width = s.width;
        height = s.height;
        bitrate = s.bitrate;
      }
        ∷ rows)

  unfoldable pub set_published : Video → Video
  set_published x = record x {
    status = ready;
    streaming_format = some w.streaming_format;
    primary_codec = some (if str_eq w.streaming_format "cmaf" then w.streaming_codec else "h264");
    published_at = fill (some now) x.published_at;
  }

  -- Step 5.
  unfoldable pub finalize_step : Job → List Success → Database → Step Bool
  finalize_step job done db =
      let started = update_job_step c now true job.id "finalize" db in
      let saved = record started {
        video_qualities = save_qualities done started.video_qualities;
      } in
      returns true (
        queue_sprites c (record job { video_id = v })
          (mark_job_completed now job.id (set_video v set_published saved)))

  -- The `try`.
  unfoldable pub steps : Job → Database → Step Bool
  steps job db = and_then (probe_step job db) (λ i db1.
      and_then (thumbnail_step job i db1) (λ i db2. and_then (transcode_step job i db2) (λ done db3.
        and_then (playlist_step job done db3) (λ done db4. finalize_step job done db4))))

  unfoldable pub give_up : ℕ → String → Database → Database
  give_up k e db =
      set_video v (set_failed (take_chars 500 e)) (mark_job_failed now k e permanent db)

  -- The `except`, by the job as it now is.
  unfoldable pub handle : ℕ → String → Database → Database
  handle k e db = elim (fetch job_id k db.jobs) [
    | none ↦ give_up k e db
    | some job ↦
        if ltb job.attempt_number job.max_attempts
        then set_video v (set_failed (w.attempt_failed job.attempt_number (take_chars 400 e)))
            (mark_job_failed now k e retryable db)
        else give_up k e db
  ]

  -- Past the last step a run has returned.
  unfoldable pub finish_run : ℕ → Step Bool → Bool × Database
  finish_run k (next b db) = (b, db)
  finish_run k (returns b db) = (b, db)
  finish_run k (raises e db) = (false, handle k e db)

  unfoldable pub process_job : Database × Option Job → Bool × Database
  process_job (db, none) = (false, db)
  process_job (db, some job) = finish_run job.id (steps job (set_video v set_processing db))

  -- The whole function.
  unfoldable pub process_video_resumable : Bool → Database → Bool × Database
  process_video_resumable locked db =
      if w.valid_slug
      then if w.outside.stops at_start
        then (false, db)
        else if w.source_exists
        then process_job (get_existing_job c (record { now = now; locked = locked }) w.taken v db)
        else (false, set_video v (set_failed "Source file not found") db)
      else (false, set_video v (set_failed "Invalid video slug") db)
