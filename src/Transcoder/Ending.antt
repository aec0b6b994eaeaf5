-- ===== src/Transcoder/Ending.antt =====
-- worker/transcoder.py: every run of `process_video_resumable` that gets its job settles the video.
use vlog.Prelude.{
  ℕ, String, Bool, true, false, not, Option, none, some, List, [], ◌∷◌, ◌==◌, ◌≡◌, refl, sym, ap,
  ◌∙◌, arith, ltb, find_first, Option-cases, Bool-cases, inl, inr, ◌&&◌,
}
use mathlib.Core.Path.{subst}
use vlog.Prelude.Text.{take_chars}
use vlog.Prelude.Tables.{fetch}
use vlog.WorkerApi.Schema.{Video, Job, Database, Config, Moment}
use vlog.WorkerApi.Selection.{job_id}
use vlog.Transcoder.Jobs.{
  retryable, permanent, get_existing_job, obtain, is_obtainable, set_local, mark_job_failed,
}
use vlog.Transcoder.Recovery.{video_id, set_video}
use vlog.Transcoder.Encodes.{at_start}
use vlog.Transcoder.Process.{
  World, Step, next, returns, raises, set_processing, steps, give_up, handle, finish_run,
  process_job, process_video_resumable,
}
use vlog.Transcoder.Outcomes.{
  Present, set_job-Present, set_video-Present, failed-Present, Settled, failed-Settled,
}
use vlog.Transcoder.Settling.{Good, Never, steps-Good}

-- A job that a SELECT found is in the table under its id.
found_by_id :
    (p : Job → Bool) (xs : List Job) (j : Job)
    → find_first p xs ≡ some j
    → (i : Job) × (fetch job_id j.id xs ≡ some i)
found_by_id p [] j h = cc
found_by_id p (x ∷ xs) j h = elim (Bool-cases (x.id == j.id)) [
  | inl e ↦ (x, rw e refl)
  | inr e ↦
      let later : find_first p xs ≡ some j = ground (arith, h, e) in
      let rest = found_by_id p xs j later in (rest.0, rw e (rest.1))
]

obtain-Present :
    (c : Config) (now v : ℕ) (p : Job → Bool) (db : Database) (x : Video) (r : Option Job)
    (job : Job)
    → fetch video_id v db.videos ≡ some x
    → find_first p db.jobs ≡ r
    → (obtain c now r db).1 ≡ some job
    → Present v job.id (obtain c now r db).0
unfolding obtain set_local
obtain-Present c now v p db x none job video e h = cc
obtain-Present c now v p db x (some j) job video e h =
    let same : j ≡ job = cc h in
    set_job-Present v job.id j.id (set_local c now) db (λ y. refl)
      (record { video = (x, video); job = found_by_id p db.jobs job (rw (sym same) e) })

get_existing_job-Present :
    (c : Config) (m : Moment) (taken : ℕ → Bool) (v : ℕ) (db : Database) (x : Video) (job : Job)
    → fetch video_id v db.videos ≡ some x
    → (get_existing_job c m taken v db).1 ≡ some job
    → Present v job.id (get_existing_job c m taken v db).0
unfolding get_existing_job
get_existing_job-Present c m taken v db x job video h = elim (Bool-cases m.locked) [
  | inl e ↦ let gone : none ≡ some job = sym (rw (e, get_existing_job) refl) ∙ h in cc
  | inr e ↦
      let got =
        obtain c m.now (find_first (λ j. not (taken j.id) && is_obtainable m.now v j) db.jobs) db in
      let eq : get_existing_job c m taken v db ≡ got = rw (e, get_existing_job) refl in
      rw eq (
        obtain-Present c m.now v (λ j. not (taken j.id) && is_obtainable m.now v j) db x _ job video
          refl (sym (ap (λ r. r.1) eq) ∙ h))
]

module _ (c : Config) (w : World) (now v : ℕ) where
  give_up-Settled :
      (k : ℕ) (e : String) (db : Database)
      → Present v k db
      → Settled now v k false (give_up c w now v k e db)
  unfolding give_up
  give_up-Settled k e db h =
      failed-Settled now v k (take_chars 500 e) (mark_job_failed now k e permanent db)
        (failed-Present now v k e permanent db h)

  handle-Settled :
      (k : ℕ) (e : String) (db : Database)
      → Present v k db
      → Settled now v k false (handle c w now v k e db)
  unfolding handle
  handle-Settled k e db h = elim (Option-cases (fetch job_id k db.jobs)) [
    | inl p ↦ rw (p, handle) (give_up-Settled k e db h)
    | inr (job, p) ↦ elim (Bool-cases (ltb job.attempt_number job.max_attempts)) [
      | inl q ↦
          rw (p, q, handle)
            (failed-Settled now v k (w.attempt_failed job.attempt_number (take_chars 400 e))
              (mark_job_failed now k e retryable db) (failed-Present now v k e retryable db h))
      | inr q ↦ rw (p, q, handle) (give_up-Settled k e db h)
    ]
  ]

  finish_run-Settled :
      (k : ℕ) (s : Step Bool)
      → Good Never now v k s
      → Settled now v k (finish_run c w now v k s).0 (finish_run c w now v k s).1
  unfolding finish_run
  finish_run-Settled k (next b db) h = elim h.0 [ ]
  finish_run-Settled k (returns b db) h = h
  finish_run-Settled k (raises e db) h = handle-Settled k e db h

  process_job-Settled :
      (got : Database × Option Job) (job : Job)
      → got.1 ≡ some job
      → Present v job.id got.0
      → Settled now v job.id (process_job c w now v got).0 (process_job c w now v got).1
  unfolding process_job set_processing
  process_job-Settled (db, none) job e h = cc
  process_job-Settled (db, some j) job e h =
      let same : job ≡ j = cc e in
      subst
        (λ k.
          Settled now v k.id (process_job c w now v (db, some j)).0
            (process_job c w now v (db, some j)).1)
        (sym same)
        (finish_run-Settled j.id (steps c w now v j (set_video v set_processing db)) (
          steps-Good c w now v j _ (
            set_video-Present v j.id v set_processing db (λ x. refl)
              (subst (λ k. Present v k.id db) same h))))

  reaches_job :
      (locked : Bool) (db : Database)
      → w.valid_slug ≡ true
      → w.outside.stops at_start ≡ false
      → w.source_exists ≡ true
      → process_video_resumable c w now v locked db
        ≡ process_job c w now v
            (get_existing_job c (record { now = now; locked = locked }) w.taken v db)
  unfolding process_video_resumable
  reaches_job locked db slug start source = ground (arith, slug, start, source)

  -- A run on a video with a valid slug and a source file, not asked to shut down at its start, that
  -- gets the job it looked for, settles the video, whatever its subprocesses and files answer and
  -- whenever a shutdown is asked for: if it returns True, the video is ready, its job is completed
  -- now and it has a row in video_qualities; if it returns False, the video is pending or failed.
  pub process_video-Settled :
      (locked : Bool) (db : Database) (x : Video) (job : Job)
      → w.valid_slug ≡ true
      → w.outside.stops at_start ≡ false
      → w.source_exists ≡ true
      → fetch video_id v db.videos ≡ some x
      → (get_existing_job c (record { now = now; locked = locked }) w.taken v db).1 ≡ some job
      → Settled now v job.id
          (process_video_resumable c w now v locked db).0
          (process_video_resumable c w now v locked db).1
  process_video-Settled locked db x job slug start source video got =
      let m : Moment = record { now = now; locked = locked } in
      subst (λ r. Settled now v job.id r.0 r.1) (sym (reaches_job locked db slug start source))
        (process_job-Settled (get_existing_job c m w.taken v db) job got
          (get_existing_job-Present c m w.taken v db x job video got))
