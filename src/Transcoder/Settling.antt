-- ===== src/Transcoder/Settling.antt =====
-- worker/transcoder.py: the steps of `process_video_resumable`, and how the whole of it ends.
use text.Mathlib.Text.{◌==◌ as str_eq}
use vlog.Prelude.{
  ℕ, String, Bool, true, false, Option, none, some, List, [], ◌∷◌, ◌==◌, ◌≡◌, inl, inr, refl, arith,
  is_some, is_none, find_first, Option-cases, Bool-cases, ◌&&◌,
}
use vlog.Prelude.Text.{take_chars}
use vlog.WorkerApi.Schema.{Job, VideoQuality, Database, Config}
use vlog.WorkerApi.Complete.{queue_sprites, set_sprite_pending}
use vlog.Transcoder.Jobs.{
  permanent, set_job, update_job_step, mark_job_completed, set_done, mark_job_failed,
}
use vlog.Transcoder.Recovery.{video_id, set_video}
use vlog.Transcoder.Encodes.{Info, Tally, Success, after_probe, after_thumbnail}
use vlog.Transcoder.Process.{
  World, Probe, probed, not_probed, Step, next, returns, raises, and_then, set_probed, stop_if,
  is_step, probe_result, probe_step, make_thumbnail, thumbnail_step, report, after_encodes,
  transcode_step, playlist_step, save_qualities, set_published, finalize_step, steps,
}
use vlog.Transcoder.Outcomes.{
  Present, set_video-Present, step-Present, checkpoint-Present, failed-Present, Settled,
  pending-Settled, failed-Settled, find_updated, set_video-here, set_job-here,
}

-- A step that goes on, or raises, leaves the rows in place, with `Q` of what it hands on; one that
-- returns leaves them settled.
abbrev pub Good {ℓ} : {A : Type ℓ} → (A → Type 0) → ℕ → ℕ → ℕ → Step A → Type 0
Good Q now v k (next a db) = Q a × Present v k db
Good Q now v k (returns b db) = Settled now v k b db
Good Q now v k (raises e db) = Present v k db

and_then-Good {ℓ κ} :
    {A : Type ℓ} {B : Type κ} (Q : A → Type 0) (R : B → Type 0) (now v k : ℕ) (m : Step A)
    (f : A → Database → Step B)
    → Good Q now v k m
    → ((a : A) (db : Database) → Q a → Present v k db → Good R now v k (f a db))
    → Good R now v k (and_then m f)
unfolding and_then
and_then-Good Q R now v k (next a db) f h go = go a db h.0 h.1
and_then-Good Q R now v k (returns b db) f h go = h
and_then-Good Q R now v k (raises e db) f h go = h

abbrev pub Any {ℓ} : {A : Type ℓ} → A → Type 0
Any a = Unit

-- The step does not go on.
abbrev pub Never {ℓ} : {A : Type ℓ} → A → Type 0
Never a = ⊥

-- The list has a first element.
abbrev pub NonEmpty {ℓ} : {A : Type ℓ} → List A → Type 0
NonEmpty [] = ⊥
NonEmpty (x ∷ xs) = Unit

stop_if-Good :
    (stop : Bool) (now v k : ℕ) (i : Info) (db : Database)
    → Present v k db
    → Good Any now v k (stop_if stop v i db)
unfolding stop_if
stop_if-Good true now v k i db h = pending-Settled now v k db h
stop_if-Good false now v k i db h = (tt, h)

module _ (c : Config) (w : World) (now v : ℕ) where
  probe_result-Good :
      (k : ℕ) (p : Probe) (db : Database)
      → Present v k db
      → Good Any now v k (probe_result c w now v k p db)
  unfolding probe_result set_probed
  probe_result-Good k (not_probed text) db h =
      failed-Settled now v k (take_chars 500 text) (mark_job_failed now k text permanent db)
        (failed-Present now v k text permanent db h)
  probe_result-Good k (probed i) db h =
      stop_if-Good (w.outside.stops after_probe) now v k i _
        (checkpoint-Present c now v k _ (set_video-Present v k v (set_probed i) db (λ x. refl) h))

  probe_step-Good :
      (job : Job) (db : Database)
      → Present v job.id db
      → Good Any now v job.id (probe_step c w now v job db)
  unfolding probe_step
  probe_step-Good job db h =
      elim (Bool-cases (is_step ("pending" ∷ "claimed" ∷ "probe" ∷ []) job.current_step)) [
        | inl e ↦
            rw (e, probe_step)
              (probe_result-Good job.id w.probe _ (step-Present c now v job.id "probe" db h))
        | inr e ↦ rw (e, probe_step) (tt, h)
      ]

  make_thumbnail-Good :
      (k : ℕ) (e : Option String) (i : Info) (db : Database)
      → Present v k db
      → Good Any now v k (make_thumbnail c w now v k e i db)
  unfolding make_thumbnail
  make_thumbnail-Good k (some e) i db h = h
  make_thumbnail-Good k none i db h =
      stop_if-Good (w.outside.stops after_thumbnail) now v k i _ (checkpoint-Present c now v k db h)

  thumbnail_step-Good :
      (job : Job) (i : Info) (db : Database)
      → Present v job.id db
      → Good Any now v job.id (thumbnail_step c w now v job i db)
  unfolding thumbnail_step make_thumbnail
  thumbnail_step-Good job i db h = elim (Bool-cases w.thumbnail_exists) [
    | inl e ↦ elim (Bool-cases (is_step ("probe" ∷ "thumbnail" ∷ []) job.current_step)) [
      | inl e' ↦
          rw (e, e', thumbnail_step)
            (stop_if-Good (w.outside.stops after_thumbnail) now v job.id i _
              (checkpoint-Present c now v job.id _ (step-Present c now v job.id "thumbnail" db h)))
      | inr e' ↦
          rw (e, e', thumbnail_step)
            (stop_if-Good (w.outside.stops after_thumbnail) now v job.id i db h)
    ]
    | inr e ↦
        rw (e, thumbnail_step)
          (make_thumbnail-Good job.id w.thumbnail i _
            (step-Present c now v job.id "thumbnail" db h))
  ]

  report-Good :
      (k : ℕ) (done : List Success) (bad : List String) (db : Database)
      → Present v k db
      → Good NonEmpty now v k (report c w now v done bad db)
  unfolding report
  report-Good k [] bad db h = h
  report-Good k (s ∷ more) bad db h = (tt, h)

  after_encodes-Good :
      (k : ℕ) (db : Database) (r : Bool × Tally)
      → Present v k db
      → Good NonEmpty now v k (after_encodes c w now v db r)
  unfolding after_encodes
  after_encodes-Good k db (false, t) h =
      pending-Settled now v k (record db { quality_progress = t.rows })
        (record { video = h.video; job = h.job })
  after_encodes-Good k db (true, t) h =
      report-Good k t.successful t.failed (record db { quality_progress = t.rows })
        (record { video = h.video; job = h.job })

  transcode_step-Good :
      (job : Job) (i : Info) (db : Database)
      → Present v job.id db
      → Good NonEmpty now v job.id (transcode_step c w now v job i db)
  unfolding transcode_step
  transcode_step-Good job i db h =
      after_encodes-Good job.id _ _ (step-Present c now v job.id "transcode" db h)

  playlist_step-Good :
      (job : Job) (done : List Success) (db : Database)
      → NonEmpty done
      → Present v job.id db
      → Good NonEmpty now v job.id (playlist_step c w now v job done db)
  unfolding playlist_step
  playlist_step-Good job done db some_ h = elim (Option-cases w.playlists) [
    | inl e ↦
        rw (e, playlist_step)
          (
            some_,
            checkpoint-Present c now v job.id _
                (step-Present c now v job.id "master_playlist" db h),
          )
    | inr (x, e) ↦ rw (e, playlist_step) (step-Present c now v job.id "master_playlist" db h)
  ]

  -- The video has a row of video_qualities.
  abbrev HasQuality : List VideoQuality → Type 0
  HasQuality rows = is_some (find_first (λ (q : VideoQuality). q.video_id == v) rows) ≡ true

  found-HasQuality :
      (n : String) (rows : List VideoQuality)
      → is_some (find_first (λ (q : VideoQuality). (q.video_id == v) && str_eq q.quality n) rows)
        ≡ true
      → HasQuality rows
  found-HasQuality n [] h = cc
  found-HasQuality n (q ∷ rest) h = ground (arith, found-HasQuality n rest)

  save_qualities-kept :
      (done : List Success) (rows : List VideoQuality)
      → HasQuality rows
      → HasQuality (save_qualities c w now v done rows)
  unfolding save_qualities
  save_qualities-kept [] rows h = h
  save_qualities-kept (s ∷ rest) rows h =
      elim (Bool-cases (
        is_some
          (find_first (λ (q : VideoQuality). (q.video_id == v) && str_eq q.quality s.name) rows))) [
            | inl e ↦ rw (e, save_qualities) (save_qualities-kept rest rows h)
            | inr e ↦ rw (e, save_qualities) (save_qualities-kept rest _ (ground (arith, h)))
          ]

  save_qualities-HasQuality :
      (done : List Success) (rows : List VideoQuality)
      → NonEmpty done
      → HasQuality (save_qualities c w now v done rows)
  unfolding save_qualities
  save_qualities-HasQuality [] rows h = elim h [ ]
  save_qualities-HasQuality (s ∷ rest) rows h =
      elim (Bool-cases (
        is_some
          (find_first (λ (q : VideoQuality). (q.video_id == v) && str_eq q.quality s.name) rows))) [
            | inl e ↦
                rw (e, save_qualities)
                  (save_qualities-kept rest rows (found-HasQuality s.name rows e))
            | inr e ↦ rw (e, save_qualities) (save_qualities-kept rest _ (ground arith))
          ]

  sprites-Settled :
      (k : ℕ) (job : Job) (db : Database)
      → Settled now v k true db
      → Settled now v k true (queue_sprites c job db)
  unfolding queue_sprites set_sprite_pending
  sprites-Settled k job db h =
      elim (Bool-cases (
        c.sprite_sheets
        && is_none (find_first (λ s. (s.video_id == job.video_id) && s.open_) db.sprite_queue))) [
          | inr e ↦ rw (e, queue_sprites) h
          | inl e ↦
              let (x, found, status) = h.0 in
              let updated =
                find_updated video_id (λ y. y.id == job.video_id) set_sprite_pending (λ y. refl) v
                  db.videos x found in
              rw (e, queue_sprites) ((_, updated, ground (arith, status)), h.1, h.2)
        ]

  finished :
      (k : ℕ) (done : List Success) (db : Database)
      → NonEmpty done
      → Present v k db
      → Settled now v k true (
          mark_job_completed now k (
            set_video v
              (set_published c w now v)
              (record db { video_qualities = save_qualities c w now v done db.video_qualities })))
  unfolding mark_job_completed set_video set_job set_done set_published
  finished k done db some_ h =
      let saved = record db {
        video_qualities = save_qualities c w now v done db.video_qualities;
      } in
      let there : Present v k saved = record { video = h.video; job = h.job } in
      let x = set_video-here v k (set_published c w now v) saved (λ y. refl) there in
      let j = set_job-here v k (set_done now) saved (λ y. refl) there in
      (
        (set_published c w now v x.0, x.1, refl),
        (set_done now j.0, j.1, refl),
        save_qualities-HasQuality done db.video_qualities some_,
      )

  finalize_step-Good :
      (job : Job) (done : List Success) (db : Database)
      → NonEmpty done
      → Present v job.id db
      → Good Never now v job.id (finalize_step c w now v job done db)
  unfolding finalize_step
  finalize_step-Good job done db some_ h =
      sprites-Settled job.id (record job { video_id = v }) _
        (completed (update_job_step c now true job.id "finalize" db)
          (step-Present c now v job.id "finalize" db h))
    where
      completed :
          (at : Database)
          → Present v job.id at
          → Settled now v job.id true (
              mark_job_completed now job.id (
                set_video v (set_published c w now v) (record at {
                  video_qualities = save_qualities c w now v done at.video_qualities;
                })))
      completed at p = finished job.id done at some_ p

  pub steps-Good :
      (job : Job) (db : Database)
      → Present v job.id db
      → Good Never now v job.id (steps c w now v job db)
  unfolding steps
  steps-Good job db h =
      and_then-Good Any Never now v job.id _ _ (probe_step-Good job db h) (λ i db1 _ h1.
        and_then-Good Any Never now v job.id _ _ (thumbnail_step-Good job i db1 h1) (λ i db2 _ h2.
          and_then-Good NonEmpty Never now v job.id _ _ (transcode_step-Good job i db2 h2)
            (λ done db3 some_ h3.
              and_then-Good NonEmpty Never now v job.id _ _
                (playlist_step-Good job done db3 some_ h3)
                (λ done db4 more h4. finalize_step-Good job done db4 more h4))))
