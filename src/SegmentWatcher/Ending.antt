-- ===== src/SegmentWatcher/Ending.antt =====
-- worker/segment_watcher.py: the end of a session, by a crash of ffmpeg or by `flush_remaining`.
use vlog.Prelude.{
  ℕ, String, Bool, true, false, List, [], ◌∷◌, ◌≡◌, ◌⊎◌, ◌||◌, refl, arith, All, Bool-cases, inl,
  inr, if◌then◌else◌,
}
use vlog.SegmentWatcher.Files.{Files, Directory, has, get_segment_files}
use vlog.SegmentWatcher.Polling.{
  SegmentInfo, Watcher, is_candidate, mark_queued, flush_file, flush_files, flush_remaining,
}
use vlog.SegmentWatcher.Watching.{
  Phase, fresh, polling, waiting, returned, putting, Session, Event, start, poll, put_done,
  put_timeout, wait_timeout, stop, notify_ffmpeg_crashed, flush, stop_running, poll_session,
  end_wait, retry_later, hand_over, at_phase, step, run,
}
use vlog.SegmentWatcher.Names.{has_self}
use vlog.SegmentWatcher.Picking.{flush_files-Picks}
use vlog.SegmentWatcher.Uploads.{pending_of, pending-next_phase}

-- A crash was notified, and `P` holds of what was handed over and of what waits for its `put`.
pub record IsCrashed (P : SegmentInfo → Type 0) (s : Session) : Type 0 where
  pub crashed : s.watcher.ffmpeg_crashed ≡ true
  pub stopped : s.watcher.stop_event ≡ true
  pub handed : All P s.handed
  pub waits : All P (pending_of s.phase)

-- A test that is known to hold takes its first branch.
if_true : {A : Type 0} (b : Bool) (x y : A) → b ≡ true → (if b then x else y) ≡ x
if_true true x y h = refl
if_true false x y h = cc

or_true : (a b : Bool) → a ≡ true → a || b ≡ true
or_true a b h = ground arith

poll_stopped :
    (d : Directory) (s : Session)
    → s.watcher.stop_event ≡ true
    → poll_session d s ≡ record s { watcher = stop_running s.watcher; phase = returned }
unfolding poll_session
poll_stopped d s h =
    if_true (s.watcher.stop_event || s.watcher.ffmpeg_crashed) _ _
      (or_true s.watcher.stop_event s.watcher.ffmpeg_crashed h)

wait_stopped :
    (s : Session)
    → s.watcher.stop_event ≡ true
    → end_wait s ≡ record s { watcher = stop_running s.watcher; phase = returned }
unfolding end_wait
wait_stopped s h = if_true s.watcher.stop_event _ _ h

flush_crashed :
    (d : Directory) (w : Watcher) → w.ffmpeg_crashed ≡ true → flush_remaining d w ≡ (w, [])
unfolding flush_remaining
flush_crashed d w h = if_true w.ffmpeg_crashed _ _ h

module _ (P : SegmentInfo → Type 0) where
  at_phase-IsCrashed :
      (e : Event) (p : Phase) (w : Watcher) (handed : List SegmentInfo)
      → IsCrashed P (record { watcher = w; phase = p; handed = handed })
      → IsCrashed P (at_phase e p (record { watcher = w; phase = p; handed = handed }))
  unfolding at_phase retry_later stop_running hand_over
  at_phase-IsCrashed start fresh w handed h = record {
    crashed = h.crashed;
    stopped = h.stopped;
    handed = h.handed;
    waits = tt;
  }
  at_phase-IsCrashed start p w handed h = h
  at_phase-IsCrashed (poll d) polling w handed h =
      rw (poll_stopped d (record { watcher = w; phase = polling; handed = handed }) h.stopped)
        record { crashed = h.crashed; stopped = h.stopped; handed = h.handed; waits = tt }
  at_phase-IsCrashed (poll d) p w handed h = h
  at_phase-IsCrashed put_done (putting x rest) w handed h = record {
    crashed = h.crashed;
    stopped = h.stopped;
    handed = (h.waits.0, h.handed);
    waits = rw (pending-next_phase rest) (h.waits.1);
  }
  at_phase-IsCrashed put_done p w handed h = h
  at_phase-IsCrashed put_timeout (putting x rest) w handed h = record {
    crashed = h.crashed;
    stopped = h.stopped;
    handed = h.handed;
    waits = rw (pending-next_phase rest) (h.waits.1);
  }
  at_phase-IsCrashed put_timeout p w handed h = h
  at_phase-IsCrashed wait_timeout waiting w handed h =
      rw (wait_stopped (record { watcher = w; phase = waiting; handed = handed }) h.stopped)
        record { crashed = h.crashed; stopped = h.stopped; handed = h.handed; waits = tt }
  at_phase-IsCrashed wait_timeout p w handed h = h
  at_phase-IsCrashed stop p w handed h = record {
    crashed = h.crashed;
    stopped = refl;
    handed = h.handed;
    waits = h.waits;
  }
  at_phase-IsCrashed notify_ffmpeg_crashed p w handed h = record {
    crashed = refl;
    stopped = refl;
    handed = h.handed;
    waits = h.waits;
  }
  at_phase-IsCrashed (flush d) p w handed h =
      rw (flush_crashed d w h.crashed)
        record { crashed = h.crashed; stopped = h.stopped; handed = h.handed; waits = h.waits }

  step-IsCrashed : (e : Event) (s : Session) → IsCrashed P s → IsCrashed P (step e s)
  unfolding step
  step-IsCrashed e s h = at_phase-IsCrashed e s.phase s.watcher s.handed h

  -- Once a crash of ffmpeg was notified, whatever happens: a predicate that holds of all segments
  -- that were handed over and of those that then waited for their `put` holds of all that are ever
  -- handed over.
  pub run-IsCrashed : (es : List Event) (s : Session) → IsCrashed P s → IsCrashed P (run es s)
  unfolding run
  run-IsCrashed [] s h = h
  run-IsCrashed (e ∷ rest) s h = run-IsCrashed rest (step e s) (step-IsCrashed e s h)

-- A file is empty or in the set of queued names.
abbrev pub IsTaken : List String → String × ℕ → Type 0
IsTaken q f = (f.1 ≡ 0) ⊎ (has f.0 q ≡ true)

flush_file-IsTaken :
    (w : Watcher) (n : String) (s : ℕ) → IsTaken (flush_file w n s).0.queued_files (n, s)
unfolding flush_file is_candidate mark_queued
flush_file-IsTaken w n s = elim (Bool-cases (has n w.queued_files)) [
  | inl e ↦ ground arith
  | inr e ↦ ground (arith, has_self n w.queued_files)
]

kept-IsTaken :
    (q q' : List String) (n : String) (s : ℕ)
    → ((m : String) → has m q ≡ true → has m q' ≡ true)
    → IsTaken q (n, s)
    → IsTaken q' (n, s)
kept-IsTaken q q' n s keeps (inl e) = inl e
kept-IsTaken q q' n s keeps (inr e) = inr (keeps n e)

flush_files-IsTaken :
    (files : Files) (w : Watcher) → All (IsTaken (flush_files files w).0.queued_files) files
unfolding flush_files
flush_files-IsTaken [] w = tt
flush_files-IsTaken ((n, s) ∷ rest) w =
    let here = flush_file w n s in
    (
      kept-IsTaken here.0.queued_files (flush_files rest here.0).0.queued_files n s
          (flush_files-Picks rest here.0).kept (flush_file-IsTaken w n s),
      flush_files-IsTaken rest here.0,
    )

if_false : {A : Type 0} (b : Bool) (x y : A) → b ≡ false → (if b then x else y) ≡ y
if_false true x y h = cc
if_false false x y h = refl

flush_running :
    (d : Directory) (w : Watcher)
    → w.ffmpeg_crashed ≡ false
    → flush_remaining d w ≡ flush_files (get_segment_files w.streaming_format d) w
unfolding flush_remaining
flush_running d w h = if_false w.ffmpeg_crashed _ _ h

-- Without a crash, after `flush_remaining` every file of the scan is queued or empty, whatever was
-- queued and counted before.
pub flush_remaining-IsTaken :
    (d : Directory) (w : Watcher)
    → w.ffmpeg_crashed ≡ false
    → All (IsTaken (flush_remaining d w).0.queued_files) (get_segment_files w.streaming_format d)
flush_remaining-IsTaken d w h =
    rw (flush_running d w h) (flush_files-IsTaken (get_segment_files w.streaming_format d) w)
