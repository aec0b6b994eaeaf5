-- ===== src/SegmentWatcher/Watching.antt =====
-- worker/segment_watcher.py: `watch` with the calls that other tasks make between its awaits. Each
-- event is what happens up to the next await.
use vlog.Prelude.{true, false, List, [], ◌∷◌, ◌||◌, if◌then◌else◌}
use vlog.SegmentWatcher.Files.{Directory, discard}
use vlog.SegmentWatcher.Polling.{SegmentInfo, Watcher, check_stable_segments, flush_remaining}

-- Where `watch` stands: not called, at the head of the loop, before the `put` of the first of some
-- segments, at the wait for the stop event, returned.
pub data Phase : Type 0 where
  fresh polling waiting returned : Phase
  putting : SegmentInfo → List SegmentInfo → Phase

-- `handed` lists what was put into the upload queue or returned by `flush_remaining`, the last first.
pub record Session : Type 0 where
  pub watcher : Watcher
  pub phase : Phase
  pub handed : List SegmentInfo

pub data Event : Type 0 where
  start : Event
  poll : Directory → Event
  put_done : Event
  put_timeout : Event
  wait_timeout : Event
  stop : Event
  notify_ffmpeg_crashed : Event
  flush : Directory → Event

unfoldable pub next_phase : List SegmentInfo → Phase
next_phase [] = waiting
next_phase (x ∷ rest) = putting x rest

unfoldable pub stop_running : Watcher → Watcher
stop_running w = record w { running = false }

unfoldable pub poll_session : Directory → Session → Session
unfolding check_stable_segments next_phase stop_running
poll_session d s =
    if s.watcher.stop_event || s.watcher.ffmpeg_crashed
    then record s { watcher = stop_running s.watcher; phase = returned }
    else let checked = check_stable_segments d s.watcher in
      record s { watcher = checked.0; phase = next_phase checked.1 }

unfoldable pub end_wait : Session → Session
unfolding stop_running
end_wait s =
    if s.watcher.stop_event
    then record s { watcher = stop_running s.watcher; phase = returned }
    else record s { phase = polling }

unfoldable pub retry_later : SegmentInfo → Watcher → Watcher
retry_later x w = record w { queued_files = discard x.filename w.queued_files }

unfoldable pub hand_over : List SegmentInfo → List SegmentInfo → List SegmentInfo
hand_over [] handed = handed
hand_over (x ∷ rest) handed = hand_over rest (x ∷ handed)

unfoldable pub at_phase : Event → Phase → Session → Session
unfolding poll_session end_wait retry_later
at_phase start fresh s = record s {
  watcher = record (s.watcher) { running = true };
  phase = polling;
}
at_phase (poll d) polling s = poll_session d s
at_phase put_done (putting x rest) s = record s { phase = next_phase rest; handed = x ∷ s.handed }
at_phase put_timeout (putting x rest) s = record s {
  watcher = retry_later x s.watcher;
  phase = next_phase rest;
}
at_phase wait_timeout waiting s = end_wait s
at_phase stop p s = record s { watcher = record (s.watcher) { stop_event = true } }
at_phase notify_ffmpeg_crashed p s = record s {
  watcher = record (s.watcher) { ffmpeg_crashed = true; stop_event = true };
}
at_phase (flush d) p s =
    let flushed = flush_remaining d s.watcher in
    record s { watcher = flushed.0; handed = hand_over flushed.1 s.handed }
at_phase e p s = s

-- One event; an event that does not fit where `watch` stands changes nothing.
unfoldable pub step : Event → Session → Session
unfolding at_phase
step e s = at_phase e s.phase s

unfoldable pub run : List Event → Session → Session
unfolding step
run [] s = s
run (e ∷ rest) s = run rest (step e s)
