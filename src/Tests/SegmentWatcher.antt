-- ===== src/Tests/SegmentWatcher.antt =====
-- worker/segment_watcher.py on a small directory.
use vlog.Prelude.{ℕ, String, true, false, some, List, [], ◌∷◌, ◌≡◌, refl}
use vlog.Prelude.Dicts.{get, put}
use vlog.SegmentWatcher.Files.{
  cmaf, Entry, Directory, get_segment_files, collect, put_sized, has, discard,
}
use vlog.SegmentWatcher.Polling.{Watcher, segment, flush_remaining}
use vlog.SegmentWatcher.Watching.{
  Session, Event, start, poll, put_done, put_timeout, wait_timeout, stop, flush, run, polling,
  hand_over,
}
use vlog.SegmentWatcher.Names.{Distinct}
use vlog.SegmentWatcher.Picking.{names}
use vlog.SegmentWatcher.Uploads.{begin, run-once}

abbrev watcher : Watcher
watcher = record {
  streaming_format = cmaf;
  quality_name = "720p";
  file_sizes = [];
  stable_counts = [];
  queued_files = [];
  running = false;
  stop_event = false;
  ffmpeg_crashed = false;
}

abbrev file : String → String → ℕ → Entry
file n suffix s = record { name = n; suffix = suffix; is_file = true; size = some s }

abbrev directory : ℕ → Directory
directory growing = record {
  exists_ = true;
  entries =
      file "init.mp4" ".mp4" 700
      ∷ file "seg_0001.m4s" ".m4s" growing
      ∷ file "notes.txt" ".txt" 5
      ∷ [];
  matching = [];
}

abbrev round : ℕ → List Event → List Event
round growing rest = poll (directory growing) ∷ put_done ∷ wait_timeout ∷ rest

abbrev events : List Event
events =
    start
    ∷ round 10 (
        round 20 (
          round 20
            (round 20 (poll (directory 20) ∷ stop ∷ wait_timeout ∷ flush (directory 20) ∷ []))))

program : Unit {0}
unfolding run get_segment_files flush_remaining collect put_sized put has get hand_over discard
program = tt

-- The initialisation segment is stable at the third poll, the other at the fourth.
third_poll :
    names (run (start ∷ round 10 (round 20 (round 20 []))) (begin watcher)).handed ≡ "init.mp4" ∷ []
unfolding program
third_poll = refl

all_events : names (run events (begin watcher)).handed ≡ "seg_0001.m4s" ∷ "init.mp4" ∷ []
unfolding program
all_events = refl

-- A `put` that times out is tried again at the next poll.
retried :
    names
      (run
        (start
          ∷ round 10 (round 20 (poll (directory 20) ∷ put_timeout ∷ wait_timeout ∷ round 20 [])))
        (begin watcher)).handed
    ≡ "init.mp4" ∷ []
unfolding program
retried = refl

run-once_example : Distinct (names (run events (begin watcher)).handed)
run-once_example = run-once events watcher

abbrev crashed : Session
crashed =
    record (begin (record watcher { running = true; stop_event = true; ffmpeg_crashed = true })) {
      phase = polling;
      handed = segment watcher "init.mp4" 700 ∷ [];
    }
