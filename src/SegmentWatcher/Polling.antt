-- ===== src/SegmentWatcher/Polling.antt =====
-- worker/segment_watcher.py: `_check_stable_segments` and `flush_remaining`.
use vlog.Prelude.{
  ℕ, String, Bool, true, false, Option, none, some, List, [], ◌∷◌, ◌+◌, ◌==◌, leb, if◌then◌else◌,
}
use vlog.Prelude.Dicts.{get, put}
use vlog.SegmentWatcher.Files.{
  Files, has, StreamingFormat, cmaf, hls_ts, Directory, get_segment_files,
}

abbrev pub stable_size_polls : ℕ
stable_size_polls = 2

-- Where a segment lies: in the output directory or in its subdirectory for the quality.
pub data QualityDir : Type 0 where
  output_dir subdirectory : QualityDir

pub record SegmentInfo : Type 0 where
  pub filepath : QualityDir × String
  pub quality : String
  pub filename : String
  pub size : ℕ

pub record Watcher : Type 0 where
  pub streaming_format : StreamingFormat
  pub quality_name : String
  pub file_sizes : Files
  pub stable_counts : Files
  pub queued_files : List String
  pub running : Bool
  pub stop_event : Bool
  pub ffmpeg_crashed : Bool

unfoldable pub quality_dir : Watcher → QualityDir
quality_dir w = of_format w.streaming_format
  where
    of_format : StreamingFormat → QualityDir
    of_format cmaf = subdirectory
    of_format hls_ts = output_dir

unfoldable pub segment : Watcher → String → ℕ → SegmentInfo
segment w n s = record {
  filepath = (quality_dir w, n);
  quality = w.quality_name;
  filename = n;
  size = s;
}

unfoldable pub mark_queued : String → Watcher → Watcher
mark_queued n w = record w { queued_files = n ∷ w.queued_files }

unfoldable pub set_count : String → ℕ → Watcher → Watcher
set_count n k w = record w { stable_counts = put n k w.stable_counts }

abbrev pub or_zero : Option ℕ → ℕ
or_zero none = 0
or_zero (some k) = k

abbrev pub same_size : ℕ → Option ℕ → Bool
same_size s none = false
same_size s (some t) = s == t

-- A file that is neither queued nor empty.
unfoldable pub is_candidate : Watcher → String → ℕ → Bool
is_candidate w n s = if has n w.queued_files then false else if s == 0 then false else true

-- The count of a file in this poll: one more if its size is the last poll's, else 0.
unfoldable pub next_count : Watcher → String → ℕ → ℕ
next_count w n s =
    if same_size s (get n w.file_sizes) then or_zero (get n w.stable_counts) + 1 else 0

-- Where the test holds, the file is marked as queued and returned as ready.
abbrev pub mark_if : Bool → String → Watcher → Watcher × Bool
mark_if b n w = if b then (mark_queued n w, true) else (w, false)

-- The body of the loop over the files: the new state, and whether the file is ready.
unfoldable pub check_file : Watcher → String → ℕ → Watcher × Bool
unfolding is_candidate next_count set_count mark_queued
check_file w n s =
    if is_candidate w n s
    then mark_if (leb stable_size_polls (next_count w n s)) n (set_count n (next_count w n s) w)
    else (w, false)

abbrev pub add_if : Bool → SegmentInfo → List SegmentInfo → List SegmentInfo
add_if b x xs = if b then x ∷ xs else xs

unfoldable pub check_files : Files → Watcher → Watcher × List SegmentInfo
unfolding check_file segment
check_files [] w = (w, [])
check_files ((n, s) ∷ rest) w =
    let here = check_file w n s in
    let later = check_files rest here.0 in (later.0, add_if here.1 (segment w n s) later.1)

unfoldable pub check_stable_segments : Directory → Watcher → Watcher × List SegmentInfo
unfolding check_files
check_stable_segments d w =
    let files = get_segment_files w.streaming_format d in
    let checked = check_files files w in (record (checked.0) { file_sizes = files }, checked.1)

unfoldable pub flush_file : Watcher → String → ℕ → Watcher × Bool
unfolding is_candidate mark_queued
flush_file w n s = if is_candidate w n s then (mark_queued n w, true) else (w, false)

unfoldable pub flush_files : Files → Watcher → Watcher × List SegmentInfo
unfolding flush_file segment
flush_files [] w = (w, [])
flush_files ((n, s) ∷ rest) w =
    let here = flush_file w n s in
    let later = flush_files rest here.0 in (later.0, add_if here.1 (segment w n s) later.1)

unfoldable pub flush_remaining : Directory → Watcher → Watcher × List SegmentInfo
unfolding flush_files
flush_remaining d w =
    if w.ffmpeg_crashed then (w, []) else flush_files (get_segment_files w.streaming_format d) w
