-- ===== src/SegmentWatcher/Stability.antt =====
-- worker/segment_watcher.py: which segments `_check_stable_segments` takes for finished.
use vlog.Prelude.{
  ℕ, String, Bool, true, false, Option, none, some, List, [], ◌∷◌, ◌≡◌, ◌≤◌, refl, arith, All,
}
use vlog.Prelude.Dicts.{Dict, get}
use vlog.SegmentWatcher.Files.{Files, Directory, get_segment_files}
use vlog.SegmentWatcher.Polling.{
  SegmentInfo, Watcher, is_candidate, next_count, check_file, check_files, check_stable_segments,
  segment, mark_queued, set_count, add_if, same_size,
}

-- Not empty, and of the size that the last scan found.
abbrev pub IsSettled : Dict ℕ → SegmentInfo → Type 0
IsSettled sizes x = (1 ≤ x.size) × (get x.filename sizes ≡ some x.size)

same_size-some : (s : ℕ) (o : Option ℕ) → same_size s o ≡ true → o ≡ some s
same_size-some s none h = cc
same_size-some s (some t) h = ground (arith, h)

check_file-sizes :
    (w : Watcher) (n : String) (s : ℕ) → (check_file w n s).0.file_sizes ≡ w.file_sizes
unfolding check_file mark_queued set_count
check_file-sizes w n s = ground arith

check_file-ready :
    (w : Watcher) (n : String) (s : ℕ)
    → (check_file w n s).1 ≡ true
    → (1 ≤ s) × (same_size s (get n w.file_sizes) ≡ true)
unfolding check_file is_candidate next_count
check_file-ready w n s h = ground (arith, h)

add-IsSettled :
    (sizes : Dict ℕ) (b : Bool) (x : SegmentInfo) (later : List SegmentInfo)
    → (b ≡ true → IsSettled sizes x)
    → All (IsSettled sizes) later
    → All (IsSettled sizes) (add_if b x later)
add-IsSettled sizes true x later h i = (h refl, i)
add-IsSettled sizes false x later h i = i

check_files-All :
    (files : Files) (w : Watcher) → All (IsSettled w.file_sizes) (check_files files w).1
unfolding check_files segment
check_files-All [] w = tt
check_files-All ((n, s) ∷ rest) w =
    let here = check_file w n s in
    add-IsSettled w.file_sizes here.1 (segment w n s) (check_files rest here.0).1
      (λ e. let r = check_file-ready w n s e in (r.0, same_size-some s (get n w.file_sizes) r.1))
      (rw (check_file-sizes w n s) at (check_files-All rest here.0))

-- Every segment that `_check_stable_segments` returns is of at least one byte, and of the very size
-- that the scan before found under its name.
pub check_stable_segments-All :
    (d : Directory) (w : Watcher) → All (IsSettled w.file_sizes) (check_stable_segments d w).1
unfolding check_stable_segments
check_stable_segments-All d w = check_files-All (get_segment_files w.streaming_format d) w
