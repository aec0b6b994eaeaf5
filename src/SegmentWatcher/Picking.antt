-- ===== src/SegmentWatcher/Picking.antt =====
-- worker/segment_watcher.py: what the loops over the files of `_check_stable_segments` and
-- `flush_remaining` pick.
use text.Mathlib.Text.{◌==◌ as str_eq}
use vlog.Prelude.{
  ℕ, String, Bool, true, false, sym, ◌⊎◌, List, [], ◌∷◌, ◌≡◌, refl, arith, All, All-map, inl, inr,
  if◌then◌else◌,
}
use vlog.SegmentWatcher.Files.{Files, has, get_segment_files, Directory}
use vlog.SegmentWatcher.Polling.{
  SegmentInfo, Watcher, is_candidate, check_file, check_files, check_stable_segments, flush_file,
  flush_files, flush_remaining, segment, mark_queued, set_count, add_if,
}
use vlog.SegmentWatcher.Names.{Distinct, has_self, str_eq_sym}

abbrev pub names : List SegmentInfo → List String
names [] = []
names (x ∷ rest) = x.filename ∷ names rest

-- Names picked one after another, from the queued names `q` up to `q'`.
pub record Picks (q q' : List String) (ns : List String) : Type 0 where
  pub unqueued : All (λ n. has n q ≡ false) ns
  pub marked : All (λ n. has n q' ≡ true) ns
  pub kept : (n : String) → has n q ≡ true → has n q' ≡ true
  pub distinct : Distinct ns

pub Picks-none : (q : List String) → Picks q q []
Picks-none q = record { unqueued = tt; marked = tt; kept = λ n h. h; distinct = tt }

-- A name that is not in the set that the others were picked from is none of them.
fresh_of :
    (n : String) (q ns : List String) → All (λ m. has m (n ∷ q) ≡ false) ns → has n ns ≡ false
unfolding has
fresh_of n q [] h = refl
fresh_of n q (m ∷ rest) h =
    let apart : str_eq n m ≡ false = str_eq_sym m n (ground (arith, h.0)) in
    ground (arith, fresh_of n q rest h.1)

pub Picks-cons :
    (n : String) (q q' ns : List String)
    → has n q ≡ false
    → Picks (n ∷ q) q' ns
    → Picks q q' (n ∷ ns)
unfolding has
Picks-cons n q q' ns new p = record {
  unqueued = (new, All-map (λ m h. ground arith) ns p.unqueued);
  marked = (p.kept n (has_self n q), p.marked);
  kept = λ m h. p.kept m (ground arith);
  distinct = (fresh_of n q ns p.unqueued, p.distinct);
}

-- What one step of a loop over the files does to the queued names.
Picked : Watcher → String → Watcher × Bool → Type 0
Picked w n r =
    ((r.1 ≡ false) × (r.0.queued_files ≡ w.queued_files))
    ⊎ ((r.1 ≡ true) × (has n w.queued_files ≡ false) × (r.0.queued_files ≡ n ∷ w.queued_files))

check_file-Picked : (w : Watcher) (n : String) (s : ℕ) → Picked w n (check_file w n s)
unfolding Picked check_file is_candidate mark_queued set_count
check_file-Picked w n s = ground arith

flush_file-Picked : (w : Watcher) (n : String) (s : ℕ) → Picked w n (flush_file w n s)
unfolding Picked flush_file is_candidate mark_queued
flush_file-Picked w n s = ground arith

Picks-file :
    (w : Watcher) (n : String) (s : ℕ) (r : Watcher × Bool) (q' : List String)
    (later : List SegmentInfo)
    → Picked w n r
    → Picks r.0.queued_files q' (names later)
    → Picks w.queued_files q' (names (add_if r.1 (segment w n s) later))
unfolding Picked segment
Picks-file w n s r q' later (inl e) p = rw (e.0, sym e.1) p
Picks-file w n s r q' later (inr e) p =
    rw (e.0) (Picks-cons n w.queued_files q' (names later) e.1 (rw (e.2) at p))

check_files-Picks :
    (files : Files) (w : Watcher)
    → Picks w.queued_files (check_files files w).0.queued_files (names (check_files files w).1)
unfolding check_files
check_files-Picks [] w = Picks-none w.queued_files
check_files-Picks ((n, s) ∷ rest) w =
    let here = check_file w n s in
    let later = check_files rest here.0 in
    Picks-file w n s here later.0.queued_files later.1 (check_file-Picked w n s)
      (check_files-Picks rest here.0)

pub flush_files-Picks :
    (files : Files) (w : Watcher)
    → Picks w.queued_files (flush_files files w).0.queued_files (names (flush_files files w).1)
unfolding flush_files
flush_files-Picks [] w = Picks-none w.queued_files
flush_files-Picks ((n, s) ∷ rest) w =
    let here = flush_file w n s in
    let later = flush_files rest here.0 in
    Picks-file w n s here later.0.queued_files later.1 (flush_file-Picked w n s)
      (flush_files-Picks rest here.0)

pub check_stable_segments-Picks :
    (d : Directory) (w : Watcher)
    → Picks w.queued_files
        (check_stable_segments d w).0.queued_files
        (names (check_stable_segments d w).1)
unfolding check_stable_segments
check_stable_segments-Picks d w = check_files-Picks (get_segment_files w.streaming_format d) w

Picks-if :
    (b : Bool) (w : Watcher) (r : Watcher × List SegmentInfo)
    → Picks w.queued_files r.0.queued_files (names r.1)
    → Picks w.queued_files
        (if b then (w, []) else r).0.queued_files
        (names (if b then (w, []) else r).1)
Picks-if true w r p = Picks-none w.queued_files
Picks-if false w r p = p

pub flush_remaining-Picks :
    (d : Directory) (w : Watcher)
    → Picks w.queued_files (flush_remaining d w).0.queued_files (names (flush_remaining d w).1)
unfolding flush_remaining
flush_remaining-Picks d w =
    let files = get_segment_files w.streaming_format d in
    Picks-if w.ffmpeg_crashed w (flush_files files w) (flush_files-Picks files w)
