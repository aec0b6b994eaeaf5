-- ===== src/SegmentWatcher/Uploads.antt =====
-- worker/segment_watcher.py: what is handed over for upload in a whole session.
use text.Mathlib.Text.{◌==◌ as str_eq}
use vlog.Prelude.{
  String, Bool, true, false, List, [], ◌∷◌, ◌++◌, ◌≡◌, ◌||◌, refl, arith, All, All-map,
  if◌then◌else◌,
}
use vlog.SegmentWatcher.Files.{Directory, has, discard}
use vlog.SegmentWatcher.Polling.{SegmentInfo, Watcher, check_stable_segments, flush_remaining}
use vlog.SegmentWatcher.Watching.{
  Phase, fresh, polling, waiting, returned, putting, Session, Event, start, poll, put_done,
  put_timeout, wait_timeout, stop, notify_ffmpeg_crashed, flush, next_phase, stop_running,
  poll_session, end_wait, retry_later, hand_over, at_phase, step, run,
}
use vlog.SegmentWatcher.Names.{Distinct, differs, has-discard, All-differs}
use vlog.SegmentWatcher.Picking.{names, Picks, check_stable_segments-Picks, flush_remaining-Picks}

-- The segments that wait for their `put`.
abbrev pub pending_of : Phase → List SegmentInfo
pending_of fresh = []
pending_of polling = []
pending_of waiting = []
pending_of returned = []
pending_of (putting x rest) = x ∷ rest

-- What is handed over and what waits is queued, and no name occurs twice.
pub record IsOnce (q : List String) (waits handed : List String) : Type 0 where
  pub queued : All (λ n. has n q ≡ true) handed
  pub ready : All (λ n. has n q ≡ true) waits
  pub apart : All (λ n. has n handed ≡ false) waits
  pub once : Distinct handed
  pub distinct : Distinct waits

-- The invariant of a session.
pub record IsUploading (s : Session) : Type 0 where
  pub once : IsOnce s.watcher.queued_files (names (pending_of s.phase)) (names s.handed)

absent :
    (q : List String) (n : String) (xs : List String)
    → All (λ m. has m q ≡ true) xs
    → has n q ≡ false
    → has n xs ≡ false
unfolding has
absent q n [] h e = refl
absent q n (m ∷ rest) h e =
    let d : str_eq n m ≡ false = differs n m q e h.0 in ground (arith, absent q n rest h.1 e)

-- Newly picked names wait.
IsOnce-pick :
    (q q' ns handed : List String) → Picks q q' ns → IsOnce q [] handed → IsOnce q' ns handed
IsOnce-pick q q' ns handed p h = record {
  queued = All-map p.kept handed h.queued;
  ready = p.marked;
  apart = All-map (λ n. absent q n handed h.queued) ns p.unqueued;
  once = h.once;
  distinct = p.distinct;
}

apart_put :
    (handed : List String) (n : String) (rest : List String)
    → All (λ m. str_eq m n ≡ false) rest
    → All (λ m. has m handed ≡ false) rest
    → All (λ m. has m (n ∷ handed) ≡ false) rest
unfolding has
apart_put handed n [] d h = tt
apart_put handed n (m ∷ rest) d h = (ground (arith, d.0, h.0), apart_put handed n rest d.1 h.1)

IsOnce-put :
    (q handed rest : List String) (n : String)
    → IsOnce q (n ∷ rest) handed
    → IsOnce q rest (n ∷ handed)
unfolding has
IsOnce-put q handed rest n h = record {
  queued = (h.ready.0, h.queued);
  ready = h.ready.1;
  apart = apart_put handed n rest (All-differs n rest h.distinct.0) h.apart.1;
  once = (h.apart.0, h.once);
  distinct = h.distinct.1;
}

-- The names of a list without `n` stay in the set.
left_after :
    (q : List String) (n : String) (xs : List String)
    → has n xs ≡ false
    → All (λ m. has m q ≡ true) xs
    → All (λ m. has m (discard n q) ≡ true) xs
unfolding has
left_after q n [] a h = tt
left_after q n (m ∷ rest) a h =
    (has-discard n m q (ground arith) h.0, left_after q n rest (ground arith) h.1)

IsOnce-discard :
    (q handed rest : List String) (n : String)
    → IsOnce q (n ∷ rest) handed
    → IsOnce (discard n q) rest handed
IsOnce-discard q handed rest n h = record {
  queued = left_after q n handed h.apart.0 h.queued;
  ready = left_after q n rest h.distinct.0 h.ready.1;
  apart = h.apart.1;
  once = h.once;
  distinct = h.distinct.1;
}

-- Newly picked names before those that wait already.
All-append : (P : String → Type 0) (xs ys : List String) → All P xs → All P ys → All P (xs ++ ys)
All-append P [] ys h i = i
All-append P (x ∷ xs) ys h i = (h.0, All-append P xs ys h.1 i)

has_append :
    (n : String) (xs ys : List String)
    → has n xs ≡ false
    → has n ys ≡ false
    → has n (xs ++ ys) ≡ false
unfolding has
has_append n [] ys h i = i
has_append n (x ∷ xs) ys h i = ground (arith, has_append n xs ys (ground arith) i)

Distinct-append :
    (q ns waits : List String)
    → All (λ n. has n q ≡ false) ns
    → Distinct ns
    → All (λ n. has n q ≡ true) waits
    → Distinct waits
    → Distinct (ns ++ waits)
Distinct-append q [] waits u d m e = e
Distinct-append q (n ∷ ns) waits u d m e =
    (has_append n ns waits d.0 (absent q n waits m u.0), Distinct-append q ns waits u.1 d.1 m e)

IsOnce-pick_more :
    (q q' ns waits handed : List String)
    → Picks q q' ns
    → IsOnce q waits handed
    → IsOnce q' (ns ++ waits) handed
IsOnce-pick_more q q' ns waits handed p h = record {
  queued = All-map p.kept handed h.queued;
  ready = All-append _ ns waits p.marked (All-map p.kept waits h.ready);
  apart = All-append _ ns waits (All-map (λ n. absent q n handed h.queued) ns p.unqueued) h.apart;
  once = h.once;
  distinct = Distinct-append q ns waits p.unqueued p.distinct h.ready h.distinct;
}

IsOnce-hand_over :
    (q waits : List String) (xs handed : List SegmentInfo)
    → IsOnce q (names xs ++ waits) (names handed)
    → IsOnce q waits (names (hand_over xs handed))
unfolding hand_over
IsOnce-hand_over q waits [] handed h = h
IsOnce-hand_over q waits (x ∷ xs) handed h =
    IsOnce-hand_over q waits xs (x ∷ handed)
      (IsOnce-put q (names handed) (names xs ++ waits) x.filename h)

pub pending-next_phase : (xs : List SegmentInfo) → pending_of (next_phase xs) ≡ xs
unfolding next_phase
pending-next_phase [] = refl
pending-next_phase (x ∷ rest) = refl

poll-IsUploading :
    (d : Directory) (w : Watcher) (handed : List SegmentInfo)
    → IsOnce w.queued_files [] (names handed)
    → IsUploading (poll_session d (record { watcher = w; phase = polling; handed = handed }))
unfolding poll_session
poll-IsUploading d w handed h = go (w.stop_event || w.ffmpeg_crashed)
  where
    checked : Watcher × List SegmentInfo
    checked = check_stable_segments d w

    go :
        (b : Bool)
        → IsUploading (
            if b
            then record { watcher = stop_running w; phase = returned; handed = handed }
            else record { watcher = checked.0; phase = next_phase checked.1; handed = handed })
    go true = record { once = h }
    go false = record {
      once = rw (pending-next_phase checked.1) (
          IsOnce-pick w.queued_files checked.0.queued_files (names checked.1) (names handed)
            (check_stable_segments-Picks d w) h);
    }

end_wait-IsUploading :
    (w : Watcher) (handed : List SegmentInfo)
    → IsOnce w.queued_files [] (names handed)
    → IsUploading (end_wait (record { watcher = w; phase = waiting; handed = handed }))
unfolding end_wait
end_wait-IsUploading w handed h = go w.stop_event
  where
    go :
        (b : Bool)
        → IsUploading (
            if b
            then record { watcher = stop_running w; phase = returned; handed = handed }
            else record { watcher = w; phase = polling; handed = handed })
    go true = record { once = h }
    go false = record { once = h }

at_phase-IsUploading :
    (e : Event) (p : Phase) (w : Watcher) (handed : List SegmentInfo)
    → IsOnce w.queued_files (names (pending_of p)) (names handed)
    → IsUploading (at_phase e p (record { watcher = w; phase = p; handed = handed }))
unfolding at_phase retry_later
at_phase-IsUploading start fresh w handed h = record { once = h }
at_phase-IsUploading start p w handed h = record { once = h }
at_phase-IsUploading (poll d) polling w handed h = poll-IsUploading d w handed h
at_phase-IsUploading (poll d) p w handed h = record { once = h }
at_phase-IsUploading put_done (putting x rest) w handed h = record {
  once =
      rw (pending-next_phase rest)
        (IsOnce-put w.queued_files (names handed) (names rest) x.filename h);
}
at_phase-IsUploading put_done p w handed h = record { once = h }
at_phase-IsUploading put_timeout (putting x rest) w handed h = record {
  once =
      rw (pending-next_phase rest)
        (IsOnce-discard w.queued_files (names handed) (names rest) x.filename h);
}
at_phase-IsUploading put_timeout p w handed h = record { once = h }
at_phase-IsUploading wait_timeout waiting w handed h = end_wait-IsUploading w handed h
at_phase-IsUploading wait_timeout p w handed h = record { once = h }
at_phase-IsUploading stop p w handed h = record { once = h }
at_phase-IsUploading notify_ffmpeg_crashed p w handed h = record { once = h }
at_phase-IsUploading (flush d) p w handed h =
    let flushed = flush_remaining d w in
    record {
      once = IsOnce-hand_over flushed.0.queued_files (names (pending_of p)) flushed.1 handed (
          IsOnce-pick_more w.queued_files flushed.0.queued_files (names flushed.1)
            (names (pending_of p)) (names handed) (flush_remaining-Picks d w) h);
    }

step-IsUploading : (e : Event) (s : Session) → IsUploading s → IsUploading (step e s)
unfolding step
step-IsUploading e s h = at_phase-IsUploading e s.phase s.watcher s.handed h.once

run-IsUploading : (es : List Event) (s : Session) → IsUploading s → IsUploading (run es s)
unfolding run
run-IsUploading [] s h = h
run-IsUploading (e ∷ rest) s h = run-IsUploading rest (step e s) (step-IsUploading e s h)

-- A session in which nothing was handed over and `watch` was not called.
abbrev pub begin : Watcher → Session
begin w = record { watcher = w; phase = fresh; handed = [] }

-- From a watcher that has handed nothing over on, whatever the scans find, whichever `put` succeeds or times out, and
-- whenever `stop`, `notify_ffmpeg_crashed` and `flush_remaining` are called: no file name is handed
-- over for upload twice.
pub run-once : (es : List Event) (w : Watcher) → Distinct (names (run es (begin w)).handed)
run-once es w =
    let start_ : IsUploading (begin w) = record {
      once = record { queued = tt; ready = tt; apart = tt; once = tt; distinct = tt };
    } in
    (run-IsUploading es (begin w) start_).once.once
