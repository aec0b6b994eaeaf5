-- ===== src/Transcoder/Encodes.antt =====
-- worker/transcoder.py: the encodes of `process_video_resumable`, steps 3a to 3c. What the
-- subprocesses and the files answer is in Outside. The callbacks that report progress while a
-- subprocess runs are in Transcoder/Tracker.antt and left out here; the encodes of a batch, which
-- write different rows, are taken one after another.
use text.Mathlib.Text.{◌==◌ as str_eq}
use vlog.Prelude.{
  ℕ, zero, suc, String, Bool, true, false, not, Option, none, some, List, [], ◌∷◌, ◌++◌, ◌+◌, ◌*◌,
  ◌/◌, ◌%◌, ◌==◌, ◌&&◌, ◌||◌, if◌then◌else◌, keep_if,
}
use vlog.WorkerApi.Schema.{QualityProgress}
use vlog.Transcoder.Batches.{Quality}
use vlog.Transcoder.Qualities.{get_quality_status, update_quality_status, is_text}

-- How an encode or a remux ends: it succeeds, it fails with the detail of an error, or raises.
pub data Encode : Type 0 where
  encoded : Encode
  not_encoded : Option String → Encode
  raised : String → Encode

pub record Info : Type 0 where
  pub width : ℕ
  pub height : ℕ
  pub duration : ℕ

-- Where `state.shutdown_requested` is read.
pub data Point : Type 0 where
  at_start after_probe after_thumbnail : Point
  before_batch : ℕ → Point
  before_quality : String → Point
  verifying : ℕ → String → Point

-- A video whose first encode is in: an entry of `successful_qualities`.
pub record Success : Type 0 where
  pub name : String
  pub width : ℕ
  pub height : ℕ
  pub bitrate : ℕ

-- `successful_qualities` and `failed_qualities`, names only of the latter, with the table
-- quality_progress.
pub record Tally : Type 0 where
  pub successful : List Success
  pub failed : List String
  pub rows : List QualityProgress

-- What the encodes find: the stops, the playlists that are complete, the results of the
-- subprocesses, the dimensions read of a first segment that is there, and the bitrate of a preset.
pub record Outside : Type 0 where
  pub stops : Point → Bool
  pub is_complete : String → Bool
  pub remux : ℕ → Encode
  pub transcode : ℕ → String → Encode
  pub segment : String → Option (ℕ × ℕ)
  pub bitrate : String → ℕ

-- `error_detail or text`.
unfoldable pub or_text : Option String → String → String
or_text none text = text
or_text (some e) text = if is_text (some e) then e else text

unfoldable pub is_done : Option QualityProgress → Bool
is_done none = false
is_done (some q) = str_eq q.status "completed"

unfoldable pub even_up : ℕ → ℕ
even_up w = if w % 2 == 0 then w else w + 1

-- `get_output_dimensions` of the first segment, or the height with a width of 16:9.
unfoldable pub dimensions : Outside → Quality → ℕ × ℕ
dimensions o q = elim (o.segment q.name) [
  | some d ↦ d
  | none ↦ (even_up (q.height * 16 / 9), q.height)
]

unfoldable pub success_of : Outside → Quality → Success
success_of o q = record {
  name = q.name;
  width = (dimensions o q).0;
  height = (dimensions o q).1;
  bitrate = o.bitrate q.name;
}

unfoldable pub original_of : Info → Success
original_of i = record { name = "original"; width = i.width; height = i.height; bitrate = 0 }

unfoldable pub succeed : Success → Tally → Tally
succeed s t = record t { successful = t.successful ++ s ∷ [] }

unfoldable pub fail : String → Tally → Tally
fail n t = record t { failed = t.failed ++ n ∷ [] }

-- `update_quality_status`.
unfoldable pub mark : ℕ → ℕ → String → String → Option String → Tally → Tally
mark now k n status error t = record t { rows = update_quality_status now k n status error t.rows }

-- What follows an encode of the quality with the success that it would be.
unfoldable pub conclude : ℕ → ℕ → String → Success → Encode → Tally → Tally
conclude now k text s encoded t = succeed s (mark now k s.name "completed" none t)
conclude now k text s (not_encoded e) t =
    fail s.name (mark now k s.name "failed" (some (or_text e text)) t)
conclude now k text s (raised e) t = fail s.name (mark now k s.name "failed" (some e) t)

-- Step 3a.
unfoldable pub original_step : Outside → ℕ → ℕ → Info → Tally → Tally
original_step o now k i t =
    if is_done (get_quality_status k "original" t.rows)
    then succeed (original_of i) t
    else if o.is_complete "original"
    then succeed (original_of i) (mark now k "original" "completed" none t)
    else conclude now k "Remux failed" (original_of i) (o.remux 0)
        (mark now k "original" "in_progress" none t)

-- `transcode_single_quality`, and what the loop does with its result.
unfoldable pub transcode_single_quality : Outside → ℕ → ℕ → Quality → Tally → Tally
transcode_single_quality o now k q t =
    if o.stops (before_quality q.name)
    then fail q.name t
    else if is_done (get_quality_status k q.name t.rows)
    then succeed (success_of o q) t
    else if o.is_complete q.name
    then succeed (success_of o q) (mark now k q.name "completed" none t)
    else conclude now k "Transcoding process returned non-zero exit code" (success_of o q)
        (o.transcode 0 q.name) (mark now k q.name "in_progress" none t)

unfoldable pub run_batch : Outside → ℕ → ℕ → List Quality → Tally → Tally
run_batch o now k [] t = t
run_batch o now k (q ∷ rest) t = run_batch o now k rest (transcode_single_quality o now k q t)

-- The loop over the batches: whether it ran to the end, and the tally.
unfoldable pub run_batches : Outside → ℕ → ℕ → ℕ → List (List Quality) → Tally → Bool × Tally
run_batches o now k n [] t = (true, t)
run_batches o now k n (batch ∷ rest) t =
    if o.stops (before_batch n)
    then (false, t)
    else run_batches o now k (suc n) rest (run_batch o now k batch t)

-- `any(sq["name"] == name ...)`.
unfoldable pub in_successful : String → List Success → Bool
in_successful n [] = false
in_successful n (s ∷ rest) = str_eq s.name n || in_successful n rest

unfoldable pub in_failed : String → List String → Bool
in_failed n [] = false
in_failed n (m ∷ rest) = str_eq m n || in_failed n rest

-- A row that is there and not completed.
unfoldable pub is_open : Option QualityProgress → Bool
is_open none = false
is_open (some q) = not (str_eq q.status "completed")

unfoldable pub is_incomplete : ℕ → Tally → Quality → Bool
is_incomplete k t q =
    not (in_successful q.name t.successful)
    && (not (in_failed q.name t.failed) && is_open (get_quality_status k q.name t.rows))

-- The success that re-verification records for a complete playlist.
unfoldable pub verified_of : Outside → Info → Quality → Success
verified_of o i q = if str_eq q.name "original" then original_of i else record {
  name = q.name;
  width = elim (o.segment q.name) [ some d ↦ d.0 | none ↦ even_up (q.height * i.width / i.height) ];
  height = elim (o.segment q.name) [ some d ↦ d.1 | none ↦ q.height ];
  bitrate = o.bitrate q.name;
}

unfoldable pub reprocess : Outside → ℕ → ℕ → ℕ → Info → Quality → Tally → Tally
reprocess o now k n i q t =
    if o.is_complete q.name
    then succeed (verified_of o i q) (mark now k q.name "completed" none t)
    else if str_eq q.name "original"
    then conclude now k "Remux failed" (original_of i) (o.remux (suc n))
        (mark now k "original" "in_progress" none t)
    else conclude now k "Transcoding failed" (success_of o q) (o.transcode (suc n) q.name)
        (mark now k q.name "in_progress" none t)

unfoldable pub reprocess_all : Outside → ℕ → ℕ → ℕ → Info → List Quality → Tally → Bool × Tally
reprocess_all o now k n i [] t = (true, t)
reprocess_all o now k n i (q ∷ rest) t =
    if o.stops (verifying n q.name)
    then (false, t)
    else reprocess_all o now k n i rest (reprocess o now k n i q t)

-- Step 3c from pass `n` on, with `left` passes to go; false if a shutdown ends it.
unfoldable pub verify : Outside → ℕ → ℕ → Info → List Quality → ℕ → ℕ → Tally → Bool × Tally
verify o now k i all_ zero n t = (true, t)
verify o now k i all_ (suc left) n t = elim (keep_if (is_incomplete k t) all_) [
  | [] ↦ (true, t)
  | q ∷ rest ↦
      let pass = reprocess_all o now k n i (q ∷ rest) t in
      let more = verify o now k i all_ left (suc n) pass.1 in if pass.0 then more else pass
]
