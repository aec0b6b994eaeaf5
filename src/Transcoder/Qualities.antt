-- ===== src/Transcoder/Qualities.antt =====
-- worker/transcoder.py: the quality progress functions, over the table quality_progress.
use text.Mathlib.Text.{◌==◌ as str_eq}
use vlog.Prelude.{
  ℕ, String, Bool, true, false, Option, none, some, List, [], ◌∷◌, ◌==◌, ◌&&◌, if◌then◌else◌,
  keep_if, find_first, update_where, is_some,
}
use vlog.Prelude.Text.{take_chars}
use vlog.WorkerApi.Schema.{QualityProgress}
use vlog.Transcoder.Batches.{Quality}

abbrev pub is_of : ℕ → String → QualityProgress → Bool
is_of k n q = (q.job_id == k) && str_eq q.quality n

unfoldable pub get_quality_status : ℕ → String → List QualityProgress → Option QualityProgress
get_quality_status k n rows = find_first (is_of k n) rows

abbrev pub new_quality : ℕ → String → QualityProgress
new_quality k n = record {
  job_id = k;
  quality = n;
  status = "pending";
  progress_percent = 0;
  started_at = none;
  completed_at = none;
  error_message = none;
}

-- The loop; the order of the rows of a table has no meaning.
unfoldable pub init_quality_progress :
    ℕ → List Quality → List QualityProgress → List QualityProgress
unfolding get_quality_status
init_quality_progress k [] rows = rows
init_quality_progress k (q ∷ rest) rows =
    init_quality_progress k rest
      (if is_some (get_quality_status k q.name rows) then rows else new_quality k q.name ∷ rows)

abbrev pub is_text : Option String → Bool
is_text none = false
is_text (some t) = if str_eq t "" then false else true

abbrev pub cut : Option String → Option String
cut none = none
cut (some t) = some (take_chars 500 t)

unfoldable pub set_status : ℕ → String → Option String → QualityProgress → QualityProgress
set_status now status error q =
    if str_eq status "in_progress"
    then record q { status = status; started_at = some now }
    else if str_eq status "completed"
    then record q { status = status; completed_at = some now; progress_percent = 100 }
    else if str_eq status "failed" && is_text error
    then record q { status = status; error_message = cut error }
    else record q { status = status }

unfoldable pub update_quality_status :
    ℕ → ℕ → String → String → Option String → List QualityProgress → List QualityProgress
unfolding set_status
update_quality_status now k n status error rows =
    update_where (is_of k n) (set_status now status error) rows

unfoldable pub set_quality_percent : ℕ → QualityProgress → QualityProgress
set_quality_percent progress q = record q { progress_percent = progress }

unfoldable pub update_quality_progress :
    ℕ → String → ℕ → List QualityProgress → List QualityProgress
unfolding set_quality_percent
update_quality_progress k n progress rows =
    update_where (is_of k n) (set_quality_percent progress) rows

abbrev pub is_completed : ℕ → QualityProgress → Bool
is_completed k q = (q.job_id == k) && str_eq q.status "completed"

unfoldable pub qualities_of : List QualityProgress → List String
qualities_of [] = []
qualities_of (q ∷ rest) = q.quality ∷ qualities_of rest

unfoldable pub get_completed_qualities : ℕ → List QualityProgress → List String
unfolding qualities_of
get_completed_qualities k rows = qualities_of (keep_if (is_completed k) rows)

-- A quality of that name is in the list.
abbrev pub listed : String → List Quality → Bool
listed n [] = false
listed n (q ∷ rest) = let more = listed n rest in if str_eq q.name n then true else more

-- What is found first, or else a new row.
abbrev pub or_new : Option QualityProgress → Bool → ℕ → String → Option QualityProgress
or_new (some q) b k n = some q
or_new none b k n = if b then some (new_quality k n) else none
