-- ===== src/Transcoder/Tracker.antt =====
-- worker/transcoder.py: the class ProgressTracker, over the tables of the worker API.
use vlog.Prelude.{
  ℕ, String, Bool, true, false, not, Option, none, some, ◌+◌, ◌==◌, ◌&&◌, ◌||◌, if◌then◌else◌, leb,
}
use vlog.Prelude.Dicts.{Dict, get, put}
use vlog.WorkerApi.Schema.{Database, Config}
use vlog.Transcoder.Jobs.{update_job_progress}
use vlog.Transcoder.Qualities.{update_quality_progress}

-- Percentages are natural numbers; `none` stands for the initial -1.
pub record ProgressTracker : Type 0 where
  pub min_interval : ℕ
  pub last_update_time : ℕ
  pub last_job_progress : Option ℕ
  pub last_quality_progress : Dict ℕ

abbrev pub is_last : Option ℕ → ℕ → Bool
is_last none p = false
is_last (some q) p = p == q

-- Completion, or the interval is over.
unfoldable pub may_update : ℕ → ℕ → ProgressTracker → Bool
may_update now progress t = (progress == 100) || leb (t.last_update_time + t.min_interval) now

-- `update_job` up to its await: whether it writes. Other callbacks that share the tracker may run
-- between this and `finish_job`.
unfoldable pub begins_job : ℕ → ℕ → ProgressTracker → Bool
unfolding may_update
begins_job now progress t = may_update now progress t && not (is_last t.last_job_progress progress)

-- `update_job` after its await; `now` is the time that it read before.
unfoldable pub finish_job : ℕ → ℕ → ProgressTracker → ProgressTracker
finish_job now progress t = record t { last_update_time = now; last_job_progress = some progress }

-- The same two pieces of `update_quality`.
unfoldable pub begins_quality : ℕ → String → ℕ → ProgressTracker → Bool
unfolding may_update
begins_quality now n progress t =
    may_update now progress t && not (is_last (get n t.last_quality_progress) progress)

unfoldable pub finish_quality : ℕ → String → ℕ → ProgressTracker → ProgressTracker
finish_quality now n progress t = record t {
  last_update_time = now;
  last_quality_progress = put n progress t.last_quality_progress;
}

-- A call during whose write no other call of the tracker runs: it begins at `now` and writes at
-- `later`. `stored`: the update of the job reaches the database (an error is only logged).
unfoldable pub update_job :
    Config → ℕ → ℕ → Bool → ℕ → ℕ → ProgressTracker → Database → (ProgressTracker × Database) × Bool
unfolding begins_job finish_job update_job_progress
update_job c now later stored k progress t db =
    if begins_job now progress t
    then ((finish_job now progress t, update_job_progress c later stored k progress db), true)
    else ((t, db), false)

unfoldable pub set_qualities : ℕ → String → ℕ → Database → Database
unfolding update_quality_progress
set_qualities k n progress db = record db {
  quality_progress = update_quality_progress k n progress db.quality_progress;
}

unfoldable pub update_quality :
    ℕ → ℕ → String → ℕ → ProgressTracker → Database → (ProgressTracker × Database) × Bool
unfolding begins_quality finish_quality set_qualities
update_quality now k n progress t db =
    if begins_quality now n progress t
    then ((finish_quality now n progress t, set_qualities k n progress db), true)
    else ((t, db), false)

unfoldable pub flush :
    Config → ℕ → Bool → ℕ → ℕ → ProgressTracker → Database → ProgressTracker × Database
unfolding update_job_progress
flush c now stored k progress t db = if is_last t.last_job_progress progress then (t, db) else (
  record t { last_job_progress = some progress },
  update_job_progress c now stored k progress db,
)
