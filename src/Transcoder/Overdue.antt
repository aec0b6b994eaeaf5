-- ===== src/Transcoder/Overdue.antt =====
-- worker/transcoder.py, `recover_interrupted_jobs` and `check_stale_jobs`: the three things that a
-- pass can make of a job, in terms of the row's columns.
use text.Mathlib.Text.{◌==◌ as str_eq}
use vlog.Prelude.{ℕ, String, Option, none, some, ◌≡◌, ◌≢◌, ◌≤◌, ◌<◌, ◌+◌, ◌⊎◌}
use vlog.Prelude.Text.{take_chars}
use vlog.Prelude.Tables.{fetch}
use vlog.WorkerApi.Schema.{Job, Database}
use vlog.Transcoder.Recovery.{video_id}

-- Not completed, and the last checkpoint is older than the timeout.
abbrev pub IsOverdue : ℕ → ℕ → Job → Type 0
IsOverdue timeout now j =
    (j.completed_at ≡ none) × (t : ℕ) × (j.last_checkpoint ≡ some t) × (t + timeout < now)

-- The job has another worker's id.
abbrev pub IsForeign : String → Job → Type 0
IsForeign self j = (v : String) × (j.worker_id ≡ some v) × (v ≢ self)

-- The row failed for good at `now`.
abbrev pub IsEnded : String → ℕ → Job → Job → Type 0
IsEnded text now j i =
    (j.max_attempts ≤ j.attempt_number)
    × (i.completed_at ≡ some now)
    × (i.last_error ≡ some (take_chars 500 text))
    × (i.attempt_number ≡ j.attempt_number)
    × (i.worker_id ≡ j.worker_id)

-- The row is the worker's, with the next attempt begun at `now`; its claim is what it was.
abbrev pub IsAgain : String → ℕ → Job → Job → Type 0
IsAgain worker now j i =
    (j.attempt_number < j.max_attempts)
    × (i.attempt_number ≡ j.attempt_number + 1)
    × (i.worker_id ≡ some worker)
    × (i.started_at ≡ some now)
    × (i.last_checkpoint ≡ some now)
    × (i.completed_at ≡ none)
    × (i.claimed_at ≡ j.claimed_at)
    × (i.claim_expires_at ≡ j.claim_expires_at)

-- What a pass makes of the row `j` of the table `db`: `o` is the row after it. The row is due and
-- its video is there, and it has ended or is tried again; or one of the two fails, and it is as
-- before.
abbrev pub PassOutcome : Type 0 → Database → String → String → ℕ → Job → Option Job → Type 0
PassOutcome due db worker text now j o =
    (due
      × (fetch video_id j.video_id db.videos ≢ none)
      × (i : Job) × (o ≡ some i)
      × (IsEnded text now j i ⊎ IsAgain worker now j i))
    ⊎ (((¬ due) ⊎ (fetch video_id j.video_id db.videos ≡ none)) × (o ≡ some j))
