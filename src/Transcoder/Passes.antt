-- ===== src/Transcoder/Passes.antt =====
-- worker/transcoder.py: how many recovery passes end a job.
use vlog.Prelude.{ℕ, String, Bool, Option, none, some, List, [], ◌∷◌, ◌≡◌, ◌<◌, ◌+◌, is_some}
use vlog.WorkerApi.Schema.{Job, Database}
use vlog.Transcoder.Recovery.{recover_interrupted_jobs}

-- Recovery passes at some times, as on the starts of a worker that dies each time.
abbrev pub recover_at : String → ℕ → List ℕ → Database → Database
recover_at worker timeout [] db = db
recover_at worker timeout (now ∷ rest) db =
    recover_at worker timeout rest (recover_interrupted_jobs worker timeout now db)

-- Each time is more than the timeout after the one before.
abbrev pub IsSpaced : ℕ → ℕ → List ℕ → Type 0
IsSpaced timeout t [] = Unit
IsSpaced timeout t (u ∷ rest) = (t + timeout < u) × IsSpaced timeout u rest

-- A job row with so many attempts, completed or not.
abbrev pub Stands : Option Job → ℕ → Bool → Type 0
Stands none n b = ⊥
Stands (some j) n b = (j.attempt_number ≡ n) × (is_some j.completed_at ≡ b)
