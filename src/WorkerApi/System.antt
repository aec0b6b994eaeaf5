-- ===== src/WorkerApi/System.antt =====
-- The worker API of api/worker_api.py as a whole: a server takes requests one after another, each at
-- a time of its own.
use vlog.Prelude.{ℕ, Bool, Option, List, [], ◌∷◌}
use vlog.WorkerApi.Schema.{Worker, Database, Moment, Config}
use vlog.WorkerApi.Claim.{claim_job}
use vlog.WorkerApi.Progress.{ProgressRequest, update_progress}
use vlog.WorkerApi.Complete.{CompleteRequest, Redis, complete_job}
use vlog.WorkerApi.Fail.{FailRequest, fail_job}
use vlog.WorkerApi.Stale.{detect_and_release_stale_jobs}

pub record Server : Type 0 where
  pub db : Database
  pub redis : Redis

-- A request with what it finds around the server: rows locked by others, whether files can be
-- removed, what `database.execute` reports, the answer of Redis on the last check.
pub data Request : Type 0 where
  claim : (ℕ → Bool) → Bool → Option ℕ → Worker → Request
  progress : ℕ → ProgressRequest → Worker → Request
  complete : ℕ → CompleteRequest → Worker → Request
  fail : ℕ → FailRequest → Worker → Request
  check : (ℕ → Option ℕ) → Bool → Option ℕ → Request

unfoldable pub serve : Config → Moment → Request → Server → Server
unfolding claim_job update_progress complete_job fail_job detect_and_release_stale_jobs
serve c m (claim taken files_ok wanted w) s = record s {
  db = (claim_job c m taken files_ok wanted w s.db).0;
}
serve c m (progress k d w) s = record s { db = (update_progress c m.now k d w s.db).0 }
serve c m (complete k d w) s =
    let r = complete_job c m k d w s.db s.redis in record { db = r.0; redis = r.1 }
serve c m (fail k d w) s = record s { db = (fail_job m k d w s.db).0 }
serve c m (check reported skip start) s = record s {
  db = (detect_and_release_stale_jobs c reported m.now skip start (λ d. d) s.db).0;
}

unfoldable pub run : Config → List (Moment × Request) → Server → Server
unfolding serve
run c [] s = s
run c ((m, r) ∷ rs) s = run c rs (serve c m r s)
