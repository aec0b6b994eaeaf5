-- ===== src/WorkerApi/Progress.antt =====
-- api/worker_api.py, `update_progress`. The notice that it publishes to Redis changes no table.
use text.Mathlib.Text.{◌==◌ as str_eq}
use vlog.Prelude.{
  ℕ, String, Option, none, some, List, [], ◌∷◌, ◌+◌, ◌&&◌, if◌then◌else◌, ◌==◌, update_where,
}
use vlog.WorkerApi.Schema.{
  Video, Job, Worker, QualityProgress, Database, Config, Reply, ok, http_error,
}
use vlog.WorkerApi.Guards.{◌>>=◌, owned_job, unexpired}

pub record QualityUpdate : Type 0 where
  pub name : String
  pub status : String
  pub progress : ℕ

pub record ProgressRequest : Type 0 where
  pub current_step : Option String
  pub progress_percent : ℕ
  pub quality_progress : List QualityUpdate
  pub duration : Option ℕ
  pub source_width : Option ℕ
  pub source_height : Option ℕ

-- INSERT ... ON CONFLICT (job_id, quality) DO UPDATE; on SQLite INSERT OR REPLACE.
unfoldable pub upsert_quality : ℕ → QualityUpdate → List QualityProgress → List QualityProgress
upsert_quality k u [] =
    record {
      job_id = k;
      quality = u.name;
      status = u.status;
      progress_percent = u.progress;
      started_at = none;
      completed_at = none;
      error_message = none;
    }
    ∷ []
upsert_quality k u (q ∷ qs) =
    let rest = upsert_quality k u qs in
    if (q.job_id == k) && str_eq q.quality u.name
    then record q { status = u.status; progress_percent = u.progress } ∷ qs
    else q ∷ rest

unfoldable pub upsert_qualities :
    ℕ → List QualityUpdate → List QualityProgress → List QualityProgress
unfolding upsert_quality
upsert_qualities k [] qs = qs
upsert_qualities k (u ∷ us) qs = upsert_qualities k us (upsert_quality k u qs)

unfoldable pub set_progress : Config → ℕ → ProgressRequest → Job → Job
set_progress c now data_ j = record j {
  current_step = data_.current_step;
  progress_percent = data_.progress_percent;
  last_checkpoint = some now;
  claim_expires_at = some (now + c.claim_duration);
}

-- `if data.x is not None: video_updates["x"] = data.x`.
abbrev pub override : Option ℕ → Option ℕ → Option ℕ
override none old = old
override (some x) old = some x

unfoldable pub set_probe : ProgressRequest → Video → Video
set_probe data_ v = record v {
  duration = override data_.duration v.duration;
  source_width = override data_.source_width v.source_width;
  source_height = override data_.source_height v.source_height;
}

unfoldable pub store_progress : Config → ℕ → ProgressRequest → Job → Database → Database
unfolding upsert_qualities set_progress set_probe
store_progress c now data_ job db = record db {
  jobs = update_where (λ j. j.id == job.id) (set_progress c now data_) db.jobs;
  quality_progress = upsert_qualities job.id data_.quality_progress db.quality_progress;
  videos = update_where (λ v. v.id == job.video_id) (set_probe data_) db.videos;
}

-- The guards of the endpoint: the job, if the worker may report on it.
unfoldable pub reportable : ℕ → ℕ → Worker → Database → Reply Job
unfolding owned_job unexpired
reportable now k w db = do job ← owned_job k w db; unexpired now job

-- The database after the request, and the new expiry.
unfoldable pub update_progress :
    Config → ℕ → ℕ → ProgressRequest → Worker → Database → Database × Reply ℕ
unfolding reportable store_progress
update_progress c now k data_ w db = elim (reportable now k w db) [
  | http_error e ↦ (db, http_error e)
  | ok job ↦ (store_progress c now data_ job db, ok (now + c.claim_duration))
]
