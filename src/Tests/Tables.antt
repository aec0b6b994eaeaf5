-- ===== src/Tests/Tables.antt =====
-- A small database of the worker API with two jobs, and who asks for them.
use text.Mathlib.Text.{◌==◌ as str_eq}
use text.Mathlib.TextEquality.{eq_iff}
use vlog.Prelude.{ℕ, String, Bool, true, false, none, some, [], ◌∷◌, ◌≡◌, ◌≢◌}
use vlog.WorkerApi.Schema.{
  Video, pending, Job, Worker, active, Database, Moment, Config, reported, hwaccel,
}
use vlog.WorkerApi.Complete.{Redis}

abbrev pub config : Config
config = record {
  claim_duration = 30;
  heartbeat_interval = 1;
  offline_threshold = 5;
  startup_grace_period = 2;
  require_version_match = true;
  require_version_field = false;
  code_version = "v2";
  sprite_sheets = true;
}

abbrev pub video : Video
video = record {
  id = 1;
  slug = "talk";
  status = pending;
  created_at = 5;
  published_at = none;
  deleted_at = none;
  duration = none;
  source_width = none;
  source_height = none;
  streaming_format = some "hls_ts";
  primary_codec = none;
  error_message = none;
  sprite_sheet_status = none;
  sprite_sheet_error = none;
}

abbrev pub job : Job
job = record {
  id = 7;
  video_id = 1;
  worker_id = none;
  current_step = none;
  progress_percent = 0;
  started_at = none;
  last_checkpoint = none;
  completed_at = none;
  claimed_at = none;
  claim_expires_at = none;
  attempt_number = 1;
  max_attempts = 3;
  last_error = none;
  processed_by_worker_id = none;
  processed_by_worker_name = none;
  retranscode_metadata = none;
}

abbrev pub alice : Worker
alice = record {
  id = 1;
  worker_id = "aaaaaaaa-1";
  worker_name = none;
  status = active;
  registered_at = 0;
  last_heartbeat = some 99;
  current_job_id = none;
  capabilities = some (hwaccel true);
  metadata = some (reported (some "v2") false);
}

abbrev pub bob : Worker
bob = record alice { id = 2; worker_id = "bbbbbbbb-2" }

abbrev pub db : Database
db = record {
  videos = video ∷ record video { id = 2; created_at = 3 } ∷ [];
  jobs = job ∷ record job { id = 8; video_id = 2 } ∷ [];
  workers = alice ∷ bob ∷ [];
  quality_progress = [];
  video_qualities = [];
  transcriptions = [];
  sprite_queue = [];
}

-- Job 7 in the hands of a worker from time 100 on.
abbrev pub held : Job
held = record job {
  worker_id = some "aaaaaaaa-1";
  claimed_at = some 100;
  claim_expires_at = some 130;
}

abbrev pub busy : Database
busy = record db { jobs = held ∷ record job { id = 8; video_id = 2 } ∷ [] }

abbrev pub redis : Redis
redis = record { up = true; faulty = false; tokens = [] }

abbrev pub at : ℕ → Moment
at t = record { now = t; locked = false }

abbrev pub none_taken : ℕ → Bool
none_taken k = false

pub str_ne : (s t : String) → str_eq s t ≡ false → s ≢ t
str_ne s t e p = let same : str_eq s t ≡ true = (eq_iff s t).1 p in cc
