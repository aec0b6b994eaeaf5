-- ===== src/WorkerApi/Schema.antt =====
-- The tables of api/database.py that the worker endpoints read and write, the enums of api/enums.py
-- and the reply of an endpoint. A time is the number of its UTC instant; a duration in seconds is an
-- opaque number that is only stored and copied.
use text.Mathlib.Text.{◌==◌ as str_eq}
use vlog.Prelude.{ℕ, String, Bool, false, Option, none, some, List}
use vlog.JobState.Rows.{JobRow}

-- api/enums.py
pub data VideoStatus : Type 0 where
  pending processing ready failed : VideoStatus

-- The values of workers.status.
pub data WorkerStatus : Type 0 where
  active idle busy offline disabled : WorkerStatus

pub record Video : Type 0 where
  pub id : ℕ
  pub slug : String
  pub status : VideoStatus
  pub created_at : ℕ
  pub published_at : Option ℕ
  pub deleted_at : Option ℕ
  pub duration : Option ℕ
  pub source_width : Option ℕ
  pub source_height : Option ℕ
  pub streaming_format : Option String
  pub primary_codec : Option String
  pub error_message : Option String
  pub sprite_sheet_status : Option String
  pub sprite_sheet_error : Option String

-- The JSON of transcoding_jobs.retranscode_metadata, or a text that does not parse.
pub record RetranscodePlan : Type 0 where
  pub retranscode_all : Bool
  pub qualities_to_delete : List String
  pub delete_transcription : Bool

pub data RetranscodeMetadata : Type 0 where
  malformed : RetranscodeMetadata
  plan : RetranscodePlan → RetranscodeMetadata

pub record Job : Type 0 where
  pub id : ℕ
  pub video_id : ℕ
  pub worker_id : Option String
  pub current_step : Option String
  pub progress_percent : ℕ
  pub started_at : Option ℕ
  pub last_checkpoint : Option ℕ
  pub completed_at : Option ℕ
  pub claimed_at : Option ℕ
  pub claim_expires_at : Option ℕ
  pub attempt_number : ℕ
  pub max_attempts : ℕ
  pub last_error : Option String
  pub processed_by_worker_id : Option String
  pub processed_by_worker_name : Option String
  pub retranscode_metadata : Option RetranscodeMetadata

-- What the endpoints read of the JSON in workers.capabilities and workers.metadata.
pub data Capabilities : Type 0 where
  malformed : Capabilities
  hwaccel : Bool → Capabilities

pub data Metadata : Type 0 where
  malformed : Metadata
  reported : Option String → Bool → Metadata

pub record Worker : Type 0 where
  pub id : ℕ
  pub worker_id : String
  pub worker_name : Option String
  pub status : WorkerStatus
  pub registered_at : ℕ
  pub last_heartbeat : Option ℕ
  pub current_job_id : Option ℕ
  pub capabilities : Option Capabilities
  pub metadata : Option Metadata

pub record QualityProgress : Type 0 where
  pub job_id : ℕ
  pub quality : String
  pub status : String
  pub progress_percent : ℕ
  pub started_at : Option ℕ
  pub completed_at : Option ℕ
  pub error_message : Option String

pub record VideoQuality : Type 0 where
  pub video_id : ℕ
  pub quality : String
  pub width : ℕ
  pub height : ℕ
  pub bitrate : ℕ

-- A row of sprite_queue: its video, and whether its status is pending or processing.
pub record SpriteJob : Type 0 where
  pub video_id : ℕ
  pub open_ : Bool

pub record Database : Type 0 where
  pub videos : List Video
  pub jobs : List Job
  pub workers : List Worker
  pub quality_progress : List QualityProgress
  pub video_qualities : List VideoQuality
  pub transcriptions : List ℕ
  pub sprite_queue : List SpriteJob

-- The fields of a job that api/job_state.py judges.
unfoldable pub job_row : Job → JobRow
job_row j = record {
  claimed_at = j.claimed_at;
  claim_expires_at = j.claim_expires_at;
  completed_at = j.completed_at;
  last_error = j.last_error;
  attempt_number = j.attempt_number;
  max_attempts = j.max_attempts;
}

-- What an endpoint answers: a response model, or an HTTPException with its status code. An
-- exception that nothing handles is a 500.
pub data Reply {ℓ} (A : Type ℓ) : Type ℓ where
  ok : A → Reply A
  http_error : ℕ → Reply A

-- `job["worker_id"] == worker["worker_id"]`.
abbrev pub is_owner : Option String → String → Bool
is_owner none w = false
is_owner (some v) w = str_eq v w

-- What a request finds around the database: the clock, and whether the database stays locked
-- through all the retries of `execute_with_retry`.
pub record Moment : Type 0 where
  pub now : ℕ
  pub locked : Bool

-- The configuration that the endpoints read (config.py and the settings service), in the units of
-- the clock; `code_version` is that of the server.
pub record Config : Type 0 where
  pub claim_duration : ℕ
  pub heartbeat_interval : ℕ
  pub offline_threshold : ℕ
  pub startup_grace_period : ℕ
  pub require_version_match : Bool
  pub require_version_field : Bool
  pub code_version : String
  pub sprite_sheets : Bool
