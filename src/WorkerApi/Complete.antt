-- ===== src/WorkerApi/Complete.antt =====
-- api/worker_api.py, `complete_job`. Metrics and the notice to Redis change no table.
use text.Mathlib.Text.{◌==◌ as str_eq}
use vlog.Prelude.{
  ℕ, ◌+◌, ltb, String, Bool, true, false, not, Option, none, some, List, [], ◌∷◌, ◌++◌, ◌&&◌, ◌||◌,
  if◌then◌else◌, ◌==◌, is_none, is_some, keep_if, find_first, update_where,
}
use vlog.WorkerApi.Schema.{
  Video, ready, Job, Worker, VideoQuality, Database, Moment, Config, Reply, ok, http_error,
}
use vlog.WorkerApi.Guards.{owned_job, claim_expired}

pub record QualityInfo : Type 0 where
  pub name : String
  pub width : ℕ
  pub height : ℕ
  pub bitrate : ℕ

pub record CompleteRequest : Type 0 where
  pub qualities : List QualityInfo
  pub duration : Option ℕ
  pub source_width : Option ℕ
  pub source_height : Option ℕ
  pub streaming_format : Option String
  pub streaming_codec : Option String
  pub completion_token : Option String

-- COMPLETION_TOKEN_TTL, in seconds, the unit of the clock here.
abbrev pub completion_token_ttl : ℕ
completion_token_ttl = 900

-- A completion token in Redis, whose key is made of the job's id and the token; Redis drops it when
-- its time to live has ended, at `expires`.
pub record Token : Type 0 where
  pub job_id : ℕ
  pub token : String
  pub done : Bool
  pub expires : ℕ

-- Redis: whether `get_redis` returns a client, whether its operations raise, and the tokens, among
-- them such as have expired, which no request sees.
pub record Redis : Type 0 where
  pub up : Bool
  pub faulty : Bool
  pub tokens : List Token

pub data CompleteReply : Type 0 where
  already_completed completed : CompleteReply

unfoldable pub is_token : ℕ → String → Token → Bool
is_token k t x = (x.job_id == k) && str_eq x.token t

unfoldable pub is_live_token : ℕ → ℕ → String → Token → Bool
unfolding is_token
is_live_token now k t x = is_token k t x && ltb now x.expires

-- What `SET key "processing" EX NX` leads to: the request goes on, with the token acquired or without
-- one, or it ends because the key is there.
pub data Acquired : Type 0 where
  acquired not_acquired in_use : Acquired

unfoldable pub processing_token : ℕ → ℕ → String → Token
processing_token now k t = record {
  job_id = k;
  token = t;
  done = false;
  expires = now + completion_token_ttl;
}

unfoldable pub acquire : ℕ → ℕ → Option String → Redis → Redis × Acquired
unfolding is_token is_live_token processing_token
acquire now k none r = (r, not_acquired)
acquire now k (some t) r =
    if not r.up || r.faulty
    then (r, not_acquired)
    else if is_some (find_first (is_live_token now k t) r.tokens)
    then (r, in_use)
    else (
      record r { tokens = processing_token now k t ∷ keep_if (λ x. not (is_token k t x)) r.tokens },
      acquired,
    )

unfoldable pub delete_token : ℕ → Option String → Redis → Redis
unfolding is_token
delete_token k none r = r
delete_token k (some t) r =
    if r.up && not r.faulty
    then record r { tokens = keep_if (λ x. not (is_token k t x)) r.tokens }
    else r

set_done : ℕ → Token → Token
set_done now x = record x { done = true; expires = now + completion_token_ttl }

unfoldable pub finish_token : ℕ → ℕ → Option String → Redis → Redis
unfolding is_token set_done
finish_token now k none r = r
finish_token now k (some t) r =
    if r.up && not r.faulty
    then record r { tokens = update_where (is_token k t) (set_done now) r.tokens }
    else r

-- `if not existing: INSERT`, for each reported quality.
unfoldable pub add_qualities : ℕ → List QualityInfo → List VideoQuality → List VideoQuality
add_qualities k [] qs = qs
add_qualities k (q ∷ rest) qs = add_qualities k rest (
    if is_some (find_first (λ x. (x.video_id == k) && str_eq x.quality q.name) qs)
    then qs
    else qs
      ++ record {
        video_id = k;
        quality = q.name;
        width = q.width;
        height = q.height;
        bitrate = q.bitrate;
      }
        ∷ [])

-- `if data.x is not None and video_row["x"] is None: video_updates["x"] = data.x`.
abbrev pub fill {ℓ} : {A : Type ℓ} → Option A → Option A → Option A
fill new none = new
fill new (some x) = some x

unfoldable pub set_ready : ℕ → CompleteRequest → Video → Video
set_ready now d v = record v {
  status = ready;
  published_at = fill (some now) v.published_at;
  duration = fill d.duration v.duration;
  source_width = fill d.source_width v.source_width;
  source_height = fill d.source_height v.source_height;
  streaming_format = fill d.streaming_format v.streaming_format;
  primary_codec = fill d.streaming_codec v.primary_codec;
}

unfoldable pub set_completed : ℕ → Job → Job
set_completed now j = record j {
  completed_at = some now;
  progress_percent = 100;
  current_step = some "finalize";
  claimed_at = none;
  claim_expires_at = none;
}

unfoldable pub clear_current : Worker → Worker
clear_current w = record w { current_job_id = none }

-- `do_complete_transaction`.
unfoldable pub complete_transaction : ℕ → CompleteRequest → Worker → Job → Database → Database
unfolding add_qualities set_ready set_completed clear_current
complete_transaction now d w job db = record db {
  video_qualities = add_qualities job.video_id d.qualities db.video_qualities;
  jobs = update_where (λ j. j.id == job.id) (set_completed now) db.jobs;
  videos = update_where (λ v. v.id == job.video_id) (set_ready now d) db.videos;
  workers = update_where (λ u. u.id == w.id) clear_current db.workers;
}

unfoldable pub set_sprite_pending : Video → Video
set_sprite_pending v = record v { sprite_sheet_status = some "pending"; sprite_sheet_error = none }

-- The queueing of the sprite sheets, when they are enabled and not queued yet.
unfoldable pub queue_sprites : Config → Job → Database → Database
unfolding set_sprite_pending
queue_sprites c job db =
    if c.sprite_sheets
      && is_none (find_first (λ s. (s.video_id == job.video_id) && s.open_) db.sprite_queue)
    then record db {
      sprite_queue = db.sprite_queue ++ record { video_id = job.video_id; open_ = true } ∷ [];
      videos = update_where (λ v. v.id == job.video_id) set_sprite_pending db.videos;
    }
    else db

-- From the check of the expiry on. A claim that has run out ends the request with the token kept; a
-- locked database ends it with the token deleted.
unfoldable pub finish_complete :
    Config
    → Moment
    → CompleteRequest
    → Worker
    → Job
    → Acquired
    → Database
    → Redis
    → Database × Redis × Reply CompleteReply
unfolding complete_transaction queue_sprites delete_token finish_token claim_expired
finish_complete c m d w job in_use db r = (db, r, ok already_completed)
finish_complete c m d w job acquired db r =
    if claim_expired m.now job
    then (db, r, http_error 409)
    else if m.locked
    then (db, delete_token job.id d.completion_token r, http_error 503)
    else (
      queue_sprites c job (complete_transaction m.now d w job db),
      finish_token m.now job.id d.completion_token r,
      ok completed,
    )
finish_complete c m d w job not_acquired db r =
    if claim_expired m.now job
    then (db, r, http_error 409)
    else if m.locked
    then (db, r, http_error 503)
    else (queue_sprites c job (complete_transaction m.now d w job db), r, ok completed)

unfoldable pub complete_owned :
    Config
    → Moment
    → CompleteRequest
    → Worker
    → Job
    → Database
    → Redis
    → Database × Redis × Reply CompleteReply
unfolding acquire finish_complete
complete_owned c m d w job db r =
    if is_some job.completed_at
    then (db, r, ok already_completed)
    else (let (r', a) = acquire m.now job.id d.completion_token r in
        finish_complete c m d w job a db r')

-- The whole endpoint.
unfoldable pub complete_job :
    Config
    → Moment
    → ℕ
    → CompleteRequest
    → Worker
    → Database
    → Redis
    → Database × Redis × Reply CompleteReply
unfolding owned_job complete_owned
complete_job c m k d w db r = elim (owned_job k w db) [
  | http_error e ↦ (db, r, http_error e)
  | ok job ↦ complete_owned c m d w job db r
]
