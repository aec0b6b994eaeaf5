-- ===== src/WorkerApi/Refusal.antt =====
-- api/worker_api.py: `worker_has_gpu` and the reasons of `claim_job` not to look for a job.
use text.Mathlib.Text.{◌==◌ as str_eq}
use vlog.Prelude.{
  ℕ, String, Bool, true, false, not, Option, none, some, List, ◌-◌, ◌*◌, ◌&&◌, ◌||◌, if◌then◌else◌,
  leb, ◌==◌, is_none, is_some, find_first,
}
use vlog.WorkerApi.Schema.{
  Worker, WorkerStatus, idle, Capabilities, hwaccel, Metadata, reported, Config,
}

unfoldable pub capabilities_gpu : Option Capabilities → Bool
capabilities_gpu none = false
capabilities_gpu (some Capabilities.malformed) = false
capabilities_gpu (some (hwaccel enabled)) = enabled

unfoldable pub metadata_gpu : Option Metadata → Bool
metadata_gpu none = false
metadata_gpu (some Metadata.malformed) = false
metadata_gpu (some (reported version enabled)) = enabled

unfoldable pub worker_has_gpu : Worker → Bool
unfolding capabilities_gpu metadata_gpu
worker_has_gpu w = capabilities_gpu w.capabilities || metadata_gpu w.metadata

-- `metadata.get("code_version")`, with an empty text taken for none, as the tests of its truth do.
unfoldable pub worker_version : Option Metadata → Option String
worker_version none = none
worker_version (some Metadata.malformed) = none
worker_version (some (reported none enabled)) = none
worker_version (some (reported (some version) enabled)) =
    if str_eq version "" then none else some version

pub record Claimed : Type 0 where
  pub job_id : ℕ
  pub video_id : ℕ
  pub claim_expires_at : ℕ
  pub existing_qualities : Option (List String)

-- ClaimJobResponse, by its message.
pub data ClaimReply : Type 0 where
  version_required version_mismatch waiting_for_gpu no_jobs : ClaimReply
  claimed : Claimed → ClaimReply

mismatch : Option String → String → Bool
mismatch none server = false
mismatch (some version) server = not (str_eq version server)

-- An idle worker other than this one with a GPU and a recent heartbeat.
unfoldable pub is_idle : WorkerStatus → Bool
is_idle idle = true
is_idle _ = false

unfoldable pub recent : Option ℕ → ℕ → Bool
recent none threshold = false
recent (some t) threshold = leb threshold t

unfoldable pub is_idle_gpu : ℕ → Worker → Worker → Bool
unfolding is_idle recent worker_has_gpu
is_idle_gpu threshold self w =
    is_idle w.status
    && (not (w.id == self.id) && (recent w.last_heartbeat threshold && worker_has_gpu w))

-- The reasons not to look for a job.
unfoldable pub refusal : Config → ℕ → Worker → List Worker → Option ClaimReply
unfolding worker_version mismatch worker_has_gpu is_idle_gpu
refusal c now w workers =
    let version = worker_version w.metadata in
    let idle_gpu = find_first (is_idle_gpu (now - c.heartbeat_interval * 2) w) workers in
    if c.require_version_field && is_none version
    then some version_required
    else if c.require_version_match && mismatch version c.code_version
    then some version_mismatch
    else if not (worker_has_gpu w) && is_some idle_gpu
    then some waiting_for_gpu
    else none
