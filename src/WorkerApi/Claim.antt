-- ===== src/WorkerApi/Claim.antt =====
-- api/worker_api.py: `claim_job`.
use text.Mathlib.Text.{◌==◌ as str_eq}
use vlog.Prelude.{
  ℕ, String, Bool, true, false, not, Option, none, some, List, [], ◌∷◌, ◌+◌, ◌&&◌, ◌||◌,
  if◌then◌else◌, ltb, leb, ◌==◌, is_none, is_some, keep_if, find_first, update_where,
}
use vlog.Prelude.Text.{take_chars, append}
use vlog.Prelude.Tables.{fetch}
use vlog.WorkerApi.Schema.{
  Video, VideoStatus, pending, processing, ready, Job, Worker, RetranscodeMetadata, RetranscodePlan,
  plan, VideoQuality, Database, Moment, Config, Reply, ok, http_error,
}
use vlog.WorkerApi.Refusal.{claimed, no_jobs, ClaimReply, refusal}

-- `claim_expires_at < :now AND completed_at IS NULL`.
unfoldable pub claim_lapsed : ℕ → Job → Bool
claim_lapsed now j =
    elim j.claim_expires_at [ none ↦ false | some t ↦ ltb t now ] && is_none j.completed_at

unfoldable pub is_processing : VideoStatus → Bool
is_processing processing = true
is_processing _ = false

-- `id IN (SELECT video_id ...)`.
unfoldable pub has_lapsed_job : ℕ → List Job → Video → Bool
unfolding claim_lapsed
has_lapsed_job now jobs v =
    is_some (find_first (λ j. claim_lapsed now j && (j.video_id == v.id)) jobs)

unfoldable pub release_video : Video → Video
release_video v = record v { status = pending }

unfoldable pub release_claim : Job → Job
release_claim j = record j { worker_id = none; claimed_at = none; claim_expires_at = none }

-- The two UPDATEs that open the transaction: the videos first, by the jobs as they were.
unfoldable pub release_lapsed : ℕ → Database → Database
unfolding is_processing has_lapsed_job release_video claim_lapsed release_claim
release_lapsed now db = record db {
  videos =
      update_where (λ v. is_processing v.status && has_lapsed_job now db.jobs v) release_video
        db.videos;
  jobs = update_where (claim_lapsed now) release_claim db.jobs;
}

unfoldable pub is_waiting : VideoStatus → Option RetranscodeMetadata → Bool
is_waiting pending m = true
is_waiting ready m = is_some m
is_waiting _ m = false

-- The WHERE clause of the SELECT over a job and its video.
unfoldable pub claimable : Job → Video → Bool
unfolding is_waiting
claimable j v =
    is_waiting v.status j.retranscode_metadata
    && (is_none v.deleted_at && (is_none j.claimed_at && is_none j.completed_at))

-- `:job_id`, if the request names a job.
abbrev pub requested : Option ℕ → Job → Bool
requested none j = true
requested (some k) j = j.id == k

-- The joined rows that the SELECT considers; `taken` are the rows that other transactions have
-- locked (SKIP LOCKED).
unfoldable pub candidate : (ℕ → Bool) → Option ℕ → List Video → Job → Option (Job × Video)
unfolding claimable
candidate taken wanted videos j = elim (fetch (λ (v : Video). v.id) j.video_id videos) [
  | none ↦ none
  | some v ↦ if requested wanted j && (not (taken j.id) && claimable j v) then some (j, v) else none
]

-- `ORDER BY v.created_at ASC LIMIT 1`; of equal times the first row.
unfoldable pub older : Option (Job × Video) → Option (Job × Video) → Option (Job × Video)
older none b = b
older (some a) none = some a
older (some (j, v)) (some (i, u)) =
    if leb v.created_at u.created_at then some (j, v) else some (i, u)

unfoldable pub select_job : (ℕ → Bool) → Option ℕ → List Video → List Job → Option (Job × Video)
unfolding candidate older
select_job taken wanted videos [] = none
select_job taken wanted videos (j ∷ jobs) =
    older (candidate taken wanted videos j) (select_job taken wanted videos jobs)

-- `worker["worker_name"] or f"worker-{worker['worker_id'][:8]}"`.
unfoldable pub permanent_name : Worker → String
permanent_name w = elim w.worker_name [
  | none ↦ append "worker-" (take_chars 8 w.worker_id)
  | some name ↦ if str_eq name "" then append "worker-" (take_chars 8 w.worker_id) else name
]

unfoldable pub set_claim : Config → ℕ → Worker → Job → Job
unfolding permanent_name
set_claim c now w j = record j {
  worker_id = some w.worker_id;
  claimed_at = some now;
  claim_expires_at = some (now + c.claim_duration);
  started_at = some now;
  current_step = some "claimed";
  processed_by_worker_id = some w.worker_id;
  processed_by_worker_name = some (permanent_name w);
}

unfoldable pub set_processing : Video → Video
set_processing v = record v { status = processing }

unfoldable pub set_current : ℕ → Worker → Worker
set_current k w = record w { current_job_id = some k }

unfoldable pub record_claim : Config → ℕ → Worker → Job → Database → Database
unfolding set_claim set_processing set_current
record_claim c now w job db = record db {
  jobs = update_where (λ j. j.id == job.id) (set_claim c now w) db.jobs;
  videos = update_where (λ v. v.id == job.video_id) set_processing db.videos;
  workers = update_where (λ u. u.id == w.id) (set_current job.id) db.workers;
}

-- The rest of the transaction, on the row that the SELECT returned.
unfoldable pub claim_selected :
    Config → ℕ → Worker → Database → Option (Job × Video) → Database × Option Job
unfolding record_claim
claim_selected c now w db none = (db, none)
claim_selected c now w db (some (job, v)) = (record_claim c now w job db, some job)

-- `do_claim_transaction`: the database after it and the job that it claimed.
unfoldable pub claim_transaction :
    Config → ℕ → (ℕ → Bool) → Option ℕ → Worker → Database → Database × Option Job
unfolding release_lapsed select_job claim_selected
claim_transaction c now taken wanted w db =
    let released = release_lapsed now db in
    claim_selected c now w released (select_job taken wanted released.videos released.jobs)

unfoldable pub is_listed : List String → String → Bool
is_listed qualities q = is_some (find_first (λ x. str_eq x q) qualities)

unfoldable pub clear_metadata : Job → Job
clear_metadata j = record j { retranscode_metadata = none }

-- The deferred clean-up of a re-transcode in the database, which follows that of the files.
unfoldable pub retranscode_cleanup : RetranscodePlan → Job → Database → Database
unfolding is_listed clear_metadata
retranscode_cleanup p job db = record db {
  video_qualities =
      keep_if
        (λ q. not (
          q.video_id == job.video_id
          && (p.retranscode_all || is_listed p.qualities_to_delete q.quality)))
        db.video_qualities;
  transcriptions =
      keep_if (λ t. not (p.delete_transcription && (t == job.video_id))) db.transcriptions;
  jobs = update_where (λ j. j.id == job.id) clear_metadata db.jobs;
}

-- The names of the video's qualities, or None if there is none.
abbrev name_list : List String → Option (List String)
name_list [] = none
name_list (x ∷ xs) = some (x ∷ xs)

quality_names : ℕ → List VideoQuality → List String
quality_names k [] = []
quality_names k (q ∷ qs) =
    let rest = quality_names k qs in if q.video_id == k then q.quality ∷ rest else rest

unfoldable pub claim_response : Config → ℕ → Job → Database → ClaimReply
unfolding quality_names
claim_response c now job db = claimed (record {
  job_id = job.id;
  video_id = job.video_id;
  claim_expires_at = now + c.claim_duration;
  existing_qualities = name_list (quality_names job.video_id db.video_qualities);
})

-- After the transaction. The handler of a failed clean-up names the variables that parsing the
-- metadata would have set: where it does not parse, that is an unhandled UnboundLocalError.
-- `files_ok`: the clean-up of the files raises nothing.
unfoldable pub after_claim :
    Config → ℕ → Bool → Option RetranscodeMetadata → Job → Database → Database × Reply ClaimReply
unfolding retranscode_cleanup claim_response
after_claim c now files_ok none job db = (db, ok (claim_response c now job db))
after_claim c now files_ok (some RetranscodeMetadata.malformed) job db = (db, http_error 500)
after_claim c now true (some (plan p)) job db =
    let cleaned = retranscode_cleanup p job db in (cleaned, ok (claim_response c now job cleaned))
after_claim c now false (some (plan p)) job db = (db, ok (claim_response c now job db))

unfoldable pub finish_claim :
    Config → ℕ → Bool → Database × Option Job → Database × Reply ClaimReply
unfolding after_claim
finish_claim c now files_ok (db, none) = (db, ok no_jobs)
finish_claim c now files_ok (db, some job) =
    after_claim c now files_ok job.retranscode_metadata job db

-- The endpoint behind the refusals.
unfoldable pub try_claim :
    Config → Moment → (ℕ → Bool) → Bool → Option ℕ → Worker → Database → Database × Reply ClaimReply
unfolding claim_transaction finish_claim
try_claim c m taken files_ok wanted w db =
    if m.locked
    then (db, http_error 503)
    else finish_claim c m.now files_ok (claim_transaction c m.now taken wanted w db)

-- The whole endpoint.
unfoldable pub claim_job :
    Config → Moment → (ℕ → Bool) → Bool → Option ℕ → Worker → Database → Database × Reply ClaimReply
unfolding refusal try_claim
claim_job c m taken files_ok wanted w db = elim (refusal c m.now w db.workers) [
  | some reply ↦ (db, ok reply)
  | none ↦ try_claim c m taken files_ok wanted w db
]
