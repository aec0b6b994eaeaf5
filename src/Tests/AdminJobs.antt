-- ===== src/Tests/AdminJobs.antt =====
-- The admin API on the jobs and workers of the small database.
use vlog.Prelude.{true, false, none, some, [], ◌∷◌, ◌≡◌, ◌⊎◌, ◌↔◌, refl, arith, List}
use vlog.Prelude.Tables.{EachRow-of_All}
use vlog.WorkerApi.Schema.{Video, pending, ready, Job, Worker, Database, Moment, ok, http_error}
use vlog.WorkerApi.Claim.{claimable}
use vlog.WorkerApi.Guards.{job_of, claim_expired}
use vlog.WorkerApi.Fail.{FailRequest, fail_job}
use vlog.WorkerApi.Selection.{job_id}
use vlog.WorkerApi.Leases.{JobOk}
use vlog.WorkerApi.System as Api
use vlog.WorkerApi.System.{Server}
use vlog.WorkerApi.Guarantees.{IsSound}
use vlog.WorkerApi.Failure.{video_of}
use vlog.AdminApi.Jobs.{
  retry_video, retranscode_video, job_for, delete_video_and_job, cleanup_orphaned_jobs,
  re_upload_video, restore_video, create_or_reset_transcoding_job,
}
use vlog.AdminApi.Workers.{disable_worker, enable_worker, delete_worker, is_disabled, worker_named}
use vlog.AdminApi.Requeue.{HasOneJobEach, IsOnlyJob, retranscode_video-claimable_iff}
use vlog.AdminApi.Retries.{retried_in_vain}
use vlog.AdminApi.Evictions.{disable_worker-evicts}
use vlog.AdminApi.System.{
  AdminRequest, serve_admin, Event, worker, admin, run_all, AllFit, run_all-IsSound,
}
use vlog.Tests.Tables.{config, video, job, alice, bob, db, held, busy, redis, at, none_taken}

jobs_program : Unit {0}
unfolding serve_admin retry_video retranscode_video re_upload_video restore_video
    delete_video_and_job cleanup_orphaned_jobs disable_worker enable_worker delete_worker
    create_or_reset_transcoding_job job_for is_disabled worker_named claimable
jobs_program = tt

one_job_each : HasOneJobEach busy.jobs
one_job_each = omega arith

-- Alice's row still names job 7, which bob has claimed since.
abbrev taken_over : Database
taken_over = record db {
  jobs = record held { worker_id = some "bbbbbbbb-2"; claim_expires_at = some 170 } ∷ [];
  workers = record alice { current_job_id = some 7 } ∷ record bob { current_job_id = some 7 } ∷ [];
}

abbrev broken : FailRequest
broken = record { error_message = "exit 1"; retry = true }

alice_named :
    worker_named "aaaaaaaa-1" taken_over.workers ≡ some (record alice { current_job_id = some 7 })
unfolding jobs_program
alice_named = refl

alice_enabled : is_disabled alice.status ≡ false
unfolding jobs_program
alice_enabled = refl

disable_worker-evicts_example :
    (i : Job) × ((disable_worker "aaaaaaaa-1" taken_over).0 ≡ ok tt)
    × (job_of 7 (disable_worker "aaaaaaaa-1" taken_over).1 ≡ some i)
    × (i.claimed_at ≡ none)
    × (i.worker_id ≡ none)
    × ((m : Moment) (d : FailRequest) (v : Worker)
        → fail_job m 7 d v (disable_worker "aaaaaaaa-1" taken_over).1
          ≡ ((disable_worker "aaaaaaaa-1" taken_over).1, http_error 403))
disable_worker-evicts_example =
    disable_worker-evicts "aaaaaaaa-1" taken_over (record alice { current_job_id = some 7 }) 7
      (record held { worker_id = some "bbbbbbbb-2"; claim_expires_at = some 170 }) alice_named
      alice_enabled refl refl refl

retranscode_video-claimable_iff_example :
    (i : Job) × (job_of 9 (retranscode_video (("720p", 720) ∷ []) true 9 1 ("all" ∷ []) busy).1
      ≡ some i)
    × IsOnlyJob 1 i (retranscode_video (("720p", 720) ∷ []) true 9 1 ("all" ∷ []) busy).1.jobs
    × ((retranscode_video (("720p", 720) ∷ []) true 9 1 ("all" ∷ []) busy).1.videos ≡ busy.videos)
    × (i.claimed_at ≡ none)
    × (i.attempt_number ≡ 1)
    × ((x : Video)
        → (claimable i x ≡ true)
          ↔ (x.deleted_at ≡ none) × ((x.status ≡ pending) ⊎ (x.status ≡ ready)))
retranscode_video-claimable_iff_example =
    retranscode_video-claimable_iff (("720p", 720) ∷ []) 9 1 ("all" ∷ []) busy video one_job_each
      refl refl

abbrev last_try : Job
last_try = record held { attempt_number = 3 }

abbrev exhausted : Database
exhausted = record db { jobs = last_try ∷ [] }

still_live : claim_expired 110 last_try ≡ false
unfolding claim_expired
still_live = refl

retried_in_vain_example :
    (i : Job) × (u : Video) × ((retry_video true 1 (fail_job (at 110) 7 broken alice exhausted).0).0
      ≡ ok tt)
    × (video_of 1 (retry_video true 1 (fail_job (at 110) 7 broken alice exhausted).0).1 ≡ some u)
    × (u.status ≡ pending)
    × (job_of 7 (retry_video true 1 (fail_job (at 110) 7 broken alice exhausted).0).1 ≡ some i)
    × ((x : Video) → claimable i x ≡ false)
retried_in_vain_example =
    retried_in_vain (at 110) 7 broken alice exhausted last_try video refl refl still_live refl
      (omega arith) refl

held-JobOk : JobOk held
held-JobOk = record { attempts = omega arith; dated = λ e. refl; owned = λ e. refl }

free-JobOk : JobOk (record job { id = 8; video_id = 2 })
free-JobOk = record { attempts = omega arith; dated = λ e. refl; owned = λ e. refl }

abbrev server : Server
server = record { db = busy; redis = redis }

busy-IsSound : IsSound server
busy-IsSound = record {
  unique = omega arith;
  jobs = EachRow-of_All job_id JobOk busy.jobs (held-JobOk, (free-JobOk, tt));
}

abbrev history : List Event
history =
    worker (at 120) (Api.claim none_taken true none bob)
    ∷ admin (AdminRequest.disable "bbbbbbbb-2")
    ∷ admin (AdminRequest.retranscode (("720p", 720) ∷ []) true 9 1 ("all" ∷ []))
    ∷ []

history-AllFit : AllFit config history server
history-AllFit = (tt, (tt, ((omega arith, one_job_each), tt)))

run_all-IsSound_example : IsSound (run_all config history server)
run_all-IsSound_example = run_all-IsSound config history server history-AllFit busy-IsSound
