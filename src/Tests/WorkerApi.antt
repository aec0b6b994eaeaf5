-- ===== src/Tests/WorkerApi.antt =====
-- api/worker_api.py at concrete databases.
use vlog.Prelude.{true, false, none, some, List, [], ◌∷◌, ◌≡◌, ◌≤◌, ◌<◌, ◌⊎◌, refl, arith}
use vlog.Prelude.Tables.{EachRow, EachRow-of_All, HasUniqueKeys}
use vlog.WorkerApi.Schema.{ready, Job, Database, Moment, ok, http_error}
use vlog.WorkerApi.Refusal.{claimed, no_jobs}
use vlog.WorkerApi.Claim.{select_job, claim_job}
use vlog.WorkerApi.Guards.{job_of, claim_expired}
use vlog.WorkerApi.Progress.{update_progress}
use vlog.WorkerApi.Complete.{CompleteRequest, already_completed, completed, Redis, complete_job}
use vlog.WorkerApi.Fail.{FailRequest, fail_job}
use vlog.WorkerApi.Stale.{detect_and_release_stale_jobs}
use vlog.WorkerApi.Selection.{job_id, NoYounger, select_job-NoYounger}
use vlog.WorkerApi.Protocol.{RowsMove}
use vlog.WorkerApi.Leases.{JobOk}
use vlog.WorkerApi.System.{Server, Request, run, serve}
use vlog.WorkerApi.System as System
use vlog.WorkerApi.Guarantees.{IsSound, serve-RowsMove, run-IsSound, run-lease}
use vlog.WorkerApi.Claims.{IsGranted, claim_job-IsGranted}
use vlog.WorkerApi.Completion.{complete_job-idempotent, expired_token_lies}
use vlog.WorkerApi.Failure.{IsReset, IsClosed, fail_job-outcome}
use vlog.Tests.Tables.{
  config, video, job, alice, bob, db, held, busy, redis, at, none_taken, str_ne,
}

program : Unit {0}
unfolding claim_job complete_job fail_job update_progress detect_and_release_stale_jobs run
program = tt

abbrev done : CompleteRequest
done = record {
  qualities = [];
  duration = some 60;
  source_width = none;
  source_height = none;
  streaming_format = some "cmaf";
  streaming_codec = none;
  completion_token = some "7-token";
}

abbrev broken : FailRequest
broken = record { error_message = "exit 1"; retry = true }

-- The older video's job is handed out first; then the other; then there is none.
claims :
    let first = claim_job config (at 100) none_taken true none alice db in
    let second = claim_job config (at 101) none_taken true none bob first.0 in
    let third = claim_job config (at 102) none_taken true none bob second.0 in
    (first.1
      ≡ ok (
          claimed (record {
            job_id = 8;
            video_id = 2;
            claim_expires_at = 130;
            existing_qualities = none;
          })))
    × (second.1
        ≡ ok (
            claimed (record {
              job_id = 7;
              video_id = 1;
              claim_expires_at = 131;
              existing_qualities = none;
            })))
    × (third.1 ≡ ok no_jobs)
unfolding program
claims = (refl, refl, refl)

reports :
    ((complete_job config (at 120) 7 done bob busy redis).2 ≡ http_error 403)
    × ((complete_job config (at 131) 7 done alice busy redis).2 ≡ http_error 409)
    × ((complete_job config (at 120) 7 done alice busy redis).2 ≡ ok completed)
    × ((fail_job (at 120) 9 broken alice busy).1 ≡ http_error 404)
    × ((fail_job (at 120) 7 broken alice busy).1
        ≡ ok (record { will_retry = true; attempt_number = 2 }))
unfolding program
reports = (refl, refl, refl, refl, refl)

-- A worker without a heartbeat for five units loses its lapsed job.
sweeps :
    let out = detect_and_release_stale_jobs config (λ n. none) 140 false none (λ d. d) busy in
    (job_of 7 out.0 ≡ some job) × (out.1 ≡ 2)
unfolding program
sweeps = (refl, refl)

unique : HasUniqueKeys job_id busy.jobs
unique = omega arith

abbrev server : Server
server = record { db = busy; redis = redis }

abbrev others : List (Moment × Request)
others =
    (at 110, System.claim none_taken true (some 7) bob)
    ∷ (at 120, System.fail 7 broken bob)
    ∷ (at 130, System.check (λ n. none) true none)
    ∷ []

held-JobOk : JobOk held
held-JobOk = record { attempts = omega arith; dated = λ e. refl; owned = λ e. refl }

free-JobOk : JobOk (record job { id = 8; video_id = 2 })
free-JobOk = record { attempts = omega arith; dated = λ e. refl; owned = λ e. refl }

busy-JobOk : EachRow job_id JobOk busy.jobs
busy-JobOk = EachRow-of_All job_id JobOk busy.jobs (held-JobOk, (free-JobOk, tt))

server-IsSound : IsSound server
server-IsSound = record { unique = unique; jobs = busy-JobOk }

serve-RowsMove_example :
    RowsMove config 120 "bbbbbbbb-2" busy.jobs
      (serve config (at 120) (System.fail 7 broken bob) server).db.jobs
serve-RowsMove_example = serve-RowsMove config (at 120) (System.fail 7 broken bob) server unique

run-IsSound_example : IsSound (run config others server)
run-IsSound_example = run-IsSound config others server server-IsSound

run-lease_example : job_of 7 (run config others server).db ≡ some held
run-lease_example =
    run-lease config others server "aaaaaaaa-1" 7 130 held unique refl refl (λ e. cc) refl
      (
        (str_ne "aaaaaaaa-1" "bbbbbbbb-2" refl, omega arith),
        (
          (str_ne "aaaaaaaa-1" "bbbbbbbb-2" refl, omega arith),
          ((str_ne "aaaaaaaa-1" "" refl, omega arith), tt),
        ),
      )

select_job-NoYounger_example : NoYounger 3 (select_job none_taken none db.videos db.jobs)
unfolding program
select_job-NoYounger_example =
    select_job-NoYounger none_taken none db.videos db.jobs 8 (record job { id = 8; video_id = 2 })
      (record job { id = 8; video_id = 2 }) (record video { id = 2; created_at = 3 }) refl refl

claim_job-IsGranted_example :
    (j i : Job) × (job_of 8 db ≡ some j)
    × (job_of 8 (claim_job config (at 100) none_taken true none alice db).0 ≡ some i)
    × IsGranted config 100 alice j i
unfolding program
claim_job-IsGranted_example =
    claim_job-IsGranted config (at 100) none_taken true none alice db (omega arith)
      (record { job_id = 8; video_id = 2; claim_expires_at = 130; existing_qualities = none }) refl

complete_job-idempotent_example :
    complete_job config
      (at 125)
      7
      done
      alice
      (complete_job config (at 120) 7 done alice busy redis).0
      redis
    ≡ ((complete_job config (at 120) 7 done alice busy redis).0, redis, ok already_completed)
unfolding program
complete_job-idempotent_example =
    complete_job-idempotent config (at 120) (at 125) 7 done done alice busy redis redis refl

expired_token_lies_example :
    (r' : Redis) × (complete_job config (at 131) 7 done alice busy redis
      ≡ (busy, r', http_error 409))
    × ((complete_job config (at 132) 7 done alice busy r').0 ≡ busy)
    × ((complete_job config (at 132) 7 done alice busy r').2 ≡ ok already_completed)
unfolding claim_expired
expired_token_lies_example =
    expired_token_lies config (at 131) (at 132) 7 done "7-token" alice busy redis held refl refl
      refl refl refl refl refl refl (omega arith)

fail_job-outcome_example :
    (i : Job) × (job_of 7 (fail_job (at 120) 7 broken alice busy).0 ≡ some i)
    × (((fail_job (at 120) 7 broken alice busy).1
            ≡ ok (record { will_retry = true; attempt_number = i.attempt_number }))
          × (broken.retry ≡ true)
          × (held.attempt_number < held.max_attempts)
          × IsReset held i
        ⊎ ((fail_job (at 120) 7 broken alice busy).1
            ≡ ok (record { will_retry = false; attempt_number = i.attempt_number }))
          × ((broken.retry ≡ false) ⊎ (held.max_attempts ≤ held.attempt_number))
          × IsClosed 120 held i)
unfolding claim_expired
fail_job-outcome_example = fail_job-outcome (at 120) 7 broken alice busy held refl refl refl refl

-- The worker completed the job at 110, and reports a failure of it later.
abbrev finished : Job
finished = record held { completed_at = some 110; claimed_at = none; claim_expires_at = none }

abbrev finished_db : Database
finished_db = record db { jobs = finished ∷ []; videos = record video { status = ready } ∷ [] }

abbrev second_try : Job
second_try = record held { attempt_number = 2 }

abbrev second_db : Database
second_db = record db { jobs = second_try ∷ [] }
