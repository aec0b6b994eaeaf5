-- ===== src/Tests/LocalJobs.antt =====
-- worker/transcoder.py: the local worker's jobs at concrete databases.
use vlog.Prelude.{true, none, some, List, [], ◌∷◌, ◌≡◌, refl, arith}
use vlog.Prelude.Tables.{fetch}
use vlog.Prelude.Dicts.{get}
use vlog.WorkerApi.Schema.{Job, Database, QualityProgress}
use vlog.WorkerApi.Guards.{job_of}
use vlog.WorkerApi.Selection.{job_id}
use vlog.WorkerApi.System.{Server, run}
use vlog.WorkerApi.System as System
use vlog.Transcoder.Jobs.{local_worker, set_local, set_reset, get_existing_job}
use vlog.Transcoder.Recovery.{recover_interrupted_jobs, check_stale_jobs}
use vlog.Transcoder.Leasing.{get_existing_job-leases, get_existing_job-keeps}
use vlog.Transcoder.Qualities.{
  new_quality, get_quality_status, init_quality_progress, get_completed_qualities,
  update_quality_status,
}
use vlog.Transcoder.Resuming.{init_quality_progress-resumes}
use vlog.Transcoder.Tracker.{
  ProgressTracker, begins_job, begins_quality, finish_job, finish_quality,
}
use vlog.Transcoder.Limits.{job, quality, calls, writes, IsLimited, Holds, calls-IsLimited}
use vlog.Tests.Tables.{config, db, held, busy, redis, at, none_taken, alice, bob, str_ne}
use vlog.Tests.Tables as Tables

program : Unit {0}
unfolding get_existing_job recover_interrupted_jobs check_stale_jobs run get_completed_qualities
    update_quality_status init_quality_progress calls writes
program = tt

-- Job 7 is held by a remote worker until 130; its checkpoint is that of an earlier attempt.
abbrev stale : Job
stale = record held { last_checkpoint = some 10 }

abbrev waiting : Database
waiting = record db { jobs = stale ∷ [] }

taken_over :
    fetch job_id 7 (recover_interrupted_jobs "local" 60 110 waiting).jobs
    ≡ some (set_reset "local" 110 2 stale)
unfolding program
taken_over = refl

abbrev server : Server
server = record { db = db; redis = redis }

-- The local worker has job 7; the remote ones ask for a job.
get_existing_job-leases_example :
    (Tables.job.completed_at ≡ none)
    × (job_of 7
          (run config
            ((at 120, System.claim none_taken true none alice)
              ∷ (at 130, System.claim none_taken true (some 7) bob)
              ∷ [])
            (record server { db = (get_existing_job config (at 100) none_taken 1 db).0 })).db
        ≡ some (set_local config 100 Tables.job))
unfolding program
get_existing_job-leases_example =
    get_existing_job-leases config (at 100) none_taken 1 server Tables.job
      ((at 120, System.claim none_taken true none alice)
        ∷ (at 130, System.claim none_taken true (some 7) bob)
        ∷ [])
      ((λ e. omega arith, tt), (tt, tt)) refl
      (
        (str_ne local_worker "aaaaaaaa-1" refl, omega arith),
        ((str_ne local_worker "bbbbbbbb-2" refl, omega arith), tt),
      )

get_existing_job-keeps_example :
    job_of 7 (get_existing_job config (at 120) none_taken 1 busy).0 ≡ some held
get_existing_job-keeps_example =
    get_existing_job-keeps config (at 120) none_taken 1 7 130 busy held "aaaaaaaa-1"
      ((λ e. omega arith, tt), (tt, tt)) refl refl (str_ne "aaaaaaaa-1" local_worker refl) (λ e. cc)
      refl (omega arith)

-- One quality is done when the job starts again.
abbrev rows : List QualityProgress
rows = record (new_quality 7 "720p") { status = "completed"; progress_percent = 100 } ∷ []

init_quality_progress-resumes_example :
    (get_quality_status 7 "480p" (
        init_quality_progress 7
          (record { name = "720p"; height = 720 } ∷ record { name = "480p"; height = 480 } ∷ [])
          rows)
      ≡ some (new_quality 7 "480p"))
    × (get_completed_qualities 7 (
          init_quality_progress 7
            (record { name = "720p"; height = 720 } ∷ record { name = "480p"; height = 480 } ∷ [])
            rows)
        ≡ "720p" ∷ [])
unfolding program
init_quality_progress-resumes_example =
    init_quality_progress-resumes 7 7 "480p"
      (record { name = "720p"; height = 720 } ∷ record { name = "480p"; height = 480 } ∷ []) rows

abbrev tracker : ProgressTracker
tracker = record {
  min_interval = 5;
  last_update_time = 0;
  last_job_progress = none;
  last_quality_progress = [];
}

-- The second report comes too soon; completion is written at once.
written :
    writes config 7
      ((100, 100, job 10)
        ∷ (103, 103, quality "720p" 20)
        ∷ (106, 106, quality "720p" 30)
        ∷ (107, 107, job 100)
        ∷ [])
      tracker
      db
    ≡ (100, 10) ∷ (106, 30) ∷ (107, 100) ∷ []
unfolding program get
written = refl

calls-IsLimited_example :
    IsLimited 5 0
      (writes config 7 ((100, 100, job 10) ∷ (106, 106, quality "720p" 30) ∷ []) tracker db)
    × Holds 7
        (calls config 7 ((100, 100, job 10) ∷ (106, 106, quality "720p" 30) ∷ []) tracker db).0
        (calls config 7 ((100, 100, job 10) ∷ (106, 106, quality "720p" 30) ∷ []) tracker db).1
calls-IsLimited_example =
    calls-IsLimited config 7 ((100, 100, job 10) ∷ (106, 106, quality "720p" 30) ∷ []) tracker db
      (Tables.job, refl, tt)

-- Of two callbacks that share the tracker, the second begins its write while the first one's is
-- awaited, one second later; and when it finishes first, the tracker's time goes back.
overlap :
    (begins_job 100 10 tracker ≡ true)
    × (begins_quality 101 "720p" 20 tracker ≡ true)
    × ((finish_job 100 10 (finish_quality 101 "720p" 20 tracker)).last_update_time ≡ 100)
unfolding begins_job begins_quality get finish_job finish_quality
overlap = (refl, refl, refl)
