-- ===== src/AdminApi/System.antt =====
-- The admin endpoints on jobs and workers next to the requests of the worker API: the invariant of
-- the jobs over any history of both.
use vlog.Prelude.{ℕ, String, Bool, List, [], ◌∷◌, keep_if}
use vlog.Prelude.Tables.{Absent}
use vlog.WorkerApi.Schema.{Job, Database, Moment, Config}
use vlog.WorkerApi.Selection.{job_id}
use vlog.WorkerApi.System.{Server, Request, serve}
use vlog.WorkerApi.Guarantees.{IsSound, serve-IsSound}
use vlog.AdminApi.Jobs.{
  delete_video_and_job, is_orphan, cleanup_orphaned_jobs, retry_video, retranscode_video,
  restore_video, re_upload_video, Upload,
}
use vlog.AdminApi.Workers.{disable_worker, enable_worker}
use vlog.AdminApi.Requeue.{HasOneJobEach}
use vlog.AdminApi.JobRows.{
  retranscode-JobsOk, re_upload-JobsOk, JobsOk, delete_jobs-JobsOk, disable_worker-JobsOk,
  enable_worker-jobs, retry-jobs, restore-jobs, delete_video-JobsOk,
}

-- A request to an endpoint of the admin API, with what it finds around the database.
pub data AdminRequest : Type 0 where
  retry : Bool → ℕ → AdminRequest
  retranscode : List (String × ℕ) → Bool → ℕ → ℕ → List String → AdminRequest
  re_upload : Bool → Bool → Upload → ℕ → ℕ → AdminRequest
  restore : Bool → ℕ → AdminRequest
  delete_video : ℕ → AdminRequest
  clean_up : AdminRequest
  disable : String → AdminRequest
  enable : String → AdminRequest

unfoldable pub serve_admin : AdminRequest → Database → Database
serve_admin (AdminRequest.retry source v) db = (retry_video source v db).1
serve_admin (AdminRequest.retranscode presets source id v names) db =
    (retranscode_video presets source id v names db).1
serve_admin (AdminRequest.re_upload large allowed upload id v) db =
    (re_upload_video large allowed upload id v db).1
serve_admin (AdminRequest.restore moved v) db = (restore_video moved v db).1
serve_admin (AdminRequest.delete_video v) db = delete_video_and_job v db
serve_admin AdminRequest.clean_up db = cleanup_orphaned_jobs db
serve_admin (AdminRequest.disable w) db = (disable_worker w db).1
serve_admin (AdminRequest.enable w) db = (enable_worker w db).1

-- The rows that an admin request finds: the key that the database gives a new job is unused, and no
-- video has two jobs.
abbrev pub Fits : AdminRequest → List Job → Type 0
Fits (AdminRequest.retranscode presets source id v names) jobs =
    Absent job_id id jobs × HasOneJobEach jobs
Fits (AdminRequest.re_upload large allowed upload id v) jobs =
    Absent job_id id jobs × HasOneJobEach jobs
Fits _ jobs = Unit

serve_admin-JobsOk :
    (r : AdminRequest) (db : Database)
    → Fits r db.jobs
    → JobsOk db.jobs
    → JobsOk (serve_admin r db).jobs
unfolding serve_admin cleanup_orphaned_jobs
serve_admin-JobsOk (AdminRequest.retry source v) db fits h = rw (retry-jobs source v db) h
serve_admin-JobsOk (AdminRequest.retranscode presets source id v names) db fits h =
    retranscode-JobsOk id v db fits.0 fits.1 h presets source names
serve_admin-JobsOk (AdminRequest.re_upload large allowed upload id v) db fits h =
    re_upload-JobsOk id v db fits.0 fits.1 h large allowed upload
serve_admin-JobsOk (AdminRequest.restore moved v) db fits h = rw (restore-jobs moved v db) h
serve_admin-JobsOk (AdminRequest.delete_video v) db fits h = delete_video-JobsOk v db h
serve_admin-JobsOk AdminRequest.clean_up db fits h =
    delete_jobs-JobsOk (keep_if (is_orphan db.videos) db.jobs) db h
serve_admin-JobsOk (AdminRequest.disable w) db fits h = disable_worker-JobsOk w db h
serve_admin-JobsOk (AdminRequest.enable w) db fits h = rw (enable_worker-jobs w db) h

-- What the two servers take: a request of the worker API or one of the admin API.
pub data Event : Type 0 where
  worker : Moment → Request → Event
  admin : AdminRequest → Event

abbrev pub step : Config → Event → Server → Server
step c (worker m r) s = serve c m r s
step c (admin r) s = record s { db = serve_admin r s.db }

-- The first event of a history is the latest.
abbrev pub run_all : Config → List Event → Server → Server
run_all c [] s = s
run_all c (e ∷ before) s = step c e (run_all c before s)

abbrev pub EventFits : Event → List Job → Type 0
EventFits (worker m r) jobs = Unit
EventFits (admin r) jobs = Fits r jobs

abbrev pub AllFit : Config → List Event → Server → Type 0
AllFit c [] s = Unit
AllFit c (e ∷ before) s = EventFits e (run_all c before s).db.jobs × AllFit c before s

step-IsSound :
    (c : Config) (e : Event) (s : Server) → EventFits e s.db.jobs → IsSound s → IsSound (step c e s)
step-IsSound c (worker m r) s fits h = serve-IsSound c m r s h
step-IsSound c (admin r) s fits h =
    let next = serve_admin-JobsOk r s.db fits (h.unique, h.jobs) in
    record { unique = next.0; jobs = next.1 }

-- Through any history of requests of the worker API and of admin requests that retry, re-transcode,
-- re-upload, restore or delete a video, clean up orphaned jobs, or disable or enable a worker: if job
-- ids are unique, no job has more attempts than its maximum, and every uncompleted job has a claim,
-- an expiry and an owner together or none of them, then this still holds, provided that each job
-- created finds its key unused and no video with two jobs.
pub run_all-IsSound :
    (c : Config) (history : List Event) (s : Server)
    → AllFit c history s
    → IsSound s
    → IsSound (run_all c history s)
run_all-IsSound c [] s fits h = h
run_all-IsSound c (e ∷ before) s fits h =
    step-IsSound c e (run_all c before s) fits.0 (run_all-IsSound c before s fits.1 h)
