-- ===== src/Lib.antt =====
-- vlog: a verification development for the self-hosted video platform in this repository.
--
-- The program takes uploaded videos, has distributed workers transcode them, and serves the results.
-- The parts that are modelled here, and how they interact:
--
-- - Job states (api/job_state.py, modules JobState.*). TranscodingJobStateMachine derives the
--   state of a job from its row: JobRow and JobRow.from_mapping are JobState.Rows, the predicates,
--   get_state and the can_ methods are JobState.Machine, the sql_ methods are JobState.Sql. There
--   an SQL condition is a tree (Condition) with a rendering to text and an evaluation in SQL's
--   three-valued logic, on the row as the table has it (Mapping), NULLs included. A datetime is a
--   native number of seconds with an optional offset; `clock` is what the omitted current_time
--   reads.
-- - The worker API (api/worker_api.py, modules WorkerApi.*). The tables of api/database.py that it
--   reads and writes are WorkerApi.Schema, as lists of records with the columns the endpoints use.
--   The endpoints claim_job, update_progress, complete_job and fail_job, and
--   _detect_and_release_stale_jobs, are WorkerApi.Claim (with Refusal, the reasons not to look for
--   a job), Progress, Complete, Fail and Stale, each a function from the database (and the
--   completion tokens in Redis, which live for 900 seconds) to the new one and a reply; an
--   HTTPException is `http_error` with its status. WorkerApi.System serves any sequence of
--   requests at given times. WorkerApi.Protocol is the abstract specification, the moves that one
--   job row may make; WorkerApi.Refinement.* shows each endpoint to follow it and WorkerApi.Leases
--   draws the consequences for a row. What the code finds around itself is an argument: the rows
--   that others have locked, whether execute_with_retry gives up (`locked`), whether files can be
--   removed, what the check for offline workers reads from Redis, and what database.execute
--   returns.
-- - The retries of database calls (api/db_retry.py, modules DbRetry.*). Errors classifies
--   exceptions by the texts and SQLSTATEs of their chains of causes, Retry is execute_with_retry
--   with the number of calls that it makes; what each call does is an argument.
-- - The segment watcher (worker/segment_watcher.py, modules SegmentWatcher.*). Files is the scan
--   of the directory, Polling the loops of _check_stable_segments and flush_remaining, Watching
--   the coroutine watch, cut at its awaits, with stop, notify_ffmpeg_crashed and flush_remaining
--   between the pieces. The listing and the glob matches of a directory are arguments.
-- - The analytics cache (api/analytics_cache.py, modules AnalyticsCache.*). The in-memory
--   AnalyticsCache; the random draw and the times that it reads are arguments. Its values are of
--   any type.
--
-- - The Redis client (api/redis_client.py, modules RedisClient.*). Breaker is the class
--   RedisClient as a state machine: is_available, execute_with_fallback, health_check and the
--   records of failures and successes. How a call of Redis ends, the clock and the random draw are
--   arguments.
--
-- - Webhooks (api/webhook_service.py, modules Webhooks.*). Schema has the tables webhooks and
--   webhook_deliveries and what the service keeps in memory, Circuits the circuit breaker of a
--   webhook, Sending send_webhook_delivery cut at its request, Headers the headers of a request,
--   Triggering trigger_webhook_event, Service process_pending_deliveries, the recovery, the
--   clean-up and the events that interleave them. Two lists record each request that is sent and
--   each whose result is not stored. There is one worker, whose rounds do not overlap; a time
--   counts in units of 250 microseconds, with a whole multiplier of the delays and the default
--   jitter of a quarter, so that every delay is a whole number. Webhooks.Balances is the invariant
--   of one delivery, Tracking, Rounds, Landings, Turns and Births show the events to keep it.
--
-- - The transcoder (worker/transcoder.py, modules Transcoder.*). Batches is
--   group_qualities_by_resolution, which plans the parallel encodes of a video. The local worker
--   shares the tables with the worker API: Jobs has get_existing_job, by which it claims a job
--   next to the remote workers, and the updates of a job; Process has process_video_resumable,
--   which calls them, and Encodes its encodes, with what the subprocesses and files answer as
--   arguments. Recovery has the passes recover_interrupted_jobs and check_stale_jobs, Qualities
--   the records of quality_progress, Tracker the class ProgressTracker, each method cut at its
--   await and also as a call that no other overlaps. Leasing joins the local claim with the
--   requests to WorkerApi.System; Outcomes, Settling and Ending follow a run to its end,
--   Verification its re-verification; Recovering and Updates treat a pass as an update of each job
--   by itself, Overdue says which in terms of the columns, Passes repeats it. One pass takes place
--   at one time, and the times of an update are those of its arguments.
--
-- - The partition manager (api/partition_manager.py, modules PartitionManager.*). Partitions has
--   the operations over the list of partitions of playback_sessions; Coverage and Retention say
--   which months have one. A partition is named by the six digits of its name, written as a
--   number; relativedelta is an argument, with what is documented of it as a hypothesis.
--
-- - Hardware acceleration (worker/hwaccel.py, modules HwAccel.*). Selection is select_encoder with
--   what it builds and get_recommended_parallel_sessions, whose result the transcoder hands to
--   group_qualities_by_resolution; what the probes found of the GPU is an argument.
--
-- - The admin API (api/admin.py, modules AdminApi.*). Playlists has the endpoints that change a
--   playlist and its items; Positions and Reordering treat rows with a position in general, Ids
--   the ids of a reorder; PlaylistMoves, PlaylistRows and PlaylistOrder follow the order through
--   any requests, PlaylistSlugs the slugs. Chapters and ChapterOrder do the same for the chapters
--   of a video. Jobs and Workers have the endpoints on the tables of the worker API;
--   AdminApi.System serves them and the worker API in any order, on one database (Requeue,
--   Retries, Evictions and JobRows have single endpoints). Redelivery has the retry of a delivery
--   of Webhooks, with its call of log_audit (api/audit.py) as a list of keywords. Whether the
--   library `databases` runs a text statement with a dict of values, what the database does with a
--   locking read of an aggregate, with a unique constraint on the way of an UPDATE and with
--   several matching rows, the next key of a table, the slug of a title and what the file system
--   answers are arguments.
--
-- All loops of the modelled code but one run over finite lists or count down, and are structural
-- recursion. The outer loop of group_qualities_by_resolution takes fuel; the number of qualities is
-- enough, since each round takes at least one. Prelude.* holds the helpers that the parts share:
-- lists, tables with a primary key (Prelude.Tables) and dictionaries with text keys (Prelude.Dicts).
-- Tests.* evaluates the models at concrete inputs and applies the theorems there.
--
-- Not modelled: the endpoints of the worker API that register workers or move files, the main loop
-- of the transcoder, the job queue in Redis, alerts, the detection of chapters, test deliveries of
-- webhooks, the rest of the admin API, the public API, settings, schemas, authentication, metrics
-- and pub/sub, the command line, the migrations, and the subprocesses of ffmpeg and whisper: they
-- are I/O, declarations or plain row updates. Inside the modelled endpoints, log lines, metrics,
-- published messages and the deletion of files leave no trace in the state. Progress and sizes are
-- natural numbers. Numbers in Python are unbounded, so there is no overflow to model.

pub mod Prelude
pub mod JobState
pub mod WorkerApi
pub mod AdminApi
pub mod AnalyticsCache
pub mod DbRetry
pub mod HwAccel
pub mod PartitionManager
pub mod RedisClient
pub mod SegmentWatcher
pub mod Transcoder
pub mod Webhooks
pub mod Tests
