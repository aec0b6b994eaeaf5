-- ===== src/Tests.antt =====
-- Tests of the models at concrete inputs, and the theorems applied there.
mod JobState
mod WorkerApi
mod SegmentWatcher
mod AdminApi
mod AdminJobs
mod Chapters
mod Redelivery
mod AnalyticsCache
mod RedisClient
mod Transcoder
mod DbRetry
mod Webhooks
mod Tables
mod LocalJobs
mod LocalRuns
mod PartitionManager
mod HwAccel
