-- ===== src/Transcoder.antt =====
-- worker/transcoder.py: the planning of parallel encodes, the jobs of the local worker and their
-- recovery, the records of progress, and the run of a job from probe to end.
pub mod Batches
pub mod Grouping
pub mod Jobs
pub mod Recovery
pub mod Recovering
pub mod Updates
pub mod Overdue
pub mod Passes
pub mod Leasing
pub mod Qualities
pub mod Tracker
pub mod Resuming
pub mod Limits
pub mod Encodes
pub mod Process
pub mod Outcomes
pub mod Settling
pub mod Ending
pub mod Verification
