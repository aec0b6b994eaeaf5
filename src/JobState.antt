-- ===== src/JobState.antt =====
-- api/job_state.py: the state machine of a transcoding job.
pub mod Rows
pub mod Machine
pub mod Sql
pub mod States
pub mod Queries
