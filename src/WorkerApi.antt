-- ===== src/WorkerApi.antt =====
-- api/worker_api.py: the endpoints by which workers claim, report, complete and fail jobs, and the
-- check for workers that went offline.
pub mod Schema
pub mod Refusal
pub mod Claim
pub mod Guards
pub mod Progress
pub mod Complete
pub mod Fail
pub mod Stale
pub mod Selection
pub mod Protocol
pub mod Leases
pub mod Refinement
pub mod System
pub mod Guarantees
pub mod Claims
pub mod Completion
pub mod Failure
