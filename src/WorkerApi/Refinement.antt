-- ===== src/WorkerApi/Refinement.antt =====
-- The endpoints of api/worker_api.py follow the lease protocol.
pub mod Own
pub mod Reports
pub mod Claiming
pub mod Sweeping
