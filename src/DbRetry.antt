-- ===== src/DbRetry.antt =====
-- api/db_retry.py: which database errors are retried, and how often.
pub mod Errors
pub mod Retry
pub mod Attempts
