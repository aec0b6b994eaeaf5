-- ===== src/PartitionManager.antt =====
-- api/partition_manager.py: the monthly partitions of playback_sessions.
pub mod Partitions
pub mod Months
pub mod Coverage
pub mod Retention
