-- ===== src/SegmentWatcher.antt =====
-- worker/segment_watcher.py: the watcher that finds the segments ffmpeg has finished.
pub mod Files
pub mod Polling
pub mod Watching
pub mod Names
pub mod Picking
pub mod Uploads
pub mod Ending
pub mod Stability
