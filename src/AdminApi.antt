-- ===== src/AdminApi.antt =====
-- The admin API (api/admin.py): ordered lists of videos and of chapters, and the operations on jobs
-- and workers that meet the leases of the worker API.
pub mod Positions
pub mod Ids
pub mod Reordering
pub mod Playlists
pub mod PlaylistMoves
pub mod PlaylistRows
pub mod PlaylistOrder
pub mod Jobs
pub mod Workers
pub mod Requeue
pub mod Retries
pub mod Evictions
pub mod JobRows
pub mod System
pub mod PlaylistSlugs
pub mod Chapters
pub mod ChapterOrder
pub mod Redelivery
