-- ===== src/AnalyticsCache.antt =====
-- api/analytics_cache.py: the in-memory cache of analytics responses.
pub mod Cache
pub mod Lookup
pub mod Capacity
