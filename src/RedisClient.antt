-- ===== src/RedisClient.antt =====
-- api/redis_client.py: the Redis client with its circuit breaker.
pub mod Breaker
pub mod Availability
