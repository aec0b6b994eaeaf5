-- ===== src/Webhooks.antt =====
-- api/webhook_service.py: webhooks, their deliveries and the circuit breaker of each.
pub mod Schema
pub mod Circuits
pub mod Sending
pub mod Triggering
pub mod Service
pub mod Balances
pub mod Tracking
pub mod Rounds
pub mod Landings
pub mod Turns
pub mod Births
pub mod Keys
pub mod Attempts
pub mod Breaking
pub mod Headers
