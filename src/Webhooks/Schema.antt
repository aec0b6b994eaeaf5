-- ===== src/Webhooks/Schema.antt =====
-- api/database.py: the tables `webhooks` and `webhook_deliveries`, and the state that
-- api/webhook_service.py keeps in memory.
use vlog.Prelude.{ℕ, String, Bool, Option, List}

-- Times are in units of 250 microseconds, in which every delay with its jitter is a whole number.
abbrev pub second : ℕ
second = 4000

pub data DeliveryStatus : Type 0 where
  pending delivered failed_permanent : DeliveryStatus

-- The JSON in `webhooks.events`: a list of event types, or text that does not parse.
pub data Events : Type 0 where
  malformed : Events
  event_list : List String → Events

-- `error_message`: `HTTP {status}`, or another text.
pub data ErrorMessage : Type 0 where
  http : ℕ → ErrorMessage
  message : String → ErrorMessage

pub record Webhook : Type 0 where
  pub id : ℕ
  pub active : Bool
  pub events : Events
  pub last_triggered_at : Option ℕ
  pub total_deliveries : ℕ
  pub successful_deliveries : ℕ
  pub failed_deliveries : ℕ

pub record Delivery : Type 0 where
  pub id : ℕ
  pub webhook_id : ℕ
  pub event_type : String
  pub event_data : String
  pub status : DeliveryStatus
  pub attempt_number : ℕ
  pub created_at : ℕ
  pub next_retry_at : Option ℕ
  pub delivered_at : Option ℕ
  pub response_status : Option ℕ
  pub error_message : Option ErrorMessage

-- An entry of `_circuit_breaker_state`.
pub record Circuit : Type 0 where
  pub webhook_id : ℕ
  pub failures : ℕ
  pub circuit_open_until : Option ℕ

-- The settings that `_get_webhook_settings` reads; the backoff's multiplier is a whole number.
pub record Settings : Type 0 where
  pub enabled : Bool
  pub max_retries : ℕ
  pub retry_base_delay : ℕ
  pub retry_backoff_multiplier : ℕ
  pub max_concurrent_deliveries : ℕ
  pub delivery_batch_size : ℕ
  pub delivery_retention : ℕ

-- A delivery whose request is on its way: the rows as they were fetched.
pub record Flight : Type 0 where
  pub delivery : Delivery
  pub webhook : Webhook

-- The tables with the next free id of a delivery, the circuits, and what `process_pending_deliveries`
-- has under way: the ids that wait for the semaphore and the requests that were sent. `sent` and
-- `lost` record the id of every request that was sent, and of those whose result was not stored.
pub record Service : Type 0 where
  pub webhooks : List Webhook
  pub deliveries : List Delivery
  pub next_id : ℕ
  pub circuits : List Circuit
  pub waiting : List ℕ
  pub in_flight : List Flight
  pub sent : List ℕ
  pub lost : List ℕ
