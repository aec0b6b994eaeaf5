-- ===== src/Webhooks/Sending.antt =====
-- api/webhook_service.py: `send_webhook_delivery`, up to its request and from the response on.
use vlog.Prelude.{
  ℕ, String, Bool, false, Option, none, some, ◌∷◌, ◌+◌, ◌-◌, ◌*◌, ◌^◌, ◌&&◌, if◌then◌else◌, ltb,
  leb,
}
use vlog.Prelude.Tables.{fetch, update_key}
use vlog.Webhooks.Schema.{
  delivered, failed_permanent, ErrorMessage, http, message, Webhook, Delivery, Settings, Flight,
  Service,
}
use vlog.Webhooks.Circuits.{
  circuit_breaker_reset_time, is_circuit_open, record_circuit_failure, record_circuit_success,
}

abbrev pub delivery_key : Delivery → ℕ
delivery_key d = d.id

abbrev pub webhook_key : Webhook → ℕ
webhook_key w = w.id

unfoldable pub set_delivery : ℕ → (Delivery → Delivery) → Service → Service
set_delivery k f s = record s { deliveries = update_key delivery_key k f s.deliveries }

unfoldable pub set_failed : String → Delivery → Delivery
set_failed text d = record d { status = failed_permanent; error_message = some (message text) }

unfoldable pub set_postponed : ℕ → Delivery → Delivery
set_postponed now d = record d {
  error_message = some (message "Circuit breaker open");
  next_retry_at = some (now + circuit_breaker_reset_time);
}

-- The request is sent.
unfoldable pub launch : Delivery → Webhook → Service → Service
launch d w s = record s {
  in_flight = record { delivery = d; webhook = w } ∷ s.in_flight;
  sent = d.id ∷ s.sent;
}

-- The checks of the webhook before the request is sent.
unfoldable pub begin_with : ℕ → Delivery → Option Webhook → Service → Service
unfolding set_delivery set_failed set_postponed launch
begin_with now d none s = set_delivery d.id (set_failed "Webhook not found") s
begin_with now d (some w) s =
    if w.active
    then (if is_circuit_open now w.id s.circuits
        then set_delivery d.id (set_postponed now) s
        else launch d w s)
    else set_delivery d.id (set_failed "Webhook is inactive") s

unfoldable pub begin_fetched : ℕ → Option Delivery → Service → Service
unfolding begin_with
begin_fetched now none s = s
begin_fetched now (some d) s = begin_with now d (fetch webhook_key d.webhook_id s.webhooks) s

unfoldable pub begin_delivery : ℕ → ℕ → Service → Service
unfolding begin_fetched
begin_delivery now k s = begin_fetched now (fetch delivery_key k s.deliveries) s

-- How a request ends: with a response's status code, or with an exception and its message.
pub data Response : Type 0 where
  response : ℕ → Response
  exception : String → Response

unfoldable pub is_success : Response → Bool
is_success (response code) = leb 200 code && ltb code 300
is_success (exception text) = false

abbrev pub status_of : Response → Option ℕ
status_of (response code) = some code
status_of (exception text) = none

abbrev pub error_of : Response → ErrorMessage
error_of (response code) = http code
error_of (exception text) = message text

unfoldable pub set_delivered : ℕ → Response → Delivery → Delivery
set_delivered now r d = record d {
  status = delivered;
  response_status = status_of r;
  delivered_at = some now;
}

-- The delay before the next attempt: exponential, with up to a quarter of it as jitter, where `draw`
-- is the random draw of [0, 1) in thousandths.
unfoldable pub retry_delay : Settings → ℕ → ℕ → ℕ
retry_delay c attempt draw =
    c.retry_base_delay * c.retry_backoff_multiplier ^ (attempt - 1) * (4000 + draw)

-- `.values(attempt_number=delivery["attempt_number"] + 1, ...)`: from the row that was fetched.
unfoldable pub set_retry : Settings → ℕ → ℕ → Response → ℕ → Delivery → Delivery
set_retry c now draw r attempt d = record d {
  attempt_number = attempt + 1;
  response_status = status_of r;
  error_message = some (error_of r);
  next_retry_at = some (now + retry_delay c attempt draw);
}

unfoldable pub set_exhausted : Response → Delivery → Delivery
set_exhausted r d = record d {
  status = failed_permanent;
  response_status = status_of r;
  error_message = some (error_of r);
}

unfoldable pub count_success : Webhook → Webhook
count_success w = record w { successful_deliveries = w.successful_deliveries + 1 }

unfoldable pub count_failure : Webhook → Webhook
count_failure w = record w { failed_deliveries = w.failed_deliveries + 1 }

unfoldable pub finish_success : ℕ → Response → Flight → Service → Service
unfolding set_delivered count_success record_circuit_success
finish_success now r f s = record s {
  deliveries = update_key delivery_key f.delivery.id (set_delivered now r) s.deliveries;
  webhooks = update_key webhook_key f.webhook.id count_success s.webhooks;
  circuits = record_circuit_success f.webhook.id s.circuits;
}

unfoldable pub finish_failure : Settings → ℕ → ℕ → Response → Flight → Service → Service
unfolding set_retry set_exhausted count_failure record_circuit_failure
finish_failure c now draw r f s =
    if ltb f.delivery.attempt_number c.max_retries
    then record s {
      deliveries =
          update_key delivery_key f.delivery.id (set_retry c now draw r f.delivery.attempt_number)
            s.deliveries;
      circuits = record_circuit_failure now f.webhook.id s.circuits;
    }
    else record s {
      deliveries = update_key delivery_key f.delivery.id (set_exhausted r) s.deliveries;
      webhooks = update_key webhook_key f.webhook.id count_failure s.webhooks;
      circuits = record_circuit_failure now f.webhook.id s.circuits;
    }

-- From the response on.
unfoldable pub finish_delivery : Settings → ℕ → ℕ → Response → Flight → Service → Service
unfolding finish_success finish_failure is_success
finish_delivery c now draw r f s =
    if is_success r then finish_success now r f s else finish_failure c now draw r f s
