-- ===== src/Tests/Webhooks.antt =====
-- api/webhook_service.py: one webhook that answers at the second attempt.
use vlog.Prelude.{
  ℕ, String, true, false, none, some, List, [], ◌∷◌, ◌≡◌, ◌≤◌, ◌+◌, ◌*◌, ◌&&◌, max, refl, arith,
  ltb, leb, length,
}
use vlog.Prelude.Dicts.{get}
use vlog.Webhooks.Schema.{second, delivered, event_list, http, Webhook, Delivery, Settings, Service}
use vlog.Webhooks.Circuits.{
  circuit_breaker_reset_time, is_circuit_open, record_circuit_success, add_failure,
}
use vlog.Webhooks.Sending.{response, exception, retry_delay}
use vlog.Webhooks.Service.{Event, trigger, process, begin, finish, run, flying}
use vlog.Webhooks.Balances.{tally, Balance}
use vlog.Webhooks.Births.{IsSound}
use vlog.Webhooks.Attempts.{run-attempts}
use vlog.Webhooks.Breaking.{fail_at, is_circuit_open-failures}
use vlog.Webhooks.Headers.{is_protected, delivery_headers, delivery_headers-get}

abbrev settings : Settings
settings = record {
  enabled = true;
  max_retries = 2;
  retry_base_delay = 30;
  retry_backoff_multiplier = 2;
  max_concurrent_deliveries = 10;
  delivery_batch_size = 50;
  delivery_retention = 30 * 24 * 3600 * second;
}

abbrev webhook : Webhook
webhook = record {
  id = 3;
  active = true;
  events = event_list ("video.ready" ∷ []);
  last_triggered_at = none;
  total_deliveries = 0;
  successful_deliveries = 0;
  failed_deliveries = 0;
}

abbrev empty : Service
empty = record {
  webhooks = webhook ∷ [];
  deliveries = [];
  next_id = 1;
  circuits = [];
  waiting = [];
  in_flight = [];
  sent = [];
  lost = [];
}

abbrev triggered : Event
triggered = trigger ("video.ready" ∷ []) true "video.ready" "{}"

-- The first attempt fails; the second, 30 seconds later, succeeds.
abbrev events : List (ℕ × Event)
events =
    (0, triggered)
    ∷ (1, process)
    ∷ (2, begin)
    ∷ (3, finish 1 0 (response 503))
    ∷ (4, process)
    ∷ (5, begin)
    ∷ (200000, process)
    ∷ (200001, begin)
    ∷ (200002, finish 1 500 (response 204))
    ∷ []

program : Unit {0}
unfolding run flying is_circuit_open record_circuit_success retry_delay add_failure
program = tt

requests : (run settings events empty).sent ≡ 1 ∷ 1 ∷ []
unfolding program
requests = refl

-- A webhook that never answers is given up after the second attempt.
given_up :
    (run settings
      ((0, triggered)
        ∷ (1, process)
        ∷ (2, begin)
        ∷ (3, finish 1 0 (exception "timeout"))
        ∷ (200000, process)
        ∷ (200001, begin)
        ∷ (200002, finish 1 500 (exception "timeout"))
        ∷ (900000, process)
        ∷ (900001, begin)
        ∷ [])
      empty).sent
    ≡ 1 ∷ 1 ∷ []
unfolding program
given_up = refl

empty-IsSound : IsSound settings empty
unfolding flying
empty-IsSound = record {
  unique = tt;
  tracks = λ k. record { busy = omega arith; row_ok = (refl, λ e. refl); flight_ok = refl };
}

abbrev last : Delivery
last = record {
  id = 1;
  webhook_id = 3;
  event_type = "video.ready";
  event_data = "{}";
  status = delivered;
  attempt_number = 2;
  created_at = 0;
  next_retry_at = some 120003;
  delivered_at = some 200002;
  response_status = some 204;
  error_message = some (http 503);
}

run-attempts_example :
    (2 ≤ max 1 2)
    × (tally 1 (run settings events empty).sent
        ≤ max 1 2 + tally 1 (run settings events empty).lost)
    × Balance delivered 2
        (tally 1 (run settings events empty).sent)
        (tally 1 (run settings events empty).lost)
        (tally 1 (run settings events empty).waiting)
        (tally 1 (flying (run settings events empty).in_flight))
unfolding program
run-attempts_example = run-attempts settings events empty last empty-IsSound refl

is_circuit_open-failures_example :
    (is_circuit_open 50 3 (fail_at 3 (40 ∷ 30 ∷ 20 ∷ 10 ∷ 5 ∷ []) []) ≡ (
      leb 5 (length {A = ℕ} (40 ∷ 30 ∷ 20 ∷ 10 ∷ 5 ∷ []))
      && ltb 50 (40 + circuit_breaker_reset_time)))
    × (is_circuit_open 50 3 (record_circuit_success 3 (fail_at 3 (40 ∷ 30 ∷ 20 ∷ 10 ∷ 5 ∷ []) []))
        ≡ false)
is_circuit_open-failures_example = is_circuit_open-failures 3 40 50 (30 ∷ 20 ∷ 10 ∷ 5 ∷ []) [] refl

abbrev lower : String → String
lower n = "x-vlog-signature"

delivery_headers-get_example :
    get "X-VLog-Signature" (
      delivery_headers lower "video.ready" "1" "now"
        (some "sha256=00")
        (some (("x-vlog-signature", "forged") ∷ [])))
    ≡ get "X-VLog-Signature"
        (delivery_headers lower "video.ready" "1" "now" (some "sha256=00") none)
unfolding is_protected
delivery_headers-get_example =
    delivery_headers-get lower "X-VLog-Signature" "video.ready" "1" "now" (some "sha256=00")
      (some (("x-vlog-signature", "forged") ∷ [])) refl
