-- ===== src/Webhooks/Triggering.antt =====
-- api/webhook_service.py: `trigger_webhook_event`.
use text.Mathlib.Text.{◌==◌ as str_eq}
use vlog.Prelude.{
  ℕ, suc, String, Bool, false, not, none, some, List, [], ◌∷◌, ◌+◌, ◌==◌, ◌&&◌, if◌then◌else◌,
  length, keep_if, find_first, update_where, is_some,
}
use vlog.Webhooks.Schema.{
  pending, Events, malformed, event_list, Webhook, Delivery, Settings, Service,
}
use vlog.Webhooks.Circuits.{is_circuit_open}

abbrev pub names : String → List String → Bool
names t ts = is_some (find_first (λ x. str_eq x t) ts)

unfoldable pub is_subscribed : String → Events → Bool
is_subscribed t malformed = false
is_subscribed t (event_list ts) = names t ts

-- An active webhook whose circuit is closed and that asks for the event.
unfoldable pub receives : ℕ → String → Service → Webhook → Bool
unfolding is_subscribed
receives now t s w =
    w.active && (not (is_circuit_open now w.id s.circuits) && is_subscribed t w.events)

abbrev pub new_delivery : ℕ → ℕ → ℕ → String → String → Delivery
new_delivery k w now t body = record {
  id = k;
  webhook_id = w;
  event_type = t;
  event_data = body;
  status = pending;
  attempt_number = 1;
  created_at = now;
  next_retry_at = some now;
  delivered_at = none;
  response_status = none;
  error_message = none;
}

-- The batch insert: a row for each webhook, under the next ids.
unfoldable pub insert_deliveries : ℕ → String → String → List Webhook → Service → Service
insert_deliveries now t body [] s = s
insert_deliveries now t body (w ∷ rest) s = insert_deliveries now t body rest (record s {
  deliveries = new_delivery s.next_id w.id now t body ∷ s.deliveries;
  next_id = suc s.next_id;
})

unfoldable pub count_triggered : ℕ → Webhook → Webhook
count_triggered now w = record w {
  last_triggered_at = some now;
  total_deliveries = w.total_deliveries + 1;
}

-- `webhooks.c.id.in_(subscribed_webhook_ids)`.
abbrev pub is_among : List Webhook → Webhook → Bool
is_among ws w = is_some (find_first (λ x. x.id == w.id) ws)

-- `stored`: the transaction goes through; the types that the service knows are an argument.
unfoldable pub trigger_webhook_event :
    Settings → List String → Bool → ℕ → String → String → Service → Service × ℕ
unfolding receives insert_deliveries count_triggered
trigger_webhook_event c types stored now t body s =
    let subscribed = keep_if (receives now t s) s.webhooks in
    let inserted = insert_deliveries now t body subscribed s in
    if c.enabled && (names t types && stored)
    then (
      record inserted {
        webhooks = update_where (is_among subscribed) (count_triggered now) s.webhooks;
      },
      length subscribed,
    )
    else (s, 0)
