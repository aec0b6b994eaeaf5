-- ===== src/Tests/Redelivery.antt =====
-- A retry of a delivery that has failed for good.
use vlog.Prelude.{none, some, [], arith, ◌∷◌, ◌≡◌, refl}
use vlog.Prelude.Tables.{fetch}
use vlog.WorkerApi.Schema.{http_error}
use vlog.Webhooks.Schema.{Delivery, failed_permanent, Service}
use vlog.AdminApi.Redelivery.{
  set_retried, delivery_of, is_delivered, retry_webhook_delivery, Answered,
  retry_webhook_delivery-outcome,
}

abbrev given_up : Delivery
given_up = record {
  id = 5;
  webhook_id = 3;
  event_type = "video.ready";
  event_data = "{}";
  status = failed_permanent;
  attempt_number = 6;
  created_at = 0;
  next_retry_at = none;
  delivered_at = none;
  response_status = some 503;
  error_message = none;
}

abbrev service : Service
service = record {
  webhooks = [];
  deliveries = given_up ∷ [];
  next_id = 6;
  circuits = [];
  waiting = [];
  in_flight = [];
  sent = [];
  lost = [];
}

-- The delivery is due again, though the answer is a server error.
retry_webhook_delivery-outcome_example :
    Answered 70 3 5 service (retry_webhook_delivery 70 3 5 service)
    × (fetch (λ (d : Delivery). d.id) 4 (retry_webhook_delivery 70 3 5 service).1.deliveries ≡ none)
retry_webhook_delivery-outcome_example =
    retry_webhook_delivery-outcome 70 3 5 4 service (omega arith)

retried_anyway :
    retry_webhook_delivery 70 3 5 service
    ≡ (http_error 500, record service { deliveries = set_retried 70 given_up ∷ [] })
unfolding retry_webhook_delivery delivery_of is_delivered
retried_anyway = refl
