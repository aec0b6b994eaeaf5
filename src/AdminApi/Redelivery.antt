-- ===== src/AdminApi/Redelivery.antt =====
-- `retry_webhook_delivery` of api/admin.py over the deliveries of the webhook service, with the
-- call of log_audit (api/audit.py) that follows the UPDATE.
use text.Mathlib.Text.{◌==◌ as str_eq}
use native.Mathlib.Decide.{ℕ_discrete}
use vlog.Prelude.{
  ℕ, ◌+◌, String, Bool, true, false, Option, none, some, List, [], ◌∷◌, ◌≡◌, ◌≢◌, ◌⊎◌, inl, inr,
  refl, ◌==◌, ◌&&◌, if◌then◌else◌, find_first, is_some, Option-cases, arith,
}
use vlog.Prelude.Tables.{fetch, update_key, fetch-update_key_ne}
use vlog.WorkerApi.Schema.{Reply, ok, http_error}
use vlog.Webhooks.Schema.{Delivery, DeliveryStatus, pending, delivered, failed_permanent, Service}
use vlog.Webhooks.Service.{is_due}

-- The parameters of log_audit, a plain function: a call returns None, which cannot be awaited.
abbrev pub log_audit_parameters : List String
log_audit_parameters =
    "action" ∷ "client_ip" ∷ "user_agent" ∷ "resource_type" ∷ "resource_id" ∷ "resource_name"
    ∷ "details" ∷ "success" ∷ "error" ∷ "request_id" ∷ []

-- Python raises a TypeError at a keyword that is no parameter of the function.
unfoldable pub accepts : List String → List String → Bool
accepts parameters [] = true
accepts parameters (k ∷ rest) =
    is_some (find_first (str_eq k) parameters) && accepts parameters rest

-- The keywords of the endpoint's call.
abbrev pub audit_keywords : List String
audit_keywords = "action" ∷ "entity_type" ∷ "entity_id" ∷ "details" ∷ []

-- `await log_audit(...)` completes if the call is accepted and `f` is a coroutine function.
unfoldable pub awaits : (is_coroutine : Bool) → List String → List String → Bool
unfolding accepts
awaits is_coroutine parameters keywords = accepts parameters keywords && is_coroutine

unfoldable pub delivery_of : ℕ → ℕ → List Delivery → Option Delivery
delivery_of w k rows = find_first (λ d. (d.id == k) && (d.webhook_id == w)) rows

unfoldable pub is_delivered : DeliveryStatus → Bool
is_delivered delivered = true
is_delivered _ = false

unfoldable pub set_retried : ℕ → Delivery → Delivery
set_retried now d = record d {
  status = pending;
  attempt_number = 1;
  next_retry_at = some now;
  error_message = none;
}

-- The handler of every exception of the UPDATE and of the call answers 500.
unfoldable pub retry_webhook_delivery : ℕ → ℕ → ℕ → Service → Reply {0} Unit × Service
unfolding awaits
retry_webhook_delivery now w k s = elim (delivery_of w k s.deliveries) [
  | none ↦ (http_error 404, s)
  | some row ↦ if is_delivered row.status then (http_error 400, s) else (
    if awaits false log_audit_parameters audit_keywords then ok tt else http_error 500,
    record s { deliveries = update_key (λ d. d.id) k (set_retried now) s.deliveries },
  )
]

delivered_cases :
    (x : DeliveryStatus)
    → ((x ≡ delivered) × (is_delivered x ≡ true)) ⊎ ((x ≢ delivered) × (is_delivered x ≡ false))
unfolding is_delivered
delivered_cases delivered = inl (refl, refl)
delivered_cases pending = inr (λ q. cc, refl)
delivered_cases failed_permanent = inr (λ q. cc, refl)

-- The row that the UPDATE leaves is found as the one before it was.
delivery_of-update_key :
    (now w k : ℕ) (rows : List Delivery) (row : Delivery)
    → delivery_of w k rows ≡ some row
    → delivery_of w k (update_key (λ (d : Delivery). d.id) k (set_retried now) rows)
      ≡ some (set_retried now row)
unfolding delivery_of set_retried
delivery_of-update_key now w k [] row h = cc
delivery_of-update_key now w k (x ∷ rest) row h = elim (ℕ_discrete x.id k) [
  | yes e ↦ elim (ℕ_discrete x.webhook_id w) [
    | yes q ↦
        let same : some x ≡ some row = ground (arith, e, q, h) in
        let now_same : set_retried now x ≡ set_retried now row = cc same in
        ground (arith, e, q, now_same)
    | no nq ↦
        let later : delivery_of w k rest ≡ some row = ground (arith, e, nq, h) in
        ground (arith, e, nq, delivery_of-update_key now w k rest row later)
  ]
  | no ne ↦
      let later : delivery_of w k rest ≡ some row = ground (arith, ne, h) in
      ground (arith, ne, delivery_of-update_key now w k rest row later)
]

-- What a retry was answered, and what it left of the service.
abbrev pub Answered : ℕ → ℕ → ℕ → Service → Reply {0} Unit × Service → Type 0
Answered now w k s r =
    ((delivery_of w k s.deliveries ≡ none) × (r ≡ (http_error 404, s)))
    ⊎ ((row : Delivery) × (delivery_of w k s.deliveries ≡ some row)
        × (((row.status ≡ delivered) × (r ≡ (http_error 400, s)))
            ⊎ ((row.status ≢ delivered)
                × (r.0 ≡ http_error 500)
                × (d : Delivery) × (delivery_of w k r.1.deliveries ≡ some d)
                × ((later : ℕ) → is_due (now + later) d ≡ true)
                × (d.attempt_number ≡ 1)
                × (d.error_message ≡ none))))

-- A retry of a delivery is never answered with success. A delivery that the webhook does not have
-- gives 404 and one that is delivered 400, and both change nothing; any other gives a server error,
-- and yet the delivery is then at its first attempt, without its error message, and due from then
-- on for `process_pending_deliveries`. Every delivery with another id stays as it is.
pub retry_webhook_delivery-outcome :
    (now w k i : ℕ) (s : Service)
    → i ≢ k
    → Answered now w k s (retry_webhook_delivery now w k s)
      × (fetch (λ (d : Delivery). d.id) i (retry_webhook_delivery now w k s).1.deliveries
          ≡ fetch (λ (d : Delivery). d.id) i s.deliveries)
unfolding retry_webhook_delivery set_retried is_due
retry_webhook_delivery-outcome now w k i s ne = elim (Option-cases (delivery_of w k s.deliveries)) [
  | inl e ↦ rw (e, retry_webhook_delivery) (inl (refl, refl), refl)
  | inr (row, e) ↦ elim (delivered_cases row.status) [
    | inl (there, q) ↦ rw (e, q, retry_webhook_delivery) (inr (row, refl, inl (there, refl)), refl)
    | inr (open_, q) ↦
        rw (e, q, retry_webhook_delivery)
          (
            inr (
              row,
              refl,
              inr (
                open_,
                refl,
                set_retried now row,
                delivery_of-update_key now w k s.deliveries row e,
                λ later. ground arith,
                refl,
                refl,
              ),
            ),
            fetch-update_key_ne (λ (d : Delivery). d.id) i k (set_retried now) s.deliveries
                (λ d. refl) ne,
          )
  ]
]
