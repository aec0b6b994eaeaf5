-- ===== src/Webhooks/Keys.antt =====
-- api/webhook_service.py: the ids of the deliveries stay unique.
use vlog.Prelude.{
  ℕ, Bool, true, false, Option, none, some, List, [], ◌∷◌, ◌≡◌, ◌==◌, ◌&&◌, refl, if◌then◌else◌,
  ltb, Bool-cases, inl, inr,
}
use vlog.Prelude.Tables.{fetch, update_key, HasUniqueKeys, HasUniqueKeys-update_where}
use vlog.Webhooks.Schema.{Webhook, Delivery, Settings, Flight, Service}
use vlog.Webhooks.Circuits.{is_circuit_open}
use vlog.Webhooks.Sending.{
  set_delivery, set_failed, set_postponed, launch, begin_with, begin_fetched, begin_delivery,
  Response, is_success, set_delivered, set_retry, set_exhausted, finish_success, finish_failure,
  finish_delivery,
}
use vlog.Webhooks.Service.{
  is_idle, select_pending, process_pending_deliveries, begin_first, land, finish_flight,
  lose_flight,
}
use vlog.Webhooks.Balances.{delivery_key}

-- The keys stay unique.
abbrev HasKeys : Service → Type 0
HasKeys s = HasUniqueKeys delivery_key s.deliveries

pub HasKeys-if : (b : Bool) (x y : Service) → HasKeys x → HasKeys y → HasKeys (if b then x else y)
HasKeys-if true x y h i = h
HasKeys-if false x y h i = i

HasKeys-set :
    (k : ℕ) (f : Delivery → Delivery) (s : Service)
    → ((d : Delivery) → (f d).id ≡ d.id)
    → HasKeys s
    → HasUniqueKeys delivery_key (update_key delivery_key k f s.deliveries)
HasKeys-set k f s q h = HasUniqueKeys-update_where delivery_key (λ d. d.id == k) f q s.deliveries h

begin-HasKeys :
    (now : ℕ) (d : Delivery) (w : Option Webhook) (s : Service)
    → HasKeys s
    → HasKeys (begin_with now d w s)
unfolding begin_with
begin-HasKeys now d none s h = HasKeys-set d.id (set_failed "Webhook not found") s (λ x. refl) h
begin-HasKeys now d (some w) s h =
    HasKeys-if w.active
      (if is_circuit_open now w.id s.circuits
        then set_delivery d.id (set_postponed now) s
        else launch d w s)
      (set_delivery d.id (set_failed "Webhook is inactive") s)
      (HasKeys-if (is_circuit_open now w.id s.circuits) (set_delivery d.id (set_postponed now) s)
        (launch d w s) (HasKeys-set d.id (set_postponed now) s (λ x. refl) h) h)
      (HasKeys-set d.id (set_failed "Webhook is inactive") s (λ x. refl) h)

begin_fetched-HasKeys :
    (now : ℕ) (d : Option Delivery) (s : Service) → HasKeys s → HasKeys (begin_fetched now d s)
unfolding begin_fetched
begin_fetched-HasKeys now none s h = h
begin_fetched-HasKeys now (some d) s h = begin-HasKeys now d _ s h

pub begin_first-HasKeys :
    (now : ℕ) (ids : List ℕ) (s : Service) → HasKeys s → HasKeys (begin_first now ids s)
unfolding begin_first begin_delivery
begin_first-HasKeys now [] s h = h
begin_first-HasKeys now (k ∷ rest) s h =
    begin_fetched-HasKeys now (fetch delivery_key k s.deliveries) (record s { waiting = rest }) h

failure-HasKeys :
    (c : Settings) (now draw : ℕ) (r : Response) (x : Flight) (s : Service)
    → HasKeys s
    → HasKeys (finish_failure c now draw r x s)
unfolding finish_failure
failure-HasKeys c now draw r x s h =
    elim (Bool-cases (ltb x.delivery.attempt_number c.max_retries)) [
      | inl e ↦
          rw (e, finish_failure)
            (HasKeys-set x.delivery.id (set_retry c now draw r x.delivery.attempt_number) s
              (λ d. refl) h)
      | inr e ↦ rw (e, finish_failure) (HasKeys-set x.delivery.id (set_exhausted r) s (λ d. refl) h)
    ]

pub process-HasKeys :
    (c : Settings) (now : ℕ) (s : Service)
    → HasKeys s
    → HasKeys (process_pending_deliveries c now s)
unfolding process_pending_deliveries
process-HasKeys c now s h =
    HasKeys-if (c.enabled && is_idle s) (record s { waiting = select_pending c now s.deliveries }) s
      h h

pub finish-HasKeys :
    (c : Settings) (now draw : ℕ) (r : Response) (x : Option Flight) (s : Service)
    → HasKeys s
    → HasKeys (finish_flight c now draw r x s)
unfolding finish_flight finish_delivery land
finish-HasKeys c now draw r none s h = h
finish-HasKeys c now draw r (some x) s h =
    let s' = land x.delivery.id s in
    HasKeys-if (is_success r) (finish_success now r x s') (finish_failure c now draw r x s')
      (HasKeys-set x.delivery.id (set_delivered now r) s (λ d. refl) h)
      (failure-HasKeys c now draw r x s' h)

pub lose-HasKeys :
    (now : ℕ) (r : Response) (x : Option Flight) (s : Service)
    → HasKeys s
    → HasKeys (lose_flight now r x s)
unfolding lose_flight land
lose-HasKeys now r none s h = h
lose-HasKeys now r (some x) s h = h
