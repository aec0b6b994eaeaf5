-- ===== src/Webhooks/Service.antt =====
-- api/webhook_service.py: `process_pending_deliveries`, the recovery and the clean-up, and how they
-- take turns. One worker runs, and awaits all deliveries of a round before the
-- next; the requests of a round overlap as they like.
use vlog.Prelude.{
  ℕ, String, Bool, true, false, not, Option, none, some, List, [], ◌∷◌, ◌++◌, ◌+◌, ◌*◌, ◌==◌, ◌&&◌,
  if◌then◌else◌, ltb, leb, length, take, keep_if, update_where,
}
use vlog.Prelude.Tables.{fetch}
use vlog.Webhooks.Schema.{
  second, DeliveryStatus, pending, delivered, failed_permanent, message, Delivery, Settings, Flight,
  Service,
}
use vlog.Webhooks.Circuits.{record_circuit_failure}
use vlog.Webhooks.Sending.{begin_delivery, Response, is_success, finish_delivery}
use vlog.Webhooks.Triggering.{trigger_webhook_event}

abbrev pub is_pending : DeliveryStatus → Bool
is_pending pending = true
is_pending delivered = false
is_pending failed_permanent = false

-- `next_retry_at <= now`.
abbrev pub due_by : ℕ → Option ℕ → Bool
due_by now none = false
due_by now (some t) = leb t now

unfoldable pub is_due : ℕ → Delivery → Bool
is_due now d = is_pending d.status && due_by now d.next_retry_at

abbrev pub retry_time : Option ℕ → ℕ
retry_time none = 0
retry_time (some t) = t

-- `ORDER BY next_retry_at ASC`.
unfoldable pub insert_by_retry : Delivery → List Delivery → List Delivery
insert_by_retry d [] = d ∷ []
insert_by_retry d (x ∷ rest) =
    let tail = insert_by_retry d rest in
    if leb (retry_time d.next_retry_at) (retry_time x.next_retry_at) then d ∷ x ∷ rest else x ∷ tail

unfoldable pub sort_by_retry : List Delivery → List Delivery
unfolding insert_by_retry
sort_by_retry [] = []
sort_by_retry (d ∷ rest) = insert_by_retry d (sort_by_retry rest)

unfoldable pub ids : List Delivery → List ℕ
ids [] = []
ids (d ∷ rest) = d.id ∷ ids rest

unfoldable pub select_pending : Settings → ℕ → List Delivery → List ℕ
unfolding is_due sort_by_retry ids
select_pending c now ds = ids (take c.delivery_batch_size (sort_by_retry (keep_if (is_due now) ds)))

unfoldable pub is_idle : Service → Bool
is_idle s = (length s.waiting == 0) && (length s.in_flight == 0)

-- A round begins when the last one is over.
unfoldable pub process_pending_deliveries : Settings → ℕ → Service → Service
unfolding select_pending is_idle
process_pending_deliveries c now s =
    if c.enabled && is_idle s then record s { waiting = select_pending c now s.deliveries } else s

unfoldable pub begin_first : ℕ → List ℕ → Service → Service
unfolding begin_delivery
begin_first now [] s = s
begin_first now (k ∷ rest) s = begin_delivery now k (record s { waiting = rest })

-- The next delivery that waits takes a free place of the semaphore.
unfoldable pub begin_next : Settings → ℕ → Service → Service
unfolding begin_first
begin_next c now s =
    if ltb (length s.in_flight) c.max_concurrent_deliveries then begin_first now s.waiting s else s

unfoldable pub without : ℕ → List Flight → List Flight
without k [] = []
without k (f ∷ rest) = let left = without k rest in if f.delivery.id == k then left else f ∷ left

abbrev pub flight_key : Flight → ℕ
flight_key f = f.delivery.id

unfoldable pub land : ℕ → Service → Service
unfolding without
land k s = record s { in_flight = without k s.in_flight }

unfoldable pub finish_flight : Settings → ℕ → ℕ → Response → Option Flight → Service → Service
unfolding finish_delivery land
finish_flight c now draw r none s = s
finish_flight c now draw r (some f) s = finish_delivery c now draw r f (land f.delivery.id s)

-- The result of a request cannot be stored: the exception is logged and the row stays as it is. A
-- failure has been counted in the circuit by then, a success has not.
unfoldable pub lose_flight : ℕ → Response → Option Flight → Service → Service
unfolding land is_success
lose_flight now r none s = s
lose_flight now r (some f) s =
    let landed = land f.delivery.id s in
    record landed {
      lost = f.delivery.id ∷ s.lost;
      circuits =
          if is_success r then s.circuits else record_circuit_failure now f.webhook.id s.circuits;
    }

unfoldable pub flying : List Flight → List ℕ
flying [] = []
flying (f ∷ rest) = f.delivery.id ∷ flying rest

-- The process ends with what it has under way, and the circuits with it.
unfoldable pub restart : Service → Service
unfolding flying
restart s = record s {
  waiting = [];
  in_flight = [];
  circuits = [];
  lost = flying s.in_flight ++ s.lost;
}

-- `next_retry_at < now - timedelta(hours=1)`.
abbrev pub over_an_hour : ℕ → Option ℕ → Bool
over_an_hour now none = false
over_an_hour now (some t) = ltb (t + 3600 * second) now

unfoldable pub is_stale : ℕ → Delivery → Bool
is_stale now d = is_pending d.status && over_an_hour now d.next_retry_at

unfoldable pub set_recovered : ℕ → Delivery → Delivery
set_recovered now d = record d {
  next_retry_at = some now;
  error_message = some (message "Recovered after system restart");
}

unfoldable pub recover_in_flight_deliveries : ℕ → Service → Service
unfolding is_stale set_recovered
recover_in_flight_deliveries now s = record s {
  deliveries = update_where (is_stale now) (set_recovered now) s.deliveries;
}

unfoldable pub is_old : Settings → ℕ → Delivery → Bool
is_old c now d = not (is_pending d.status) && ltb (d.created_at + c.delivery_retention) now

unfoldable pub cleanup_old_deliveries : Settings → ℕ → Service → Service
unfolding is_old
cleanup_old_deliveries c now s = record s {
  deliveries = keep_if (λ d. not (is_old c now d)) s.deliveries;
}

pub data Event : Type 0 where
  trigger : List String → Bool → String → String → Event
  process : Event
  begin : Event
  finish : ℕ → ℕ → Response → Event
  lose : ℕ → Response → Event
  restarting : Event
  recover : Event
  cleanup : Event

-- One event at a time. `finish k` and `lose k` end the request of the delivery `k`.
unfoldable pub step : Settings → ℕ → Event → Service → Service
unfolding trigger_webhook_event process_pending_deliveries begin_next finish_flight lose_flight
    restart recover_in_flight_deliveries cleanup_old_deliveries
step c now (trigger types stored t body) s = (trigger_webhook_event c types stored now t body s).0
step c now process s = process_pending_deliveries c now s
step c now begin s = begin_next c now s
step c now (finish k draw r) s = finish_flight c now draw r (fetch flight_key k s.in_flight) s
step c now (lose k r) s = lose_flight now r (fetch flight_key k s.in_flight) s
step c now restarting s = restart s
step c now recover s = recover_in_flight_deliveries now s
step c now cleanup s = cleanup_old_deliveries c now s

unfoldable pub run : Settings → List (ℕ × Event) → Service → Service
unfolding step
run c [] s = s
run c ((now, e) ∷ rest) s = run c rest (step c now e s)
