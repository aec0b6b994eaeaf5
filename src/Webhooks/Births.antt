-- ===== src/Webhooks/Births.antt =====
-- api/webhook_service.py: the invariant of the service, and what new deliveries do to it.
use native.Mathlib.Decide.{ℕ_discrete}
use vlog.Prelude.{
  ℕ, suc, String, Bool, true, false, Option, none, some, List, [], ◌∷◌, ◌≡◌, ◌≢◌, ◌+◌, ◌&&◌, refl,
  arith, if◌then◌else◌, leb, keep_if, update_where, length,
}
use vlog.Prelude.Tables.{fetch, fetch_here, fetch_ne, HasUniqueKeys}
use vlog.Prelude.Deletes.{Absent-fetch}
use vlog.Webhooks.Schema.{Webhook, Delivery, Settings, Flight, Service}
use vlog.Webhooks.Triggering.{
  new_delivery, insert_deliveries, receives, names, is_among, count_triggered,
  trigger_webhook_event,
}
use vlog.Webhooks.Balances.{IsTracked, Tracks, delivery_key}

-- The invariant of the service.
pub record IsSound (c : Settings) (s : Service) : Type 0 where
  pub unique : HasUniqueKeys delivery_key s.deliveries
  pub tracks : (k : ℕ) → Tracks c.max_retries k s

-- A new row at the next id.
insert_one : ℕ → String → String → Webhook → Service → Service
insert_one now t body w s = record s {
  deliveries = new_delivery s.next_id w.id now t body ∷ s.deliveries;
  next_id = suc s.next_id;
}

unborn_none :
    (m : ℕ) (row : Option Delivery) (fl : Option Flight) (s l w f : ℕ)
    → IsTracked m true row fl s l w f
    → (row ≡ none) × (fl ≡ none) × (s + l ≡ 0) × (w + f ≡ 0)
unborn_none m none none s l w f h = (refl, refl, h.row_ok.1 refl, h.row_ok.0)
unborn_none m none (some x) s l w f h = absurd h.flight_ok
unborn_none m (some d) fl s l w f h = let e : true ≡ false = h.row_ok.3 in cc

born :
    (m now k : ℕ) (t body : String) (w : Webhook) (s : Service)
    → s.next_id ≡ k
    → Tracks m k s
    → Tracks m k (insert_one now t body w s)
unfolding insert_one
born m now k t body w s e h =
    let u : leb s.next_id k ≡ true = ground (arith, e) in
    let n = unborn_none m _ _ _ _ _ _ (rw u at h) in
    let v : leb (suc s.next_id) k ≡ false = ground (arith, e) in
    rw (v, fetch_here delivery_key k (new_delivery s.next_id w.id now t body) s.deliveries e, n.1)
      (record {
        busy = omega (arith, n.3);
        row_ok = (omega (arith, n.2, n.3), omega arith, omega arith, refl);
        flight_ok = omega (arith, n.3);
      })

elsewhere :
    (m now k : ℕ) (t body : String) (w : Webhook) (s : Service)
    → s.next_id ≢ k
    → Tracks m k s
    → Tracks m k (insert_one now t body w s)
unfolding insert_one
elsewhere m now k t body w s ne h =
    let v : leb (suc s.next_id) k ≡ leb s.next_id k = ground (arith, ne) in
    rw (v, fetch_ne delivery_key k (new_delivery s.next_id w.id now t body) s.deliveries ne) h

insert_one-IsSound :
    (c : Settings) (now : ℕ) (t body : String) (w : Webhook) (s : Service)
    → IsSound c s
    → IsSound c (insert_one now t body w s)
unfolding insert_one
insert_one-IsSound c now t body w s h = record {
  unique = (
    Absent-fetch delivery_key s.next_id s.deliveries (
        let u : leb s.next_id s.next_id ≡ true = ground arith in
        (unborn_none c.max_retries (fetch delivery_key s.next_id s.deliveries) _ _ _ _ _
          (rw u at (h.tracks s.next_id))).0),
    h.unique,
  );
  tracks = λ k. elim (ℕ_discrete s.next_id k) [
    | yes e ↦ born c.max_retries now k t body w s e (h.tracks k)
    | no ne ↦ elsewhere c.max_retries now k t body w s ne (h.tracks k)
  ];
}

insert_deliveries-IsSound :
    (c : Settings) (now : ℕ) (t body : String) (ws : List Webhook) (s : Service)
    → IsSound c s
    → IsSound c (insert_deliveries now t body ws s)
unfolding insert_deliveries insert_one
insert_deliveries-IsSound c now t body [] s h = h
insert_deliveries-IsSound c now t body (w ∷ rest) s h =
    insert_deliveries-IsSound c now t body rest (insert_one now t body w s)
      (insert_one-IsSound c now t body w s h)

either-IsSound :
    (c : Settings) (b : Bool) (x y : Service × ℕ)
    → IsSound c x.0
    → IsSound c y.0
    → IsSound c (if b then x else y).0
either-IsSound c true x y h i = h
either-IsSound c false x y h i = i

pub trigger-IsSound :
    (c : Settings) (types : List String) (stored : Bool) (now : ℕ) (t body : String) (s : Service)
    → IsSound c s
    → IsSound c (trigger_webhook_event c types stored now t body s).0
unfolding trigger_webhook_event
trigger-IsSound c types stored now t body s h =
    let ws = keep_if (receives now t s) s.webhooks in
    let i = insert_deliveries-IsSound c now t body ws s h in
    either-IsSound c (c.enabled && (names t types && stored))
      (
        record (insert_deliveries now t body ws s) {
          webhooks = update_where (is_among ws) (count_triggered now) s.webhooks;
        },
        length ws,
      )
      (s, 0) (record { unique = i.unique; tracks = i.tracks }) h
