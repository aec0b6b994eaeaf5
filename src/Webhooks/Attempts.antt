-- ===== src/Webhooks/Attempts.antt =====
-- api/webhook_service.py: how often a delivery is attempted, over any course of events.
use mathlib.Core.Path.{subst}
use vlog.Prelude.{
  ℕ, not, some, List, [], ◌∷◌, ◌≡◌, ◌≤◌, ◌+◌, refl, arith, ltb, leb, max, length, inl, inr,
}
use vlog.Prelude.Tables.{fetch, HasUniqueKeys-update_where}
use vlog.Prelude.Deletes.{HasUniqueKeys-keep_if}
use vlog.Webhooks.Schema.{DeliveryStatus, Delivery, Settings, Service}
use vlog.Webhooks.Service.{
  flight_key, flying, begin_first, is_stale, set_recovered, is_old, Event, trigger, process, begin,
  finish, lose, restarting, recover, cleanup, step, run,
}
use vlog.Webhooks.Balances.{tally, delivery_key, RowOk, Balance, Balance-of}
use vlog.Webhooks.Rounds.{begin_next-Tracks}
use vlog.Webhooks.Landings.{finish_flight-Tracks, lose_flight-Tracks, restart-Tracks}
use vlog.Webhooks.Turns.{recover-Tracks, cleanup-Tracks, process-Tracks}
use vlog.Webhooks.Births.{IsSound, trigger-IsSound}
use vlog.Webhooks.Keys.{
  HasKeys-if, begin_first-HasKeys, process-HasKeys, finish-HasKeys, lose-HasKeys,
}

step-IsSound :
    (c : Settings) (now : ℕ) (e : Event) (s : Service) → IsSound c s → IsSound c (step c now e s)
unfolding step
step-IsSound c now (trigger types stored t body) s h = trigger-IsSound c types stored now t body s h
step-IsSound c now process s h = record {
  unique = process-HasKeys c now s h.unique;
  tracks = λ k. process-Tracks c.max_retries now k c s h.unique (h.tracks k);
}
step-IsSound c now begin s h = record {
  unique =
      HasKeys-if (ltb (length s.in_flight) c.max_concurrent_deliveries)
        (begin_first now s.waiting s) s (begin_first-HasKeys now s.waiting s h.unique) h.unique;
  tracks = λ k. begin_next-Tracks c.max_retries now c k s (h.tracks k);
}
step-IsSound c now (finish j draw r) s h = record {
  unique = finish-HasKeys c now draw r (fetch flight_key j s.in_flight) s h.unique;
  tracks = λ k. finish_flight-Tracks c.max_retries now c k j draw r s refl (h.tracks k);
}
step-IsSound c now (lose j r) s h = record {
  unique = lose-HasKeys now r (fetch flight_key j s.in_flight) s h.unique;
  tracks = λ k. lose_flight-Tracks c.max_retries now r k j s (h.tracks k);
}
step-IsSound c now restarting s h = record {
  unique = h.unique;
  tracks = λ k. restart-Tracks c.max_retries now k s (h.tracks k);
}
step-IsSound c now recover s h = record {
  unique =
      HasUniqueKeys-update_where delivery_key (is_stale now) (set_recovered now) (λ d. refl)
        s.deliveries h.unique;
  tracks = λ k. recover-Tracks c.max_retries now k s (h.tracks k);
}
step-IsSound c now cleanup s h = record {
  unique = HasUniqueKeys-keep_if delivery_key (λ d. not (is_old c now d)) s.deliveries h.unique;
  tracks = λ k. cleanup-Tracks c.max_retries now k c s h.unique (h.tracks k);
}

sent_of :
    (st : DeliveryStatus) (a s l w f m : ℕ)
    → Balance st a s l w f
    → a ≤ max 1 m
    → w + f ≤ 1
    → s ≤ max 1 m + l
sent_of st a s l w f m b le busy = elim (Balance-of st a s l w f b) [
  | inl p ↦ omega (arith, p.1)
  | inr p ↦ omega (arith, p.2)
]

pub run-IsSound :
    (c : Settings) (es : List (ℕ × Event)) (s : Service) → IsSound c s → IsSound c (run c es s)
unfolding run
run-IsSound c [] s h = h
run-IsSound c ((now, e) ∷ rest) s h = run-IsSound c rest (step c now e s) (step-IsSound c now e s h)

-- In any state that the service comes to from a sound one, by any of its own events in any order,
-- under one fixed setting of `max_retries` and with no manual retry of a delivery: a delivery's
-- attempt number is at most `max_retries` (one, if that is 0), so are the requests sent for it but
-- for those whose results could not be stored; while it is pending, its requests are one less than
-- its attempt number, those that were lost and the one in flight together; and afterwards nothing
-- is under way for it.
pub run-attempts :
    (c : Settings) (es : List (ℕ × Event)) (s : Service) (d : Delivery)
    → IsSound c s
    → fetch delivery_key d.id (run c es s).deliveries ≡ some d
    → (d.attempt_number ≤ max 1 c.max_retries)
      × (tally d.id (run c es s).sent ≤ max 1 c.max_retries + tally d.id (run c es s).lost)
      × Balance d.status d.attempt_number
          (tally d.id (run c es s).sent)
          (tally d.id (run c es s).lost)
          (tally d.id (run c es s).waiting)
          (tally d.id (flying (run c es s).in_flight))
run-attempts c es s d h found =
    let s' = run c es s in
    let t = (run-IsSound c es s h).tracks d.id in
    let r : RowOk c.max_retries (leb s'.next_id d.id) (some d) (tally d.id s'.sent)
        (tally d.id s'.lost) (tally d.id s'.waiting) (tally d.id (flying s'.in_flight)) =
      subst
        (λ o.
          RowOk c.max_retries (leb s'.next_id d.id) o (tally d.id s'.sent) (tally d.id s'.lost)
            (tally d.id s'.waiting) (tally d.id (flying s'.in_flight)))
        found t.row_ok in
    (r.2, sent_of d.status _ _ _ _ _ c.max_retries r.0 r.2 t.busy, r.0)
