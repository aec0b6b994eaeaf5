-- ===== src/Webhooks/Landings.antt =====
-- api/webhook_service.py: the end of a request, stored or lost, keeps the invariant of every delivery.
use vlog.Prelude.{
  ℕ, Bool, true, false, Option, none, some, ◌≡◌, ◌≢◌, ◌==◌, refl, sym, ◌∙◌, arith, ltb, leb,
  Bool-cases, inl, inr,
}
use vlog.Prelude.Tables.{fetch, fetch-key, fetch-update_key, fetch-update_key_ne}
use mathlib.Core.Path.{subst}
use native.Mathlib.Decide.{ℕ_discrete}
use vlog.Webhooks.Schema.{Delivery, Settings, Flight, Service}
use vlog.Webhooks.Sending.{
  Response, is_success, set_delivered, set_retry, set_exhausted, finish_success, finish_failure,
  finish_delivery,
}
use vlog.Webhooks.Service.{flight_key, flying, land, finish_flight, lose_flight, restart}
use vlog.Webhooks.Rounds.{Tracks-if}
use vlog.Webhooks.Balances.{
  IsTracked, tally, tally_append, Tracks, delivery_key, flying-without, fetch-without,
}
use vlog.Webhooks.Tracking.{retried, ended, lost_result, restarted}

module _ (m now : ℕ) where
  -- The end of a request.
  land_self :
      (k : ℕ) (s : Service)
      → (fetch flight_key k (land k s).in_flight ≡ none)
        × (tally k (flying (land k s).in_flight) ≡ 0)
  unfolding land
  land_self k s =
      let here : (k == k) ≡ true = ground arith in
      (fetch-without k k s.in_flight ∙ rw here refl, flying-without k k s.in_flight ∙ rw here refl)

  land_other :
      (k j : ℕ) (s : Service)
      → j ≢ k
      → (fetch flight_key k (land j s).in_flight ≡ fetch flight_key k s.in_flight)
        × (tally k (flying (land j s).in_flight) ≡ tally k (flying s.in_flight))
  unfolding land
  land_other k j s ne =
      let apart : (j == k) ≡ false = ground (arith, ne) in
      (
        fetch-without k j s.in_flight ∙ rw apart refl,
        flying-without k j s.in_flight ∙ rw apart refl,
      )

  -- From the response on, for the delivery of the flight and for another.
  finish_self :
      (c : Settings) (draw : ℕ) (r : Response) (x : Flight) (d : Delivery) (s : Service)
      → c.max_retries ≡ m
      → fetch delivery_key x.delivery.id s.deliveries ≡ some d
      → fetch flight_key x.delivery.id s.in_flight ≡ none
      → tally x.delivery.id (flying s.in_flight) ≡ 0
      → IsTracked m
          (leb s.next_id x.delivery.id)
          (some d)
          (some x)
          (tally x.delivery.id s.sent)
          (tally x.delivery.id s.lost)
          (tally x.delivery.id s.waiting)
          1
      → Tracks m x.delivery.id (finish_delivery c now draw r x s)
  unfolding finish_delivery finish_success finish_failure
  finish_self c draw r x d s cm found none_ zero_ h =
      let k = x.delivery.id in
      let keeps = λ (f : Delivery → Delivery) (q : (y : Delivery) → (f y).id ≡ y.id).
        fetch-update_key delivery_key k f s.deliveries d q found in
      Tracks-if m now k (is_success r) _ _
        (rw (keeps (set_delivered now r) (λ y. refl), none_, zero_)
          (ended m (leb s.next_id k) d (set_delivered now r d) (tally k s.sent) (tally k s.lost)
            (tally k s.waiting) x 1 refl refl h))
        (elim (Bool-cases (ltb x.delivery.attempt_number c.max_retries)) [
          | inl lt ↦
              rw
                (
                  lt,
                  keeps (set_retry c now draw r x.delivery.attempt_number) (λ y. refl),
                  none_,
                  zero_,
                )
                (retried m (leb s.next_id k) d (set_retry c now draw r x.delivery.attempt_number d)
                  (tally k s.sent) (tally k s.lost) (tally k s.waiting) x 1 refl refl
                  (ground (arith, lt, cm)) h)
          | inr ge ↦
              rw (ge, keeps (set_exhausted r) (λ y. refl), none_, zero_)
                (ended m (leb s.next_id k) d (set_exhausted r d) (tally k s.sent) (tally k s.lost)
                  (tally k s.waiting) x 1 refl refl h)
        ])

  finish_other :
      (c : Settings) (k draw : ℕ) (r : Response) (x : Flight) (s : Service)
      → x.delivery.id ≢ k
      → Tracks m k s
      → Tracks m k (finish_delivery c now draw r x s)
  unfolding finish_delivery finish_success finish_failure
  finish_other c k draw r x s ne h =
      let keeps = λ (f : Delivery → Delivery) (q : (y : Delivery) → (f y).id ≡ y.id).
        fetch-update_key_ne delivery_key k x.delivery.id f s.deliveries q (λ e. ne (sym e)) in
      Tracks-if m now k (is_success r) _ _ (rw (keeps (set_delivered now r) (λ y. refl)) h) (
        Tracks-if m now k (ltb x.delivery.attempt_number c.max_retries) _ _
          (rw (keeps (set_retry c now draw r x.delivery.attempt_number) (λ y. refl)) h)
          (rw (keeps (set_exhausted r) (λ y. refl)) h))

  -- A flight has its row.
  row_of_flight :
      (u : Bool) (row : Option Delivery) (fl : Option Flight) (x : Flight) (s l w f : ℕ)
      → fl ≡ some x
      → IsTracked m u row fl s l w f
      → (d : Delivery) × (row ≡ some d) × (f ≡ 1)
  row_of_flight u none none x s l w f e h = cc
  row_of_flight u none (some y) x s l w f e h = absurd h.flight_ok
  row_of_flight u (some d) none x s l w f e h = cc
  row_of_flight u (some d) (some y) x s l w f e h = (d, refl, h.flight_ok.0)

  finish_here :
      (c : Settings) (draw : ℕ) (r : Response) (x : Flight) (s : Service)
      → c.max_retries ≡ m
      → fetch flight_key x.delivery.id s.in_flight ≡ some x
      → Tracks m x.delivery.id s
      → Tracks m x.delivery.id (finish_delivery c now draw r x (land x.delivery.id s))
  unfolding land
  finish_here c draw r x s cm found h =
      let row =
        row_of_flight _ (fetch delivery_key x.delivery.id s.deliveries) _ x _ _ _ _ found h in
      let landed = land_self x.delivery.id s in
      finish_self c draw r x row.0 (land x.delivery.id s) cm row.1 landed.0 landed.1
        (rw (row.1, found, row.2) at h)

  -- What holds of the flight's own delivery and of every other holds of each.
  by_flight :
      (k j : ℕ) (x : Flight) (s s' : Service)
      → fetch flight_key j s.in_flight ≡ some x
      → (fetch flight_key x.delivery.id s.in_flight ≡ some x
          → Tracks m x.delivery.id s
          → Tracks m x.delivery.id s')
      → (x.delivery.id ≢ k → Tracks m k s → Tracks m k s')
      → Tracks m k s
      → Tracks m k s'
  by_flight k j x s s' e here other h =
      let key : x.delivery.id ≡ j = fetch-key flight_key j s.in_flight x e in
      elim (ℕ_discrete x.delivery.id k) [
        | yes same ↦
            subst (λ i. Tracks m i s') same
              (here (subst (λ i. fetch flight_key i s.in_flight ≡ some x) (sym key) e)
                (subst (λ i. Tracks m i s) (sym same) h))
        | no ne ↦ other ne h
      ]

  land_elsewhere : (k j : ℕ) (s : Service) → j ≢ k → Tracks m k s → Tracks m k (land j s)
  unfolding land
  land_elsewhere k j s ne h = let l = land_other k j s ne in rw (l.0, l.1) h

  pub finish_flight-Tracks :
      (c : Settings) (k j draw : ℕ) (r : Response) (s : Service)
      → c.max_retries ≡ m
      → Tracks m k s
      → Tracks m k (finish_flight c now draw r (fetch flight_key j s.in_flight) s)
  unfolding finish_flight
  finish_flight-Tracks c k j draw r s cm h = go (fetch flight_key j s.in_flight) refl
    where
      go :
          (o : Option Flight)
          → fetch flight_key j s.in_flight ≡ o
          → Tracks m k (finish_flight c now draw r o s)
      go none e = h
      go (some x) e =
          by_flight k j x s (finish_delivery c now draw r x (land x.delivery.id s)) e
            (finish_here c draw r x s cm)
            (λ ne t.
              finish_other c k draw r x (land x.delivery.id s) ne
                (land_elsewhere k x.delivery.id s ne t))
            h

  lose_none :
      (r : Response) (k : ℕ) (s : Service) → Tracks m k s → Tracks m k (lose_flight now r none s)
  unfolding lose_flight
  lose_none r k s h = h

  lose_here :
      (r : Response) (x : Flight) (s : Service)
      → fetch flight_key x.delivery.id s.in_flight ≡ some x
      → Tracks m x.delivery.id s
      → Tracks m x.delivery.id (lose_flight now r (some x) s)
  unfolding lose_flight land
  lose_here r x s found h =
      let k = x.delivery.id in
      let here : (k == k) ≡ true = ground arith in
      let landed = land_self k s in
      rw (landed.0, landed.1, here)
        (lost_result m (leb s.next_id k) (fetch delivery_key k s.deliveries) x (tally k s.sent)
          (tally k s.lost) (tally k s.waiting) _ (rw found at h))

  lose_elsewhere :
      (r : Response) (k : ℕ) (x : Flight) (s : Service)
      → x.delivery.id ≢ k
      → Tracks m k s
      → Tracks m k (lose_flight now r (some x) s)
  unfolding lose_flight land
  lose_elsewhere r k x s ne h =
      let apart : (x.delivery.id == k) ≡ false = ground (arith, ne) in
      rw apart (land_elsewhere k x.delivery.id s ne h)

  pub lose_flight-Tracks :
      (r : Response) (k j : ℕ) (s : Service)
      → Tracks m k s
      → Tracks m k (lose_flight now r (fetch flight_key j s.in_flight) s)
  lose_flight-Tracks r k j s h = go (fetch flight_key j s.in_flight) refl
    where
      go :
          (o : Option Flight)
          → fetch flight_key j s.in_flight ≡ o
          → Tracks m k (lose_flight now r o s)
      go none e = lose_none r k s h
      go (some x) e =
          by_flight k j x s (lose_flight now r (some x) s) e (lose_here r x s)
            (lose_elsewhere r k x s) h

  pub restart-Tracks : (k : ℕ) (s : Service) → Tracks m k s → Tracks m k (restart s)
  unfolding restart flying
  restart-Tracks k s h = rw (tally_append k (flying s.in_flight) s.lost) (
      restarted m (leb s.next_id k) (fetch delivery_key k s.deliveries)
        (fetch flight_key k s.in_flight) (tally k s.sent) (tally k s.lost) (tally k s.waiting)
        (tally k (flying s.in_flight)) h)
