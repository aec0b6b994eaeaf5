-- ===== src/Webhooks/Rounds.antt =====
-- api/webhook_service.py: every event keeps the invariant of every delivery.
use vlog.Prelude.{
  ℕ, String, suc, Bool, true, false, Option, none, some, List, [], ◌∷◌, ◌≡◌, ◌≢◌, ◌≤◌, ◌==◌, refl,
  sym, ◌∙◌, arith, if◌then◌else◌, leb,
}
use vlog.Prelude.Tables.{fetch, fetch-key, fetch-update_key, fetch-update_key_ne}
use mathlib.Core.Path.{subst}
use native.Mathlib.Decide.{ℕ_discrete}
use vlog.Webhooks.Schema.{Webhook, Delivery, Settings, Flight, Service}
use vlog.Webhooks.Circuits.{is_circuit_open}
use vlog.Webhooks.Sending.{
  webhook_key, set_delivery, set_failed, set_postponed, launch, begin_with, begin_fetched,
  begin_delivery,
}
use vlog.Webhooks.Service.{flight_key, flying, begin_first, begin_next}
use vlog.Webhooks.Balances.{IsTracked, tally, Tracks, delivery_key}
use vlog.Webhooks.Tracking.{dequeued, refused, launched}

module _ (m now : ℕ) where
  -- The delivery `d` stands in the queue before `s`, and is begun.
  abbrev pub Waits : ℕ → Delivery → Service → Type 0
  Waits k d s =
      IsTracked m (leb s.next_id k) (some d) (fetch flight_key k s.in_flight) (tally k s.sent)
        (tally k s.lost) (suc (tally k s.waiting)) (tally k (flying s.in_flight))

  pub Tracks-if :
      (k : ℕ) (b : Bool) (x y : Service)
      → Tracks m k x
      → Tracks m k y
      → Tracks m k (if b then x else y)
  Tracks-if k true x y h i = h
  Tracks-if k false x y h i = i

  -- An update of the row of another delivery.
  set_other :
      (k j : ℕ) (f : Delivery → Delivery) (s : Service)
      → ((d : Delivery) → (f d).id ≡ d.id)
      → j ≢ k
      → Tracks m k s
      → Tracks m k (set_delivery j f s)
  unfolding set_delivery
  set_other k j f s keeps ne h =
      rw (fetch-update_key_ne delivery_key k j f s.deliveries keeps (λ e. ne (sym e))) h

  launch_other :
      (k : ℕ) (d : Delivery) (w : Webhook) (s : Service)
      → d.id ≢ k
      → Tracks m k s
      → Tracks m k (launch d w s)
  unfolding launch flying
  launch_other k d w s ne h = let apart : (d.id == k) ≡ false = ground (arith, ne) in rw apart h

  -- The delivery that is begun is refused, put off, or sent.
  refuse_self :
      (d : Delivery) (text : String) (s : Service)
      → fetch delivery_key d.id s.deliveries ≡ some d
      → Waits d.id d s
      → Tracks m d.id (set_delivery d.id (set_failed text) s)
  unfolding set_delivery set_failed
  refuse_self d text s found h =
      rw (fetch-update_key delivery_key d.id (set_failed text) s.deliveries d (λ x. refl) found) (
        refused m (leb s.next_id d.id) d (set_failed text d) (tally d.id s.sent) (tally d.id s.lost)
          (tally d.id s.waiting) (fetch flight_key d.id s.in_flight)
          (tally d.id (flying s.in_flight)) refl refl h)

  postpone_self :
      (d : Delivery) (s : Service)
      → fetch delivery_key d.id s.deliveries ≡ some d
      → Waits d.id d s
      → Tracks m d.id (set_delivery d.id (set_postponed now) s)
  unfolding set_delivery set_postponed
  postpone_self d s found h =
      rw (fetch-update_key delivery_key d.id (set_postponed now) s.deliveries d (λ x. refl) found) (
        dequeued m (leb s.next_id d.id) d (set_postponed now d) (tally d.id s.sent)
          (tally d.id s.lost) (tally d.id s.waiting) (fetch flight_key d.id s.in_flight)
          (tally d.id (flying s.in_flight)) refl refl h)

  launch_self :
      (d : Delivery) (w : Webhook) (s : Service)
      → fetch delivery_key d.id s.deliveries ≡ some d
      → Waits d.id d s
      → Tracks m d.id (launch d w s)
  unfolding launch flying
  launch_self d w s found h =
      let here : (d.id == d.id) ≡ true = ground arith in
      rw (here, found)
        (launched m (leb s.next_id d.id) d d (tally d.id s.sent) (tally d.id s.lost)
          (tally d.id s.waiting) (fetch flight_key d.id s.in_flight)
          (record { delivery = d; webhook = w }) (tally d.id (flying s.in_flight)) refl h)

  begin_self :
      (d : Delivery) (w : Option Webhook) (s : Service)
      → fetch delivery_key d.id s.deliveries ≡ some d
      → Waits d.id d s
      → Tracks m d.id (begin_with now d w s)
  unfolding begin_with
  begin_self d none s found h = refuse_self d "Webhook not found" s found h
  begin_self d (some w) s found h =
      Tracks-if d.id w.active _ _
        (Tracks-if d.id (is_circuit_open now w.id s.circuits) _ _ (postpone_self d s found h)
          (launch_self d w s found h))
        (refuse_self d "Webhook is inactive" s found h)

  begin_other :
      (k : ℕ) (d : Delivery) (w : Option Webhook) (s : Service)
      → d.id ≢ k
      → Tracks m k s
      → Tracks m k (begin_with now d w s)
  unfolding begin_with set_failed set_postponed
  begin_other k d none s ne h = set_other k d.id (set_failed "Webhook not found") s (λ x. refl) ne h
  begin_other k d (some w) s ne h =
      Tracks-if k w.active _ _
        (Tracks-if k (is_circuit_open now w.id s.circuits) _ _
          (set_other k d.id (set_postponed now) s (λ x. refl) ne h) (launch_other k d w s ne h))
        (set_other k d.id (set_failed "Webhook is inactive") s (λ x. refl) ne h)

  dequeue_other :
      (k j : ℕ) (rest : List ℕ) (s : Service)
      → s.waiting ≡ j ∷ rest
      → j ≢ k
      → Tracks m k s
      → Tracks m k (record s { waiting = rest })
  dequeue_other k j rest s e ne h =
      let apart : (j == k) ≡ false = ground (arith, ne) in
      let t : tally k s.waiting ≡ tally k rest = rw (e, apart) refl in rw t at h

  dequeue_self :
      (d : Delivery) (rest : List ℕ) (s : Service)
      → s.waiting ≡ d.id ∷ rest
      → fetch delivery_key d.id s.deliveries ≡ some d
      → Tracks m d.id s
      → Waits d.id d (record s { waiting = rest })
  dequeue_self d rest s e found h =
      let here : (d.id == d.id) ≡ true = ground arith in
      let t : tally d.id s.waiting ≡ suc (tally d.id rest) = rw (e, here) refl in rw (found, t) at h

  none_idle :
      (u : Bool) (row : Option Delivery) (fl : Option Flight) (s l w f : ℕ)
      → row ≡ none
      → IsTracked m u row fl s l w f
      → w ≡ 0
  none_idle u none fl s l w f e h = omega (arith, h.row_ok.0)
  none_idle u (some d) fl s l w f e h = cc

  waits_here : (j : ℕ) (rest : List ℕ) (s : Service) → s.waiting ≡ j ∷ rest → 1 ≤ tally j s.waiting
  waits_here j rest s e = let here : (j == j) ≡ true = ground arith in rw (e, here) (omega arith)

  begin_found :
      (k j : ℕ) (d : Delivery) (rest : List ℕ) (s : Service)
      → s.waiting ≡ j ∷ rest
      → fetch delivery_key j s.deliveries ≡ some d
      → j ≡ k
      → Tracks m k s
      → Tracks m k (
          begin_with now d
            (fetch webhook_key d.webhook_id s.webhooks)
            (record s { waiting = rest }))
  begin_found k j d rest s e found same h =
      let key : d.id ≡ j = fetch-key delivery_key j s.deliveries d found in
      let h' : Tracks m d.id s = subst (λ i. Tracks m i s) (sym (key ∙ same)) h in
      let e' : s.waiting ≡ d.id ∷ rest = rw key e in
      let found' : fetch delivery_key d.id s.deliveries ≡ some d =
        subst (λ i. fetch delivery_key i s.deliveries ≡ some d) (sym key) found in
      subst
        (λ i. Tracks m i (
          begin_with now d (fetch webhook_key d.webhook_id s.webhooks)
            (record s { waiting = rest })))
        (key ∙ same)
        (begin_self d (fetch webhook_key d.webhook_id s.webhooks) (record s { waiting = rest })
          found' (dequeue_self d rest s e' found' h'))

  begin_fetched-Tracks :
      (k j : ℕ) (r : Option Delivery) (rest : List ℕ) (s : Service)
      → s.waiting ≡ j ∷ rest
      → fetch delivery_key j s.deliveries ≡ r
      → Tracks m k s
      → Tracks m k (begin_fetched now r (record s { waiting = rest }))
  unfolding begin_fetched
  begin_fetched-Tracks k j none rest s e found h = elim (ℕ_discrete j k) [
    | yes same ↦
        let z : tally k s.waiting ≡ 0 =
          none_idle _ (fetch delivery_key k s.deliveries) _ _ _ _ _
            (subst (λ i. fetch delivery_key i s.deliveries ≡ none) same found) h in
        let o : 1 ≤ tally k s.waiting =
          subst (λ i. 1 ≤ tally i s.waiting) same (waits_here j rest s e) in
        absurd (omega (arith, z, o))
    | no ne ↦ dequeue_other k j rest s e ne h
  ]
  begin_fetched-Tracks k j (some d) rest s e found h = elim (ℕ_discrete j k) [
    | yes same ↦ begin_found k j d rest s e found same h
    | no ne ↦
        begin_other k d (fetch webhook_key d.webhook_id s.webhooks) (record s { waiting = rest })
          (λ q. ne (sym (fetch-key delivery_key j s.deliveries d found) ∙ q))
          (dequeue_other k j rest s e ne h)
  ]

  begin_first-Tracks :
      (k : ℕ) (ids : List ℕ) (s : Service)
      → s.waiting ≡ ids
      → Tracks m k s
      → Tracks m k (begin_first now ids s)
  unfolding begin_first begin_delivery
  begin_first-Tracks k [] s e h = h
  begin_first-Tracks k (j ∷ rest) s e h =
      begin_fetched-Tracks k j (fetch delivery_key j s.deliveries) rest s e refl h

  pub begin_next-Tracks :
      (c : Settings) (k : ℕ) (s : Service) → Tracks m k s → Tracks m k (begin_next c now s)
  unfolding begin_next
  begin_next-Tracks c k s h = Tracks-if k _ _ _ (begin_first-Tracks k s.waiting s refl h) h
