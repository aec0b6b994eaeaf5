-- ===== src/Webhooks/Turns.antt =====
-- api/webhook_service.py: new deliveries, the choice of a round, the recovery and the clean-up keep
-- the invariant of every delivery.
use mathlib.Core.Path.{subst}
use native.Mathlib.Decide.{ℕ_discrete}
use vlog.Prelude.{
  ℕ, zero, suc, Bool, true, false, not, Option, none, some, List, [], ◌∷◌, ◌≡◌, ◌≢◌, ◌⊎◌, ◌≤◌, ◌==◌,
  ◌&&◌, refl, ◌∙◌, arith, if◌then◌else◌, leb, length, take, keep_if, Bool-cases, inl, inr,
}
use vlog.Prelude.Tables.{
  fetch, set_if, fetch-update_where, fetch_here, fetch_ne, HasUniqueKeys, Absent,
}
use vlog.Prelude.Deletes.{fetch_missing, fetch-keep_if}
use vlog.Webhooks.Schema.{Delivery, Settings, Flight, Service}
use vlog.Webhooks.Service.{
  flight_key, flying, is_pending, is_due, insert_by_retry, sort_by_retry, ids, select_pending,
  is_idle, process_pending_deliveries, is_stale, set_recovered, recover_in_flight_deliveries,
  is_old, cleanup_old_deliveries,
}
use vlog.Webhooks.Balances.{IsTracked, tally, Tracks, delivery_key}
use vlog.Webhooks.Tracking.{rescheduled, cleaned, queued}

-- The ids that a round takes: none twice, and each of a row that is due.
Chosen : (Delivery → Bool) → ℕ → List Delivery → ℕ → Type 0
Chosen p k ds t =
    (t ≡ 0) ⊎ ((t ≡ 1) × ((d : Delivery) × (fetch delivery_key k ds ≡ some d) × (p d ≡ true)))

tally_of_Absent :
    (p : Delivery → Bool) (k : ℕ) (ds : List Delivery)
    → Absent delivery_key k ds
    → tally k (ids (keep_if p ds)) ≡ 0
unfolding ids
tally_of_Absent p k [] h = refl
tally_of_Absent p k (d ∷ rest) h = ground (arith, h.0, tally_of_Absent p k rest h.1)

Chosen-later :
    (p : Delivery → Bool) (k : ℕ) (d : Delivery) (rest : List Delivery) (t t' : ℕ)
    → d.id ≢ k
    → t' ≡ t
    → Chosen p k rest t
    → Chosen p k (d ∷ rest) t'
unfolding Chosen
Chosen-later p k d rest t t' ne e (inl z) = inl (e ∙ z)
Chosen-later p k d rest t t' ne e (inr (o, c)) =
    inr (e ∙ o, (c.0, fetch_ne delivery_key k d rest ne ∙ c.1, c.2))

tally-keep_if :
    (p : Delivery → Bool) (k : ℕ) (ds : List Delivery)
    → HasUniqueKeys delivery_key ds
    → Chosen p k ds (tally k (ids (keep_if p ds)))
unfolding Chosen ids
tally-keep_if p k [] u = inl refl
tally-keep_if p k (d ∷ rest) u = elim (ℕ_discrete d.id k) [
  | yes e ↦
      let none_ = tally_of_Absent p k rest (subst (λ i. Absent delivery_key i rest) e u.0) in
      elim (Bool-cases (p d)) [
        | inl y ↦ inr (ground (arith, none_, y, e), (d, fetch_here delivery_key k d rest e, y))
        | inr n ↦ inl (ground (arith, none_, n))
      ]
  | no ne ↦
      Chosen-later p k d rest (tally k (ids (keep_if p rest))) _ ne (ground (arith, ne))
        (tally-keep_if p k rest u.1)
]

tally-insert_by_retry :
    (k : ℕ) (d : Delivery) (ds : List Delivery)
    → tally k (ids (insert_by_retry d ds)) ≡ tally k (d.id ∷ ids ds)
unfolding ids insert_by_retry
tally-insert_by_retry k d [] = refl
tally-insert_by_retry k d (x ∷ rest) = ground (arith, tally-insert_by_retry k d rest)

tally-sort_by_retry :
    (k : ℕ) (ds : List Delivery) → tally k (ids (sort_by_retry ds)) ≡ tally k (ids ds)
unfolding ids sort_by_retry
tally-sort_by_retry k [] = refl
tally-sort_by_retry k (d ∷ rest) =
    ground (arith, tally-insert_by_retry k d (sort_by_retry rest), tally-sort_by_retry k rest)

tally-take-le : (k n : ℕ) (ds : List Delivery) → tally k (ids (take n ds)) ≤ tally k (ids ds)
unfolding ids
tally-take-le k zero ds = omega arith
tally-take-le k (suc n) [] = omega arith
tally-take-le k (suc n) (d ∷ rest) = ground (arith, tally-take-le k n rest)

-- What an event does to a delivery whose row the table holds, or does not hold, at a key.
module _ (m now k : ℕ) where
  pub recover-Tracks :
      (s : Service) → Tracks m k s → Tracks m k (recover_in_flight_deliveries now s)
  unfolding recover_in_flight_deliveries set_recovered
  recover-Tracks s h =
      rw
        (fetch-update_where delivery_key (is_stale now) (set_recovered now) (λ d. refl) k
          s.deliveries)
        (go (fetch delivery_key k s.deliveries) h)
    where
      one :
          (b : Bool) (d : Delivery) {fl : Option Flight} {a l w f : ℕ}
          → IsTracked m (leb s.next_id k) (some d) fl a l w f
          → IsTracked m (leb s.next_id k) (some (if b then set_recovered now d else d)) fl a l w f
      one true d {fl} {a} {l} {w} {f} t =
          rescheduled m (leb s.next_id k) d (set_recovered now d) a l w fl f refl refl t
      one false d t = t

      go :
          (r : Option Delivery) {fl : Option Flight} {a l w f : ℕ}
          → IsTracked m (leb s.next_id k) r fl a l w f
          → IsTracked m (leb s.next_id k) (set_if (is_stale now) (set_recovered now) r) fl a l w f
      go none t = t
      go (some d) t = one (is_stale now d) d t

  old-pending : (c : Settings) (d : Delivery) → is_old c now d ≡ true → is_pending d.status ≡ false
  unfolding is_old
  old-pending c d h = ground (arith, h)

  pub cleanup-Tracks :
      (c : Settings) (s : Service)
      → HasUniqueKeys delivery_key s.deliveries
      → Tracks m k s
      → Tracks m k (cleanup_old_deliveries c now s)
  unfolding cleanup_old_deliveries
  cleanup-Tracks c s u h = go (fetch delivery_key k s.deliveries) refl
    where
      old_or_not :
          (d : Delivery) (b : Bool)
          → is_old c now d ≡ b
          → {fl : Option Flight} {a l w f : ℕ} → IsTracked m (leb s.next_id k) (some d) fl a l w f
          → IsTracked m (leb s.next_id k) (if not b then some d else none) fl a l w f
      old_or_not d true e {fl} {a} {l} {w} {f} t =
          cleaned m (leb s.next_id k) d fl a l w f (old-pending c d e) t
      old_or_not d false e t = t

      go :
          (r : Option Delivery)
          → fetch delivery_key k s.deliveries ≡ r
          → Tracks m k (cleanup_old_deliveries c now s)
      go none e =
          rw (fetch_missing delivery_key (λ d. not (is_old c now d)) k s.deliveries e) (rw e at h)
      go (some d) e =
          rw (fetch-keep_if delivery_key (λ d. not (is_old c now d)) k s.deliveries d u e)
            (old_or_not d (is_old c now d) refl (rw e at h))

  idle-empty :
      (s : Service)
      → is_idle s ≡ true
      → (tally k s.waiting ≡ 0) × (tally k (flying s.in_flight) ≡ 0)
  unfolding is_idle flying
  idle-empty s h = go s.waiting s.in_flight h
    where
      go :
          (ws : List ℕ) (fs : List Flight)
          → (length ws == 0) && (length fs == 0) ≡ true
          → (tally k ws ≡ 0) × (tally k (flying fs) ≡ 0)
      go [] [] e = (refl, refl)
      go [] (f ∷ fs) e = ground (arith, e)
      go (w ∷ ws) fs e = ground (arith, e)

  take_one :
      (s : Service) (t v : ℕ)
      → Chosen (is_due now) k s.deliveries t
      → v ≤ t
      → (tally k s.waiting ≡ 0) × (tally k (flying s.in_flight) ≡ 0)
      → Tracks m k s
      → IsTracked m
          (leb s.next_id k)
          (fetch delivery_key k s.deliveries)
          (fetch flight_key k s.in_flight)
          (tally k s.sent)
          (tally k s.lost)
          v
          (tally k (flying s.in_flight))
  unfolding Chosen is_due
  take_one s t v (inl z) le idle h =
      let v0 : v ≡ 0 = omega (arith, z, le) in rw v0 (rw (idle.0) at h)
  take_one s t v (inr (o, c)) le idle h = rw (c.1) (
      queued m (leb s.next_id k) c.0 c.0 (tally k s.sent) (tally k s.lost) (tally k s.waiting)
        (fetch flight_key k s.in_flight) (tally k (flying s.in_flight)) v (ground (arith, c.2))
        (omega (arith, idle.0, idle.1)) (omega (arith, o, le)) (rw (c.1) at h))

  pub process-Tracks :
      (c : Settings) (s : Service)
      → HasUniqueKeys delivery_key s.deliveries
      → Tracks m k s
      → Tracks m k (process_pending_deliveries c now s)
  unfolding process_pending_deliveries select_pending
  process-Tracks c s u h = elim (Bool-cases (c.enabled && is_idle s)) [
    | inr e ↦ rw (e, process_pending_deliveries) h
    | inl e ↦
        let due = keep_if (is_due now) s.deliveries in
        rw (e, process_pending_deliveries)
          (take_one s (tally k (ids due)) _ (tally-keep_if (is_due now) k s.deliveries u)
            (omega (
              arith,
              tally-take-le k c.delivery_batch_size (sort_by_retry due),
              tally-sort_by_retry k due,
            ))
            (idle-empty s (ground (arith, e))) h)
  ]
