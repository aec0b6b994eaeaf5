-- ===== src/Webhooks/Balances.antt =====
-- api/webhook_service.py: what can be seen of one delivery, and how its attempts add up.
use vlog.Prelude.{
  ℕ, suc, Bool, true, false, Option, none, some, List, [], ◌∷◌, ◌++◌, ◌≡◌, ◌≤◌, ◌⊎◌, ◌+◌, ◌==◌, max,
  refl, arith, if◌then◌else◌, leb, inl, inr,
}
use vlog.Prelude.Tables.{fetch}
use vlog.Webhooks.Schema.{
  DeliveryStatus, pending, delivered, failed_permanent, Delivery, Flight, Service,
}
use vlog.Webhooks.Service.{flight_key, flying, without, is_pending}

-- How often a number stands in a list.
abbrev pub tally : ℕ → List ℕ → ℕ
tally k [] = 0
tally k (x ∷ rest) = let t = tally k rest in if x == k then suc t else t

pub tally_append : (k : ℕ) (xs ys : List ℕ) → tally k (xs ++ ys) ≡ tally k xs + tally k ys
tally_append k [] ys = omega arith
tally_append k (x ∷ xs) ys = ground (arith, tally_append k xs ys)

-- The balance of a delivery with an attempt number: while it is pending, each attempt but the one to
-- come was sent, as were the requests that were lost and the one in flight; after that nothing is
-- under way.
abbrev pub Balance : DeliveryStatus → (attempt sent lost waiting flying : ℕ) → Type 0
Balance pending attempt sent lost waiting flying = sent + 1 ≡ attempt + lost + flying
Balance delivered attempt sent lost waiting flying =
    (waiting + flying ≡ 0) × (sent ≤ attempt + lost)
Balance failed_permanent attempt sent lost waiting flying =
    (waiting + flying ≡ 0) × (sent ≤ attempt + lost)

-- Only an id that was given out (`unborn` is false) has a row, or has had one.
abbrev pub RowOk :
    (m : ℕ) (unborn : Bool) → Option Delivery → (sent lost waiting flying : ℕ) → Type 0
RowOk m unborn none sent lost waiting flying =
    (waiting + flying ≡ 0) × (unborn ≡ true → sent + lost ≡ 0)
RowOk m unborn (some d) sent lost waiting flying =
    Balance d.status d.attempt_number sent lost waiting flying
    × (1 ≤ d.attempt_number)
    × (d.attempt_number ≤ max 1 m)
    × (unborn ≡ false)

-- The row that a flight carries has the attempt number that the table has.
abbrev pub FlightOk : Option Flight → Option Delivery → ℕ → Type 0
FlightOk none row flying = flying ≡ 0
FlightOk (some f) none flying = ⊥
FlightOk (some f) (some d) flying = (flying ≡ 1) × (d.attempt_number ≡ f.delivery.attempt_number)

pub record IsTracked (m : ℕ) (unborn : Bool) (row : Option Delivery) (flight : Option Flight)
    (sent lost waiting flying : ℕ) : Type 0 where
  pub busy : waiting + flying ≤ 1
  pub row_ok : RowOk m unborn row sent lost waiting flying
  pub flight_ok : FlightOk flight row flying

abbrev pub delivery_key : Delivery → ℕ
delivery_key d = d.id

-- What is seen of the delivery `k`.
abbrev pub Tracks : ℕ → ℕ → Service → Type 0
Tracks m k s =
    IsTracked m (leb s.next_id k) (fetch delivery_key k s.deliveries)
      (fetch flight_key k s.in_flight) (tally k s.sent) (tally k s.lost) (tally k s.waiting)
      (tally k (flying s.in_flight))

pub flying-without :
    (k j : ℕ) (fs : List Flight)
    → tally k (flying (without j fs)) ≡ (if j == k then 0 else tally k (flying fs))
unfolding flying without
flying-without k j [] = ground arith
flying-without k j (f ∷ rest) = ground (arith, flying-without k j rest)

pub fetch-without :
    (k j : ℕ) (fs : List Flight)
    → fetch flight_key k (without j fs) ≡ (if j == k then none else fetch flight_key k fs)
unfolding without
fetch-without k j [] = ground arith
fetch-without k j (f ∷ rest) = ground (arith, fetch-without k j rest)

-- What a balance says, and what it takes.
pub Balance-of :
    (st : DeliveryStatus) (a s l w f : ℕ)
    → Balance st a s l w f
    → ((st ≡ pending) × (s + 1 ≡ a + l + f)) ⊎ ((is_pending st ≡ false) × (w + f ≡ 0) × (s ≤ a + l))
Balance-of pending a s l w f h = inl (refl, h)
Balance-of delivered a s l w f h = inr (refl, h.0, h.1)
Balance-of failed_permanent a s l w f h = inr (refl, h.0, h.1)

pub Balance-pending :
    (st : DeliveryStatus) (a s l w f : ℕ) → st ≡ pending → s + 1 ≡ a + l + f → Balance st a s l w f
Balance-pending st a s l w f e h = rw e h

pub Balance-final :
    (st : DeliveryStatus) (a s l w f : ℕ)
    → is_pending st ≡ false
    → w + f ≡ 0
    → s ≤ a + l
    → Balance st a s l w f
Balance-final pending a s l w f e z h = cc
Balance-final delivered a s l w f e z h = (z, h)
Balance-final failed_permanent a s l w f e z h = (z, h)

-- With something under way the row is pending.
pub pending_of :
    (st : DeliveryStatus) (a s l w f : ℕ)
    → Balance st a s l w f
    → 1 ≤ w + f
    → (st ≡ pending) × (s + 1 ≡ a + l + f)
pending_of pending a s l w f h i = (refl, h)
pending_of delivered a s l w f h i = absurd (omega (arith, h.0, i))
pending_of failed_permanent a s l w f h i = absurd (omega (arith, h.0, i))

pub Balance-queued :
    (st : DeliveryStatus) (a s l w v f : ℕ)
    → is_pending st ≡ true
    → Balance st a s l w f
    → Balance st a s l v f
Balance-queued pending a s l w v f q h = h
Balance-queued delivered a s l w v f q h = cc
Balance-queued failed_permanent a s l w v f q h = cc

pub Balance-restarted :
    (st : DeliveryStatus) (a s l w f : ℕ) → Balance st a s l w f → Balance st a s (f + l) 0 0
Balance-restarted pending a s l w f h = omega (arith, h)
Balance-restarted delivered a s l w f h = omega (arith, h.0, h.1)
Balance-restarted failed_permanent a s l w f h = omega (arith, h.0, h.1)
