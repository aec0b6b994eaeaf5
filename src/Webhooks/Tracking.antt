-- ===== src/Webhooks/Tracking.antt =====
-- api/webhook_service.py: the invariant of one delivery, by what can be seen of it.
use vlog.Prelude.{
  ℕ, suc, Bool, true, false, Option, none, some, ◌≡◌, ◌≤◌, ◌<◌, ◌+◌, refl, sym, ◌∙◌, arith, inl,
  inr,
}
use vlog.Webhooks.Schema.{pending, Delivery, Flight}
use vlog.Webhooks.Service.{is_pending}
use vlog.Webhooks.Balances.{
  IsTracked, FlightOk, Balance-of, Balance-pending, Balance-final, pending_of, Balance-queued,
  Balance-restarted,
}

-- How each kind of event moves a delivery from its row `d` to a row `e`.
module _ (m : ℕ) (u : Bool) (d e : Delivery) (s l w : ℕ) where
  -- The times of the row change, and no more.
  pub rescheduled :
      (fl : Option Flight) (f : ℕ)
      → e.status ≡ d.status
      → e.attempt_number ≡ d.attempt_number
      → IsTracked m u (some d) fl s l w f
      → IsTracked m u (some e) fl s l w f
  rescheduled none f q a h = record {
    busy = h.busy;
    row_ok = rw (q, a) h.row_ok;
    flight_ok = h.flight_ok;
  }
  rescheduled (some x) f q a h = record {
    busy = h.busy;
    row_ok = rw (q, a) h.row_ok;
    flight_ok = ground (arith, h.flight_ok);
  }

  -- The delivery leaves the queue with its row as it was, up to its times.
  pub dequeued :
      (fl : Option Flight) (f : ℕ)
      → e.status ≡ d.status
      → e.attempt_number ≡ d.attempt_number
      → IsTracked m u (some d) fl s l (suc w) f
      → IsTracked m u (some e) fl s l w f
  dequeued fl f q a h =
      let b = pending_of d.status d.attempt_number s l (suc w) f h.row_ok.0 (omega arith) in
      rescheduled fl f q a (record {
        busy = omega (arith, h.busy);
        row_ok = (
          Balance-pending d.status d.attempt_number s l w f b.0 b.1,
          h.row_ok.1,
          h.row_ok.2,
          h.row_ok.3,
        );
        flight_ok = h.flight_ok;
      })

  -- It leaves the queue for good.
  pub refused :
      (fl : Option Flight) (f : ℕ)
      → is_pending e.status ≡ false
      → e.attempt_number ≡ d.attempt_number
      → IsTracked m u (some d) fl s l (suc w) f
      → IsTracked m u (some e) fl s l w f
  refused none f q a h =
      let b = pending_of d.status d.attempt_number s l (suc w) f h.row_ok.0 (omega arith) in
      record {
        busy = omega (arith, h.busy);
        row_ok = (
          Balance-final e.status e.attempt_number s l w f q (omega (arith, h.busy))
              (omega (arith, a, b.1, h.busy)),
          omega (arith, a, h.row_ok.1),
          omega (arith, a, h.row_ok.2),
          h.row_ok.3,
        );
        flight_ok = h.flight_ok;
      }
  refused (some x) f q a h = absurd (omega (arith, h.flight_ok.0, h.busy))

  -- Its request is sent.
  pub launched :
      (fl : Option Flight) (x : Flight) (f : ℕ)
      → x.delivery.attempt_number ≡ d.attempt_number
      → IsTracked m u (some d) fl s l (suc w) f
      → IsTracked m u (some d) (some x) (suc s) l w (suc f)
  launched fl x f q h =
      let b = pending_of d.status d.attempt_number s l (suc w) f h.row_ok.0 (omega arith) in
      record {
        busy = omega (arith, h.busy);
        row_ok = (
          Balance-pending d.status d.attempt_number (suc s) l w (suc f) b.0 (omega (arith, b.1)),
          h.row_ok.1,
          h.row_ok.2,
          h.row_ok.3,
        );
        flight_ok = (omega (arith, h.busy), sym q);
      }

  -- The request has failed with attempts left.
  pub retried :
      (x : Flight) (f : ℕ)
      → e.status ≡ d.status
      → e.attempt_number ≡ x.delivery.attempt_number + 1
      → x.delivery.attempt_number < m
      → IsTracked m u (some d) (some x) s l w f
      → IsTracked m u (some e) none s l w 0
  retried x f q a lt h =
      let b =
        pending_of d.status d.attempt_number s l w f h.row_ok.0 (omega (arith, h.flight_ok.0)) in
      record {
        busy = omega (arith, h.busy);
        row_ok = (
          Balance-pending e.status e.attempt_number s l w 0 (q ∙ b.0)
              (omega (arith, b.1, a, h.flight_ok.0, h.flight_ok.1)),
          omega (arith, a),
          omega (arith, a, lt),
          h.row_ok.3,
        );
        flight_ok = refl;
      }

  -- The request was the last.
  pub ended :
      (x : Flight) (f : ℕ)
      → is_pending e.status ≡ false
      → e.attempt_number ≡ d.attempt_number
      → IsTracked m u (some d) (some x) s l w f
      → IsTracked m u (some e) none s l w 0
  ended x f q a h =
      let b =
        pending_of d.status d.attempt_number s l w f h.row_ok.0 (omega (arith, h.flight_ok.0)) in
      record {
        busy = omega (arith, h.busy);
        row_ok = (
          Balance-final e.status e.attempt_number s l w 0 q (omega (arith, h.busy, h.flight_ok.0))
              (omega (arith, b.1, a, h.flight_ok.0)),
          omega (arith, a, h.row_ok.1),
          omega (arith, a, h.row_ok.2),
          h.row_ok.3,
        );
        flight_ok = refl;
      }

  -- It enters the queue.
  pub queued :
      (fl : Option Flight) (f v : ℕ)
      → is_pending d.status ≡ true
      → w + f ≡ 0
      → v ≤ 1
      → IsTracked m u (some d) fl s l w f
      → IsTracked m u (some d) fl s l v f
  queued fl f v q z u h = record {
    busy = omega (arith, z, u);
    row_ok = (
      Balance-queued d.status d.attempt_number s l w v f q h.row_ok.0,
      h.row_ok.1,
      h.row_ok.2,
      h.row_ok.3,
    );
    flight_ok = h.flight_ok;
  }

-- The result of its request is lost, or the process ends.
pub lost_result :
    (m : ℕ) (u : Bool) (row : Option Delivery) (x : Flight) (s l w f : ℕ)
    → IsTracked m u row (some x) s l w f
    → IsTracked m u row none s (suc l) w 0
lost_result m u none x s l w f h = absurd h.flight_ok
lost_result m u (some d) x s l w f h =
    let b =
      pending_of d.status d.attempt_number s l w f h.row_ok.0 (omega (arith, h.flight_ok.0)) in
    record {
      busy = omega (arith, h.busy);
      row_ok = (
        Balance-pending d.status d.attempt_number s (suc l) w 0 b.0
            (omega (arith, b.1, h.flight_ok.0)),
        h.row_ok.1,
        h.row_ok.2,
        h.row_ok.3,
      );
      flight_ok = refl;
    }

pub restarted :
    (m : ℕ) (u : Bool) (row : Option Delivery) (fl : Option Flight) (s l w f : ℕ)
    → IsTracked m u row fl s l w f
    → IsTracked m u row none s (f + l) 0 0
restarted m u none fl s l w f h = record {
  busy = omega arith;
  row_ok = (refl, λ e. omega (arith, h.row_ok.0, h.row_ok.1 e));
  flight_ok = refl;
}
restarted m u (some d) fl s l w f h = record {
  busy = omega arith;
  row_ok = (
    Balance-restarted d.status d.attempt_number s l w f h.row_ok.0,
    h.row_ok.1,
    h.row_ok.2,
    h.row_ok.3,
  );
  flight_ok = refl;
}

-- The row of a delivery at its end is deleted.
pub cleaned :
    (m : ℕ) (u : Bool) (d : Delivery) (fl : Option Flight) (s l w f : ℕ)
    → is_pending d.status ≡ false
    → IsTracked m u (some d) fl s l w f
    → IsTracked m u none fl s l w f
cleaned m u d fl s l w f q h = elim (Balance-of d.status d.attempt_number s l w f h.row_ok.0) [
  | inl p ↦ let both : is_pending pending ≡ false = rw (p.0) at q in cc
  | inr p ↦ record {
    busy = h.busy;
    row_ok = (p.1, λ e. absurd (true_false (sym e ∙ h.row_ok.3)));
    flight_ok = no_flight fl d f h.flight_ok (omega (arith, p.1));
  }
]
  where
    true_false : true ≡ false → ⊥
    true_false e = cc

    no_flight :
        (fl : Option Flight) (d : Delivery) (f : ℕ)
        → FlightOk fl (some d) f
        → f ≡ 0
        → FlightOk fl none f
    no_flight none d f g z = g
    no_flight (some x) d f g z = omega (arith, g.0, z)
