-- ===== src/Webhooks/Breaking.antt =====
-- api/webhook_service.py: when the circuit of a webhook is open.
use vlog.Prelude.{
  ℕ, suc, false, Option, none, some, List, [], ◌∷◌, ◌≡◌, ◌+◌, ◌&&◌, ◌==◌, refl, ap, ◌∙◌, arith,
  if◌then◌else◌, ltb, leb, length,
}
use vlog.Prelude.Tables.{fetch, fetch-update_where, fetch-update_key, fetch_here}
use vlog.Webhooks.Schema.{Circuit}
use vlog.Webhooks.Circuits.{
  circuit_breaker_threshold, circuit_breaker_reset_time, circuit_key, is_circuit_open,
  ensure_circuit, add_failure, record_circuit_failure, reset_circuit, record_circuit_success,
}

-- Failures of a webhook at some times, the last first.
abbrev pub fail_at : ℕ → List ℕ → List Circuit → List Circuit
fail_at k [] cs = cs
fail_at k (t ∷ ts) cs = record_circuit_failure t k (fail_at k ts cs)

-- The circuit after so many failures, the last at a time.
abbrev after : ℕ → List ℕ → Option Circuit
after k [] = none
after k (t ∷ ts) = some (record {
  webhook_id = k;
  failures = suc (length ts);
  circuit_open_until =
      if leb circuit_breaker_threshold (suc (length ts))
      then some (t + circuit_breaker_reset_time)
      else none;
})

abbrev or_new : ℕ → Option Circuit → Circuit
or_new k none = record { webhook_id = k; failures = 0; circuit_open_until = none }
or_new k (some c) = c

add_failure-key : (t : ℕ) (c : Circuit) → circuit_key (add_failure t c) ≡ circuit_key c
unfolding add_failure
add_failure-key t c = refl

record_one :
    (k t : ℕ) (r : Option Circuit) (cs : List Circuit)
    → fetch circuit_key k cs ≡ r
    → fetch circuit_key k (record_circuit_failure t k cs) ≡ some (add_failure t (or_new k r))
unfolding record_circuit_failure ensure_circuit
record_one k t none cs h =
    rw (h, ensure_circuit)
      (fetch-update_key circuit_key k (add_failure t) (or_new k none ∷ cs) (or_new k none)
        (λ c. add_failure-key t c) (fetch_here circuit_key k (or_new k none) cs refl))
record_one k t (some c) cs h =
    rw (h, ensure_circuit)
      (fetch-update_key circuit_key k (add_failure t) cs c (λ c. add_failure-key t c) h)

-- The failure after some others.
counted :
    (k t : ℕ) (ts : List ℕ) → add_failure t (or_new k (after k ts)) ≡ or_new k (after k (t ∷ ts))
unfolding add_failure
counted k t [] = ground arith
counted k t (u ∷ ts) = ground arith

fail-after :
    (k : ℕ) (ts : List ℕ) (cs : List Circuit)
    → fetch circuit_key k cs ≡ none
    → fetch circuit_key k (fail_at k ts cs) ≡ after k ts
fail-after k [] cs h = h
fail-after k (t ∷ ts) cs h =
    record_one k t (after k ts) (fail_at k ts cs) (fail-after k ts cs h) ∙ ap some (counted k t ts)

reset-fetch :
    (k : ℕ) (r : Option Circuit) (cs : List Circuit)
    → fetch circuit_key k cs ≡ r
    → (now : ℕ) → is_circuit_open now k (record_circuit_success k cs) ≡ false
unfolding is_circuit_open record_circuit_success reset_circuit
reset-fetch k none cs h now =
    rw (fetch-update_where circuit_key (λ c. circuit_key c == k) reset_circuit (λ c. refl) k cs, h)
      refl
reset-fetch k (some c) cs h now =
    rw (fetch-update_key circuit_key k reset_circuit cs c (λ c. refl) h) refl

-- A webhook without a circuit that has failed some times in a row, the last at `t`: its circuit is
-- open at a time exactly if there were at least five failures and `t` is less than 300 seconds back;
-- and after a success it is closed at any time.
pub is_circuit_open-failures :
    (k t now : ℕ) (ts : List ℕ) (cs : List Circuit)
    → fetch circuit_key k cs ≡ none
    → (is_circuit_open now k (fail_at k (t ∷ ts) cs)
        ≡ (leb 5 (length (t ∷ ts)) && ltb now (t + circuit_breaker_reset_time)))
      × (is_circuit_open now k (record_circuit_success k (fail_at k (t ∷ ts) cs)) ≡ false)
unfolding is_circuit_open
is_circuit_open-failures k t now ts cs h = (
  rw (fail-after k (t ∷ ts) cs h) (ground arith),
  reset-fetch k _ (fail_at k (t ∷ ts) cs) refl now,
)
