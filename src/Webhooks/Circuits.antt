-- ===== src/Webhooks/Circuits.antt =====
-- api/webhook_service.py: the circuit breaker of a webhook.
use vlog.Prelude.{
  ℕ, Bool, false, Option, none, some, List, ◌∷◌, ◌+◌, ◌*◌, if◌then◌else◌, ltb, leb, is_some,
}
use vlog.Prelude.Tables.{fetch, update_key}
use vlog.Webhooks.Schema.{second, Circuit}

abbrev pub circuit_breaker_threshold : ℕ
circuit_breaker_threshold = 5

abbrev pub circuit_breaker_reset_time : ℕ
circuit_breaker_reset_time = 300 * second

abbrev pub circuit_key : Circuit → ℕ
circuit_key c = c.webhook_id

-- `now < t`, for a time that may be missing.
abbrev pub is_before : ℕ → Option ℕ → Bool
is_before now none = false
is_before now (some t) = ltb now t

abbrev pub open_in : ℕ → Option Circuit → Bool
open_in now none = false
open_in now (some c) = is_before now c.circuit_open_until

unfoldable pub is_circuit_open : ℕ → ℕ → List Circuit → Bool
is_circuit_open now k circuits = open_in now (fetch circuit_key k circuits)

unfoldable pub ensure_circuit : ℕ → List Circuit → List Circuit
ensure_circuit k circuits =
    if is_some (fetch circuit_key k circuits)
    then circuits
    else record { webhook_id = k; failures = 0; circuit_open_until = none } ∷ circuits

unfoldable pub add_failure : ℕ → Circuit → Circuit
add_failure now c = record c {
  failures = c.failures + 1;
  circuit_open_until =
      if leb circuit_breaker_threshold (c.failures + 1)
      then some (now + circuit_breaker_reset_time)
      else c.circuit_open_until;
}

unfoldable pub record_circuit_failure : ℕ → ℕ → List Circuit → List Circuit
unfolding ensure_circuit
record_circuit_failure now k circuits =
    update_key circuit_key k (add_failure now) (ensure_circuit k circuits)

unfoldable pub reset_circuit : Circuit → Circuit
reset_circuit c = record c { failures = 0; circuit_open_until = none }

unfoldable pub record_circuit_success : ℕ → List Circuit → List Circuit
record_circuit_success k circuits = update_key circuit_key k reset_circuit circuits
