-- ===== src/RedisClient/Availability.antt =====
-- api/redis_client.py: when the client reports Redis as available.
use vlog.Prelude.{
  ℕ, Bool, true, false, Option, none, some, List, [], ◌∷◌, ◌≡◌, ◌≢◌, ◌≤◌, ◌<◌, ◌+◌, ◌*◌, ◌-◌, ◌^◌,
  min, zero, suc, refl, arith, if◌then◌else◌,
}
use vlog.RedisClient.Breaker.{
  RedisClient, second, max_consecutive_failures, is_available, backoff, record_failure,
  record_success, Outcome, done, redis_error, other_error, Answer, from_fallback, execute,
  execute_with_fallback, health_check, checked_recently, initialize, Call, available, execution,
  check, closing, close, call, calls,
}

-- The invariant of the breaker: failures are capped, a healthy client has none and a closed circuit,
-- and an open circuit has a time to close and at least three failures behind it.
pub record IsConsistent (c : RedisClient) : Type 0 where
  pub capped : c.consecutive_failures ≤ max_consecutive_failures
  pub sound : c.healthy ≡ true → (c.consecutive_failures ≡ 0) × (c.circuit_open ≡ false)
  pub opened : c.circuit_open ≡ true → (c.circuit_open_until ≢ none) × (3 ≤ c.consecutive_failures)

is_available-IsConsistent :
    (now : ℕ) (c : RedisClient) → IsConsistent c → IsConsistent (is_available now c).0
unfolding is_available
is_available-IsConsistent now c h = record {
  capped = ground (arith, h.capped);
  sound = λ e. ground (arith, h.sound);
  opened = λ e. ground (arith, h.opened);
}

record_failure-IsConsistent :
    (now d : ℕ) (c : RedisClient) → IsConsistent c → IsConsistent (record_failure now d c)
unfolding record_failure
record_failure-IsConsistent now d c h = record {
  capped = ground (arith, h.capped);
  sound = λ e. ground arith;
  opened = λ e. ground (arith, h.opened);
}

record_success-IsConsistent : (c : RedisClient) → IsConsistent (record_success c)
unfolding record_success
record_success-IsConsistent c = record {
  capped = omega arith;
  sound = λ e. (refl, refl);
  opened = λ e. cc;
}

execute-IsConsistent :
    (o : Outcome) (c : RedisClient) → IsConsistent c → IsConsistent (execute o c).0
unfolding execute
execute-IsConsistent done c h = record_success-IsConsistent c
execute-IsConsistent (redis_error now d) c h = record_failure-IsConsistent now d c h
execute-IsConsistent other_error c h = h

scaled : (b k : ℕ) → b ≤ 300 → b * k ≤ 300 * k
scaled b zero h = omega arith
scaled b (suc k) h = omega (arith, scaled b k h)

-- The backoff that a failure sets, over all draws of the jitter: at least 30 seconds and less than
-- 360 seconds.
pub backoff-bounds :
    (failures d : ℕ)
    → d < 1000
    → (30 * second ≤ backoff failures d) × (backoff failures d < 360 * second)
unfolding backoff
backoff-bounds failures d h =
    let b = min 300 (30 * 2 ^ (failures - 3)) in
    omega (arith, scaled b (8000 + 4 * d) (omega arith))

-- Once the client is unhealthy, no call of `execute_with_fallback` reaches Redis, at any time and also
-- after the circuit has closed: the answer is the fallback's and the client stays unhealthy with the
-- failures that it had.
pub execute_with_fallback-unhealthy :
    (now : ℕ) (o : Outcome) (c : RedisClient)
    → c.healthy ≡ false
    → ((execute_with_fallback now o c).1 ≡ from_fallback)
      × ((execute_with_fallback now o c).0.healthy ≡ false)
      × ((execute_with_fallback now o c).0.consecutive_failures ≡ c.consecutive_failures)
unfolding execute_with_fallback is_available
execute_with_fallback-unhealthy now o c h = ground arith

pinged-IsConsistent :
    (interval now later : ℕ) (failed : Option (ℕ × ℕ)) (c : RedisClient)
    → IsConsistent c
    → IsConsistent (health_check interval now later failed c).0
unfolding health_check record_success
pinged-IsConsistent interval now later none c h = record {
  capped = ground (arith, h.capped);
  sound = λ e. ground (arith, h.sound);
  opened = λ e. ground (arith, h.opened);
}
pinged-IsConsistent interval now later (some (t, d)) c h =
    let i = record_failure-IsConsistent t d c h in
    record {
      capped = ground (arith, h.capped, i.capped);
      sound = λ e. ground (arith, h.sound, i.sound);
      opened = λ e. ground (arith, h.opened, i.opened);
    }

either-IsConsistent :
    (b : Bool) (x y : RedisClient × Answer)
    → IsConsistent x.0
    → IsConsistent y.0
    → IsConsistent (if b then x else y).0
either-IsConsistent true x y h i = h
either-IsConsistent false x y h i = i

execution-IsConsistent :
    (now : ℕ) (o : Outcome) (c : RedisClient)
    → IsConsistent c
    → IsConsistent (execute_with_fallback now o c).0
unfolding execute_with_fallback
execution-IsConsistent now o c h =
    let a = is_available-IsConsistent now c h in
    let i = execute-IsConsistent o (is_available now c).0 a in
    either-IsConsistent (is_available now c).1 (execute o (is_available now c).0)
      ((is_available now c).0, from_fallback) i a

call-IsConsistent : (x : Call) (c : RedisClient) → IsConsistent c → IsConsistent (call x c)
unfolding call close
call-IsConsistent (available now) c h = is_available-IsConsistent now c h
call-IsConsistent (execution now o) c h = execution-IsConsistent now o c h
call-IsConsistent (check interval now later failed) c h =
    pinged-IsConsistent interval now later failed c h
call-IsConsistent closing c h = record {
  capped = h.capped;
  sound = λ e. ground arith;
  opened = h.opened;
}

calls-IsConsistent : (xs : List Call) (c : RedisClient) → IsConsistent c → IsConsistent (calls xs c)
unfolding calls
calls-IsConsistent [] c h = h
calls-IsConsistent (x ∷ rest) c h = calls-IsConsistent rest (call x c) (call-IsConsistent x c h)

-- After `_initialize` and any calls, with any outcomes at any times: at most ten failures are counted,
-- a healthy client has no failures and a closed circuit, and an open circuit has a time to close and
-- at least three failures.
pub initialize-IsConsistent :
    (configured ping_ok : Bool) (start : ℕ) (xs : List Call)
    → IsConsistent (calls xs (initialize configured ping_ok start))
unfolding initialize
initialize-IsConsistent configured ping_ok start xs =
    calls-IsConsistent xs (initialize configured ping_ok start)
      (record { capped = omega arith; sound = λ e. (refl, refl); opened = λ e. cc })

-- A failure that opens the circuit closes Redis off: `is_available` answers no, and changes nothing,
-- until 30 seconds after the failure at least, whatever the jitter; a ping that succeeds makes it
-- answer yes at any time.
pub is_available-backoff :
    (now d later interval t1 t2 : ℕ) (c : RedisClient)
    → d < 1000
    → c.connected ≡ true
    → 2 ≤ c.consecutive_failures
    → later < now + 30 * second
    → checked_recently interval t1 c.last_health_check ≡ false
    → (is_available later (record_failure now d c) ≡ (record_failure now d c, false))
      × ((is_available later (health_check interval t1 t2 none (record_failure now d c)).0).1
          ≡ true)
unfolding is_available record_failure health_check record_success
is_available-backoff now d later interval t1 t2 c p q r s u =
    ground
      (arith, (backoff-bounds (min (c.consecutive_failures + 1) max_consecutive_failures) d p).0)
