-- ===== src/RedisClient/Breaker.antt =====
-- api/redis_client.py: the class RedisClient. Times are in units of 100 microseconds, and the random
-- draw of the jitter in thousandths, so that the backoff with its jitter is a whole number.
use vlog.Prelude.{
  ℕ, Bool, true, false, Option, none, some, List, [], ◌∷◌, ◌+◌, ◌-◌, ◌*◌, ◌^◌, ◌&&◌, min, max,
  if◌then◌else◌, ltb, leb,
}

abbrev pub second : ℕ
second = 10000

abbrev pub max_consecutive_failures : ℕ
max_consecutive_failures = 10

-- `connected`: a URL is configured and the client object exists.
pub record RedisClient : Type 0 where
  pub connected : Bool
  pub healthy : Bool
  pub last_health_check : Option ℕ
  pub consecutive_failures : ℕ
  pub circuit_open : Bool
  pub circuit_open_until : Option ℕ

-- `now < self._circuit_open_until`, if that is set.
abbrev pub is_before : ℕ → Option ℕ → Bool
is_before now none = false
is_before now (some t) = ltb now t

-- The property `is_available`, which closes a circuit whose time has passed.
unfoldable pub is_available : ℕ → RedisClient → RedisClient × Bool
is_available now c =
    if c.connected
    then (if c.circuit_open && is_before now c.circuit_open_until
        then (c, false)
        else (record c { circuit_open = false }, c.healthy))
    else (c, false)

-- `backoff + jitter`, where the draw `d` of [0, 1) is `d` thousandths: the backoff times
-- 0.8 + 0.4 * d.
unfoldable pub backoff : ℕ → ℕ → ℕ
backoff failures d = max (30 * second) (min 300 (30 * 2 ^ (failures - 3)) * (8000 + 4 * d))

unfoldable pub record_failure : ℕ → ℕ → RedisClient → RedisClient
unfolding backoff
record_failure now d c =
    let failures = min (c.consecutive_failures + 1) max_consecutive_failures in
    if leb 3 failures
    then record c {
      consecutive_failures = failures;
      healthy = false;
      circuit_open = true;
      circuit_open_until = some (now + backoff failures d);
    }
    else record c { consecutive_failures = failures; healthy = false }

unfoldable pub record_success : RedisClient → RedisClient
record_success c = record c {
  consecutive_failures = 0;
  healthy = true;
  circuit_open = false;
  circuit_open_until = none;
}

-- How the call of Redis ends: with a result, with a RedisError at a time and a draw, or with another
-- exception, which leaves `execute_with_fallback`.
pub data Outcome : Type 0 where
  done : Outcome
  redis_error : ℕ → ℕ → Outcome
  other_error : Outcome

pub data Answer : Type 0 where
  from_redis from_fallback raised : Answer

unfoldable pub execute : Outcome → RedisClient → RedisClient × Answer
unfolding record_failure record_success
execute done c = (record_success c, from_redis)
execute (redis_error now d) c = (record_failure now d c, from_fallback)
execute other_error c = (c, raised)

unfoldable pub execute_with_fallback : ℕ → Outcome → RedisClient → RedisClient × Answer
unfolding is_available execute
execute_with_fallback now o c =
    let (c', available) = is_available now c in
    if available then execute o c' else (c', from_fallback)

abbrev pub checked_recently : ℕ → ℕ → Option ℕ → Bool
checked_recently interval now none = false
checked_recently interval now (some t) = ltb (now - t) interval

-- The ping succeeds, or fails at a time and a draw; the check reads the clock again at `later`.
unfoldable pub health_check : ℕ → ℕ → ℕ → Option (ℕ × ℕ) → RedisClient → RedisClient × Bool
unfolding record_failure record_success
health_check interval now later failed c =
    if c.connected
    then (if checked_recently interval now c.last_health_check
        then (c, c.healthy)
        else pinged failed)
    else (c, false)
  where
    pinged : Option (ℕ × ℕ) → RedisClient × Bool
    pinged none = (record (record_success c) { last_health_check = some later }, true)
    pinged (some (t, d)) = (record_failure t d c, false)

-- `__init__` and `_initialize`; `configured`: the URL is set and the pool could be made.
unfoldable pub initialize : Bool → Bool → ℕ → RedisClient
initialize configured ping_ok now = record {
  connected = configured;
  healthy = configured && ping_ok;
  last_health_check = if configured && ping_ok then some now else none;
  consecutive_failures = 0;
  circuit_open = false;
  circuit_open_until = none;
}

unfoldable pub close : RedisClient → RedisClient
close c = record c { connected = false; healthy = false }

pub data Call : Type 0 where
  available : ℕ → Call
  execution : ℕ → Outcome → Call
  check : ℕ → ℕ → ℕ → Option (ℕ × ℕ) → Call
  closing : Call

unfoldable pub call : Call → RedisClient → RedisClient
unfolding is_available execute_with_fallback health_check close
call (available now) c = (is_available now c).0
call (execution now o) c = (execute_with_fallback now o c).0
call (check interval now later failed) c = (health_check interval now later failed c).0
call closing c = close c

unfoldable pub calls : List Call → RedisClient → RedisClient
unfolding call
calls [] c = c
calls (x ∷ rest) c = calls rest (call x c)
