-- ===== src/Tests/RedisClient.antt =====
-- api/redis_client.py: a client that fails three times.
use vlog.Prelude.{true, false, none, some, [], ◌∷◌, ◌≡◌, refl}
use vlog.RedisClient.Breaker.{
  RedisClient, backoff, record_failure, redis_error, initialize, execution, check, calls,
}
use vlog.RedisClient.Availability.{IsConsistent, initialize-IsConsistent}

abbrev failing : RedisClient
failing = record {
  connected = true;
  healthy = false;
  last_health_check = none;
  consecutive_failures = 2;
  circuit_open = false;
  circuit_open_until = none;
}

program : Unit {0}
unfolding calls initialize record_failure
program = tt

-- The longest backoff, of 300 seconds, with the jitter's largest draw.
longest : backoff 10 999 ≡ 3598800
unfolding program
longest = refl

-- The circuit opens at the third failure; the second and third are failed health checks.
opened :
    (calls
      (execution 0 (redis_error 0 500)
        ∷ check 5 50 0 (some (51, 500))
        ∷ check 5 60 0 (some (61, 500))
        ∷ [])
      (initialize true true 0)).circuit_open
    ≡ true
unfolding program
opened = refl

initialize-IsConsistent_example :
    IsConsistent (calls (execution 0 (redis_error 0 500) ∷ []) (initialize true true 0))
initialize-IsConsistent_example =
    initialize-IsConsistent true true 0 (execution 0 (redis_error 0 500) ∷ [])
