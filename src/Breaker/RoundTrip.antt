-- ===== src/Breaker/RoundTrip.antt =====
-- circuitbreaker.go from `publish` to the end, without the locked sections: the middleware over a
-- breaker that a pointer leads to. `SharedCircuitBreaker` is such a pointer.
use go_httpclient.Shared.{ℕ, Bool, Option, none, some, if◌then◌else◌, update}
use go_httpclient.Http.Error.{Err}
use go_httpclient.Http.Message.{Outcome, refuse}
use go_httpclient.Http.World.{
  World, RoundTripper, Middleware, emit, state_changed, close_request_body,
}
use go_httpclient.Breaker.{
  CircuitState, CircuitBreakerConfig, CircuitBreaker, StateTransition, new_circuit_breaker,
  try_admit, apply_result,
}

-- `publish`: a call of `OnStateChange`. A transition is reported only where that is set.
unfoldable pub publish : Option StateTransition → World → World
publish none w = w
publish (some t) w = emit (state_changed t) w

abbrev pub put : ℕ → CircuitBreaker → World → World
put p cb w = record w { breakers = update w.breakers p cb }

-- `allowRequest`
unfoldable pub allow_request : ℕ → World → Bool × ℕ × World
allow_request p w =
    let (a, cb) = try_admit w.now (w.breakers p) in
    (a.admitted, a.gen, publish a.transition (put p cb w))

-- `recordResult`
unfoldable pub record_result : ℕ → Outcome → ℕ → World → World
record_result p o gen w =
    let (t, cb) = apply_result w.now o gen (w.breakers p) in publish t (put p cb w)

-- `circuitBreakerRoundTripper.RoundTrip`, over the breaker at `p`.
unfoldable pub round_trip : ℕ → RoundTripper → RoundTripper
round_trip p next req w =
    let (allowed, gen, w1) = allow_request p w in
    if allowed
    then (let (o, w2) = next req w1 in (o, record_result p o gen w2))
    else (refuse Err.circuit_open, close_request_body req w1)

-- `State`, of a breaker and of a shared one.
unfoldable pub state : ℕ → World → CircuitState
state p w = (w.breakers p).state

-- `NewCircuitBreaker`: a breaker at a pointer that nothing else uses.
unfoldable pub new_shared : CircuitBreakerConfig → ℕ → World → World
new_shared cfg p w = put p (new_circuit_breaker cfg) w

-- `SharedCircuitBreaker.Middleware`: every application uses the one breaker.
unfoldable pub shared_middleware : ℕ → Middleware
shared_middleware p next = round_trip p next

-- `CircuitBreaker`: each application makes a breaker of its own, at `p`.
unfoldable pub circuit_breaker :
    CircuitBreakerConfig → ℕ → RoundTripper → World → RoundTripper × World
circuit_breaker cfg p next w = (round_trip p next, new_shared cfg p w)

-- `CircuitBreakerWithState`: the middleware and the handle, which is the pointer.
unfoldable pub circuit_breaker_with_state :
    CircuitBreakerConfig → ℕ → World → Middleware × ℕ × World
circuit_breaker_with_state cfg p w = (shared_middleware p, p, new_shared cfg p w)
