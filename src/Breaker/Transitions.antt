-- ===== src/Breaker/Transitions.antt =====
-- The transition diagram of the breaker, and what `setState` publishes (circuitbreaker.go).
use go_httpclient.Shared.{
  ℕ, ◌+◌, ◌%◌, ◌^◌, ◌≡◌, Bool, true, false, Option, none, some, arith, if◌then◌else◌,
}
use go_httpclient.Shared.Int.{ℤ, ◌-ℤ◌, ◌≤ℤ◌, sat64}
use go_httpclient.Breaker.{
  CircuitState, closed, opened, half_open, CircuitBreaker, StateTransition, try_admit,
  apply_verdict,
}

-- The arrows of the diagram.
pub data Arrow : CircuitState → CircuitState → Type 0 where
  trips : Arrow closed opened
  probes : Arrow opened half_open
  reopens : Arrow half_open opened
  recovers : Arrow half_open closed

-- What a locked section did, given the transition that it reports: nothing to the state or the
-- generation; or one arrow, one generation on, reported if `OnStateChange` is set.
pub data Moves (cb : CircuitBreaker) (t : Option StateTransition) (cb' : CircuitBreaker)
    : Type 0 where
  stays : t ≡ none → cb'.state ≡ cb.state → cb'.generation ≡ cb.generation → Moves cb t cb'
  goes :
      Arrow cb.state cb'.state
      → cb'.generation ≡ (cb.generation + 1) % 2 ^ 64
      → t ≡ (
          if cb.cfg.on_state_change
          then some (record { from = cb.state; to = cb'.state })
          else none)
      → Moves cb t cb'

try_admit-Moves :
    (now : ℤ) (cb : CircuitBreaker) → Moves cb (try_admit now cb).0.transition (try_admit now cb).1
unfolding try_admit
try_admit-Moves now cb = grind (arith, stays, goes, trips, probes, reopens, recovers)

apply_verdict-Moves :
    (now : ℤ) (is_failure : Bool) (gen : ℕ) (cb : CircuitBreaker)
    → Moves cb (apply_verdict now is_failure gen cb).0 (apply_verdict now is_failure gen cb).1
unfolding apply_verdict
apply_verdict-Moves now is_failure gen cb =
    grind (arith, stays, goes, trips, probes, reopens, recovers)

-- Both locked sections keep to the diagram: closed to open, open to half open, half open to open or
-- to closed, and no other change of state. Every change moves the generation on by one (mod 2^64)
-- and is reported, with its two states, exactly if `OnStateChange` is set; nothing else is
-- reported.
pub follows_diagram :
    (now : ℤ) (is_failure : Bool) (gen : ℕ) (cb : CircuitBreaker)
    → Moves cb (try_admit now cb).0.transition (try_admit now cb).1
      × Moves cb (apply_verdict now is_failure gen cb).0 (apply_verdict now is_failure gen cb).1
follows_diagram now is_failure gen cb =
    (try_admit-Moves now cb, apply_verdict-Moves now is_failure gen cb)

-- An open breaker lets a request through exactly if the reset timeout has passed since its last
-- failure, and is half open then, with that request as its one probe and no success counted; else
-- it refuses and is left as it was.
pub open_admission :
    (now : ℤ) (cb : CircuitBreaker)
    → cb.state ≡ opened
    → (cb.cfg.reset_timeout ≤ℤ sat64 (now -ℤ cb.last_failure_time)
        → ((try_admit now cb).0.admitted ≡ true)
          × ((try_admit now cb).1.state ≡ half_open)
          × ((try_admit now cb).1.half_open_in_flight ≡ 1)
          × ((try_admit now cb).1.half_open_success ≡ 0))
      × (¬ (cb.cfg.reset_timeout ≤ℤ sat64 (now -ℤ cb.last_failure_time))
          → ((try_admit now cb).0.admitted ≡ false) × ((try_admit now cb).1 ≡ cb))
unfolding try_admit
open_admission now cb h = ground arith
