-- ===== src/Breaker/Invariant.antt =====
-- What holds of a breaker between two locked sections (circuitbreaker.go), however many goroutines
-- use it.
use go_httpclient.Shared.{ℕ, ◌^◌, ◌≤◌, ◌<◌, ◌≡◌, Bool, arith}
use go_httpclient.Shared.Int.{ℤ}
use go_httpclient.Breaker.{
  closed, opened, half_open, CircuitBreakerConfig, CircuitBreaker, new_circuit_breaker, try_admit,
  apply_verdict,
}

pub record IsValid (cb : CircuitBreaker) : Type 0 where
  pub threshold_pos : 0 < cb.cfg.failure_threshold
  pub probes_pos : 0 < cb.cfg.max_half_open_requests
  pub success_pos : 0 < cb.cfg.success_threshold
  pub generation_fits : cb.generation < 2 ^ 64
  -- a closed breaker has counted fewer failures than open it, and no probe
  pub closed_failures : cb.state ≡ closed → cb.failures < cb.cfg.failure_threshold
  pub closed_probes : cb.state ≡ closed → cb.half_open_in_flight ≡ 0
  -- an open breaker has counted exactly the failures that open it
  pub open_failures : cb.state ≡ opened → cb.failures ≡ cb.cfg.failure_threshold
  pub open_probes : cb.state ≡ opened → cb.half_open_in_flight ≡ 0
  -- a half-open breaker has not seen the successes that close it, and keeps to its probes
  pub half_open_successes : cb.state ≡ half_open → cb.half_open_success < cb.cfg.success_threshold
  pub half_open_probes : cb.half_open_in_flight ≤ cb.cfg.max_half_open_requests

pub new_circuit_breaker-IsValid : (cfg : CircuitBreakerConfig) → IsValid (new_circuit_breaker cfg)
unfolding new_circuit_breaker
new_circuit_breaker-IsValid cfg = ground arith

pub try_admit-IsValid : (now : ℤ) (cb : CircuitBreaker) → IsValid cb → IsValid (try_admit now cb).1
unfolding try_admit
try_admit-IsValid now cb v = ground arith

pub apply_verdict-IsValid :
    (now : ℤ) (is_failure : Bool) (gen : ℕ) (cb : CircuitBreaker)
    → IsValid cb
    → IsValid (apply_verdict now is_failure gen cb).1
unfolding apply_verdict
apply_verdict-IsValid now is_failure gen cb v = ground arith

-- A new breaker is well formed, and both locked sections keep a breaker so, whatever the clock, the
-- verdict and the generation of the result that lands.
pub locked_sections-IsValid :
    (cfg : CircuitBreakerConfig) (now : ℤ) (is_failure : Bool) (gen : ℕ) (cb : CircuitBreaker)
    → IsValid cb
    → IsValid (new_circuit_breaker cfg)
      × IsValid (try_admit now cb).1
      × IsValid (apply_verdict now is_failure gen cb).1
locked_sections-IsValid cfg now is_failure gen cb valid = (
  new_circuit_breaker-IsValid cfg,
  try_admit-IsValid now cb valid,
  apply_verdict-IsValid now is_failure gen cb valid,
)
