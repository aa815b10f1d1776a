-- ===== src/Breaker/Recovery.antt =====
-- What a stream of requests, one after the other, does to a breaker (circuitbreaker.go): when it
-- trips, and that it recovers.
use go_httpclient.Shared.{
  suc, ◌+◌, ◌≤◌, ◌<◌, ◌≡◌, Bool, true, false, List, [], ◌∷◌, arith, length, if◌then◌else◌, ltb, inl,
  inr, Bool-cases,
}
use go_httpclient.Shared.Int.{ℤ, ◌-ℤ◌, ◌≤ℤ◌, sat64}
use go_httpclient.Breaker.{closed, opened, half_open, CircuitBreaker, try_admit, apply_verdict}
use go_httpclient.Breaker.Invariant.{IsValid, try_admit-IsValid, apply_verdict-IsValid}

-- A request that nothing overtakes: when it asks, when its result is recorded, and the verdict.
pub record Visit : Type 0 where
  pub asked : ℤ
  pub landed : ℤ
  pub is_failure : Bool

-- What `circuitBreakerRoundTripper.RoundTrip` does to its breaker, if nothing else uses it
-- meanwhile.
unfoldable pub visit : Visit → CircuitBreaker → CircuitBreaker
visit v cb =
    let (a, cb') = try_admit v.asked cb in
    if a.admitted then (apply_verdict v.landed v.is_failure a.gen cb').1 else cb'

unfoldable pub visits : List Visit → CircuitBreaker → CircuitBreaker
visits [] cb = cb
visits (v ∷ vs) cb = visits vs (visit v cb)

abbrev pub AllVerdicts : Bool → List Visit → Type 0
AllVerdicts b [] = Unit {0}
AllVerdicts b (v ∷ vs) = (v.is_failure ≡ b) × AllVerdicts b vs

failing_visit :
    (v : Visit) (cb : CircuitBreaker)
    → cb.state ≡ closed
    → v.is_failure ≡ true
    → (suc cb.failures < cb.cfg.failure_threshold
        → ((visit v cb).state ≡ closed)
          × ((visit v cb).failures ≡ suc cb.failures)
          × ((visit v cb).cfg ≡ cb.cfg))
      × (cb.cfg.failure_threshold ≤ suc cb.failures → (visit v cb).state ≡ opened)
unfolding visit try_admit apply_verdict
failing_visit v cb c f = ground arith

-- A closed breaker that has counted fewer failures than its threshold opens at the failure that
-- makes the count of consecutive failures reach the threshold, and not before: over a stream of
-- failures it is still closed while the count stays below the threshold, and open when the count is
-- exactly the threshold.
pub failures_trip :
    (vs : List Visit) (cb : CircuitBreaker)
    → cb.state ≡ closed
    → cb.failures < cb.cfg.failure_threshold
    → AllVerdicts true vs
    → (cb.failures + length vs < cb.cfg.failure_threshold → (visits vs cb).state ≡ closed)
      × (cb.failures + length vs ≡ cb.cfg.failure_threshold → (visits vs cb).state ≡ opened)
unfolding visits
failures_trip [] cb c below all = ground arith
failures_trip (v ∷ []) cb c below all = ground (arith, failing_visit v cb c all.0)
failures_trip (v ∷ w ∷ vs) cb c below all =
    let step = failing_visit v cb c all.0 in
    elim (Bool-cases (ltb (suc cb.failures) cb.cfg.failure_threshold)) [
      | inl more ↦
          let (c', n, same) = step.0 (ground arith) in
          let ih = failures_trip (w ∷ vs) (visit v cb) c' (ground arith) all.1 in ground arith
      | inr full ↦ ground arith
    ]

-- A success on a closed breaker sets the count back.
success_resets :
    (v : Visit) (cb : CircuitBreaker)
    → cb.state ≡ closed
    → v.is_failure ≡ false
    → ((visit v cb).state ≡ closed) × ((visit v cb).failures ≡ 0)
unfolding visit try_admit apply_verdict
success_resets v cb c f = ground arith

probe_visit :
    (v : Visit) (cb : CircuitBreaker)
    → IsValid cb
    → cb.state ≡ half_open
    → cb.half_open_in_flight ≡ 0
    → v.is_failure ≡ false
    → (suc cb.half_open_success < cb.cfg.success_threshold
        → ((visit v cb).state ≡ half_open)
          × ((visit v cb).half_open_in_flight ≡ 0)
          × ((visit v cb).half_open_success ≡ suc cb.half_open_success)
          × ((visit v cb).cfg ≡ cb.cfg))
      × (cb.cfg.success_threshold ≤ suc cb.half_open_success
          → ((visit v cb).state ≡ closed) × ((visit v cb).failures ≡ 0))
unfolding visit try_admit apply_verdict
probe_visit v cb valid s i f = ground arith

pub visit-IsValid : (v : Visit) (cb : CircuitBreaker) → IsValid cb → IsValid (visit v cb)
unfolding visit
visit-IsValid v cb valid = grind (
  arith,
  try_admit-IsValid v.asked cb valid,
  apply_verdict-IsValid v.landed v.is_failure (try_admit v.asked cb).0.gen (try_admit v.asked cb).1,
)

-- Probes that succeed, as many as are still missing, close a half-open breaker.
probes_close :
    (vs : List Visit) (cb : CircuitBreaker)
    → IsValid cb
    → cb.state ≡ half_open
    → cb.half_open_in_flight ≡ 0
    → AllVerdicts false vs
    → cb.half_open_success + length vs ≡ cb.cfg.success_threshold
    → ((visits vs cb).state ≡ closed) × ((visits vs cb).failures ≡ 0)
unfolding visits
probes_close [] cb valid s i all n = ground arith
probes_close (v ∷ []) cb valid s i all n = ground (arith, probe_visit v cb valid s i all.0)
probes_close (v ∷ w ∷ vs) cb valid s i all n =
    let (s', i', k, same) = (probe_visit v cb valid s i all.0).0 (omega arith) in
    probes_close (w ∷ vs) (visit v cb) (visit-IsValid v cb valid) s' i' all.1 (ground arith)

open_visit :
    (v : Visit) (cb : CircuitBreaker)
    → IsValid cb
    → cb.state ≡ opened
    → cb.cfg.reset_timeout ≤ℤ sat64 (v.asked -ℤ cb.last_failure_time)
    → v.is_failure ≡ false
    → (1 < cb.cfg.success_threshold
        → ((visit v cb).state ≡ half_open)
          × ((visit v cb).half_open_in_flight ≡ 0)
          × ((visit v cb).half_open_success ≡ 1)
          × ((visit v cb).cfg ≡ cb.cfg))
      × (cb.cfg.success_threshold ≡ 1 → ((visit v cb).state ≡ closed) × ((visit v cb).failures ≡ 0))
unfolding visit try_admit apply_verdict
open_visit v cb valid s elapsed f = ground arith

-- A well-formed open breaker recovers: if the first of a stream of requests comes when the reset
-- timeout has passed, and as many succeed as the success threshold asks for, the breaker is closed
-- behind them, with no failure counted.
pub open_recovers :
    (v : Visit) (vs : List Visit) (cb : CircuitBreaker)
    → IsValid cb
    → cb.state ≡ opened
    → cb.cfg.reset_timeout ≤ℤ sat64 (v.asked -ℤ cb.last_failure_time)
    → AllVerdicts false (v ∷ vs)
    → length (v ∷ vs) ≡ cb.cfg.success_threshold
    → ((visits (v ∷ vs) cb).state ≡ closed) × ((visits (v ∷ vs) cb).failures ≡ 0)
unfolding visits
open_recovers v [] cb valid s elapsed all n =
    (open_visit v cb valid s elapsed all.0).1 (omega arith)
open_recovers v (w ∷ vs) cb valid s elapsed all n =
    let (s', i', k, same) = (open_visit v cb valid s elapsed all.0).0 (omega arith) in
    probes_close (w ∷ vs) (visit v cb) (visit-IsValid v cb valid) s' i' all.1 (ground arith)
