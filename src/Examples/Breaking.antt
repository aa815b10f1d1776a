-- ===== src/Examples/Breaking.antt =====
-- The properties of the breaker, at runs of it.
use go_httpclient.Shared.{◌+◌, ◌≤◌, ◌<◌, ◌≡◌, refl, arith, true, false, [], ◌∷◌}
use go_httpclient.Shared.Int.{pos, ◌≤ℤ◌, ◌-ℤ◌, sat64}
use go_httpclient.Breaker.{
  closed, opened, half_open, with_defaults, new_circuit_breaker, try_admit, apply_verdict,
}
use go_httpclient.Breaker.Invariant.{
  IsValid, new_circuit_breaker-IsValid, apply_verdict-IsValid, locked_sections-IsValid,
}
use go_httpclient.Breaker.Concurrent.{
  System, Run, start, admit, land, here, next, admitted_under, probes_bounded, open_result_is_stale,
}
use go_httpclient.Breaker.Transitions.{Moves, follows_diagram}
use go_httpclient.Breaker.Recovery.{Visit, visit, visits, failures_trip, open_recovers}
use go_httpclient.Breaker.RoundTrip.{round_trip, allow_request}
use go_httpclient.Breaker.Trips.{round_trip-visit}
use go_httpclient.Examples.{small_config, fresh_breaker, tripped_breaker, world_at, posting, busy}

-- Two requests are admitted; one fails, and the breaker opens.
abbrev one_failed : System
one_failed = record { breaker = tripped_breaker; flights = 0 ∷ [] }

-- When the reset timeout has passed, a probe goes out.
abbrev probing : System
probing = record { breaker = (try_admit (pos 200) tripped_breaker).1; flights = 2 ∷ 0 ∷ [] }

tripping-Run : Run (start small_config) 3 one_failed
unfolding start new_circuit_breaker try_admit apply_verdict with_defaults
tripping-Run =
    next (next (next here (admit (pos 1) refl refl)) (admit (pos 2) refl refl))
      (land (pos 10) true 0 [] (0 ∷ []) refl refl)

probing-Run : Run (start small_config) 4 probing
unfolding new_circuit_breaker try_admit apply_verdict with_defaults
probing-Run = next tripping-Run (admit (pos 200) refl refl)

probes_bounded_example :
    (probing.breaker.state ≡ half_open
      → (admitted_under probing.breaker.generation probing.flights
          ≡ probing.breaker.half_open_in_flight)
        × (admitted_under probing.breaker.generation probing.flights
            ≤ (with_defaults small_config).max_half_open_requests))
    × (probing.breaker.state ≡ opened
        → admitted_under probing.breaker.generation probing.flights ≡ 0)
probes_bounded_example = probes_bounded small_config 4 (omega arith) probing-Run

tripped_is_open : tripped_breaker.state ≡ opened
unfolding new_circuit_breaker apply_verdict with_defaults
tripped_is_open = refl

open_result_is_stale_example : 0 < one_failed.breaker.generation
open_result_is_stale_example =
    open_result_is_stale small_config 3 0 [] [] (omega arith) tripping-Run refl tripped_is_open

fresh-IsValid : IsValid fresh_breaker
fresh-IsValid = new_circuit_breaker-IsValid small_config

tripped-IsValid : IsValid tripped_breaker
tripped-IsValid = apply_verdict-IsValid (pos 10) true 0 fresh_breaker fresh-IsValid

locked_sections-IsValid_example :
    IsValid fresh_breaker
    × IsValid (try_admit (pos 200) tripped_breaker).1
    × IsValid (apply_verdict (pos 200) false 1 tripped_breaker).1
locked_sections-IsValid_example =
    locked_sections-IsValid small_config (pos 200) false 1 tripped_breaker tripped-IsValid

follows_diagram_example :
    Moves tripped_breaker
      (try_admit (pos 200) tripped_breaker).0.transition
      (try_admit (pos 200) tripped_breaker).1
    × Moves tripped_breaker
        (apply_verdict (pos 200) true 1 tripped_breaker).0
        (apply_verdict (pos 200) true 1 tripped_breaker).1
follows_diagram_example = follows_diagram (pos 200) true 1 tripped_breaker

abbrev failed_visit : Visit
failed_visit = record { asked = pos 5; landed = pos 10; is_failure = true }

abbrev probe_visit : Visit
probe_visit = record { asked = pos 200; landed = pos 210; is_failure = false }

fresh_is_closed : fresh_breaker.state ≡ closed
unfolding new_circuit_breaker
fresh_is_closed = refl

fresh_below : fresh_breaker.failures < fresh_breaker.cfg.failure_threshold
fresh_below = fresh-IsValid.closed_failures fresh_is_closed

failures_trip_example :
    (fresh_breaker.failures + 1 < fresh_breaker.cfg.failure_threshold
      → (visits (failed_visit ∷ []) fresh_breaker).state ≡ closed)
    × (fresh_breaker.failures + 1 ≡ fresh_breaker.cfg.failure_threshold
        → (visits (failed_visit ∷ []) fresh_breaker).state ≡ opened)
failures_trip_example =
    failures_trip (failed_visit ∷ []) fresh_breaker fresh_is_closed fresh_below (refl, tt)

reset_passed :
    tripped_breaker.cfg.reset_timeout ≤ℤ sat64 (pos 200 -ℤ tripped_breaker.last_failure_time)
unfolding new_circuit_breaker apply_verdict with_defaults sat64 ◌-ℤ◌
reset_passed = omega arith

reset_not_passed :
    ¬ (tripped_breaker.cfg.reset_timeout ≤ℤ sat64 (pos 20 -ℤ tripped_breaker.last_failure_time))
unfolding new_circuit_breaker apply_verdict with_defaults sat64 ◌-ℤ◌
reset_not_passed = omega arith

one_success : 1 ≡ tripped_breaker.cfg.success_threshold
unfolding new_circuit_breaker apply_verdict with_defaults
one_success = refl

open_recovers_example :
    ((visits (probe_visit ∷ []) tripped_breaker).state ≡ closed)
    × ((visits (probe_visit ∷ []) tripped_breaker).failures ≡ 0)
open_recovers_example =
    open_recovers probe_visit [] tripped_breaker tripped-IsValid tripped_is_open reset_passed
      (refl, tt) one_success

round_trip-visit_example :
    let w = world_at (pos 200) tripped_breaker in
    let inner = busy posting (allow_request 0 w).2 in
    (round_trip 0 busy posting w).1.breakers 0
    ≡ visit
        (record {
          asked = w.now;
          landed = inner.1.now;
          is_failure = (w.breakers 0).cfg.is_failure inner.0;
        })
        (w.breakers 0)
round_trip-visit_example =
    round_trip-visit 0 busy posting (world_at (pos 200) tripped_breaker) (λ r v. refl)
