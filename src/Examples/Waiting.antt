-- ===== src/Examples/Waiting.antt =====
-- The properties of the backoff strategies, at durations.
use go_httpclient.Shared.{
  ℕ, ◌+◌, ◌*◌, ◌^◌, ◌<◌, ◌≤◌, ◌≡◌, refl, inr, arith, true, false, some, none, [], ◌∷◌,
}
use go_httpclient.Shared.Int.{pos, min_ℤ, max_ℤ, ◌<ℤ◌, ◌≤ℤ◌}
use go_httpclient.Http.Message.{Response, get}
use go_httpclient.Breaker.{second}
use go_httpclient.Backoff.{
  linear, exponential, overflows_exp, fibonacci, constant_backoff, with_retry_after,
}
use go_httpclient.Shared.Text.{atoi}
use go_httpclient.Backoff.Saturation.{linear_overflow, overflows_exp_exact}
use go_httpclient.Backoff.Fibonacci.{fib, fibonacci-eq-fib}
use go_httpclient.Backoff.RetryAfter.{AsksSeconds, retry_after_is_max, retry_after_overflow}
use go_httpclient.Backoff.Jitter.{with_jitter, decorrelated_jitter_backoff, jitter_bounds}
use go_httpclient.Examples.{world, busy_response, no_date, billionths}

-- An hour as the base overflows at attempt 2562047, with a cap of a day.
linear_overflow_example : linear (pos 3_600_000_000_000) (pos 86_400_000_000_000) 2562047 <ℤ pos 0
linear_overflow_example =
    linear_overflow 3_600_000_000_000 86_400_000_000_000 2562047 (omega arith) (omega arith)
      (omega arith)

overflows_exp_exact_example :
    (overflows_exp (pos 100) 3 ≡ false
      → exponential (pos 100) (pos 500) 3 ≡ min_ℤ (pos (100 * 2 ^ 3)) (pos 500))
    × (0 < 100 → overflows_exp (pos 100) 3 ≡ true → 2 ^ 63 ≤ 100 * 2 ^ 3)
overflows_exp_exact_example = overflows_exp_exact 100 500 3

fibonacci-eq-fib_example : fibonacci 90 ≡ pos (fib 90)
fibonacci-eq-fib_example = fibonacci-eq-fib 90 (omega arith) (omega arith)

small_product : 100 * fib (5 + 1) < 2 ^ 63
unfolding fib
small_product = omega arith

three_seconds : AsksSeconds busy_response 3
unfolding atoi get
three_seconds = record { status = inr refl; present = refl; parsed = refl; positive = omega arith }

retry_after_is_max_example :
    (with_retry_after no_date (constant_backoff (pos 50)) 0 (some busy_response) world).0
    ≡ max_ℤ (constant_backoff (pos 50) 0 (some busy_response) world).0 (pos (3 * second))
retry_after_is_max_example =
    retry_after_is_max no_date (constant_backoff (pos 50)) 0 busy_response 3 world three_seconds
      (omega arith)

-- 10000000000 seconds are some 317 years.
abbrev far_response : Response
far_response = record busy_response { header = ("Retry-After", "10000000000" ∷ []) ∷ [] }

far_seconds : AsksSeconds far_response 10_000_000_000
unfolding atoi get
far_seconds = record { status = inr refl; present = refl; parsed = refl; positive = omega arith }

constant_nonneg : pos 0 ≤ℤ (constant_backoff (pos 50) 0 (some far_response) world).0
unfolding constant_backoff
constant_nonneg = omega arith

retry_after_overflow_example :
    (with_retry_after no_date (constant_backoff (pos 50)) 0 (some far_response) world).0
    ≡ (constant_backoff (pos 50) 0 (some far_response) world).0
retry_after_overflow_example =
    retry_after_overflow no_date (constant_backoff (pos 50)) 0 far_response 10_000_000_000 world
      far_seconds (omega arith) (omega arith) constant_nonneg

abbrev half_drawn : ℕ → ℕ
half_drawn n = 500_000_000

sixty_three_overflows : overflows_exp (pos 100) 63 ≡ true
unfolding overflows_exp
sixty_three_overflows = refl

jitter_bounds_example :
    let d = decorrelated_jitter_backoff billionths half_drawn 0 (pos 100) (pos 500) 1 none world in
    (billionths.le 200_000_000 0 ≡ false
      → pos 0
        ≤ℤ (with_jitter billionths half_drawn
            (constant_backoff (pos 50))
            200_000_000
            1
            none
            world).0)
    × (pos 100 ≤ℤ pos 500 → d.0 ≤ℤ pos 500)
    × (d.1.last_backoff 0 ≡ d.0)
jitter_bounds_example =
    jitter_bounds billionths half_drawn (constant_backoff (pos 50)) 200_000_000 0 (pos 100)
      (pos 500) 1 none world
