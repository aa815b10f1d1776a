-- ===== src/Examples/Limiting.antt =====
-- The properties of the rate limiter, at buckets and responses.
use go_httpclient.Shared.{
  ℕ, ◌+◌, ◌-◌, ◌*◌, ◌/◌, ◌≤◌, ◌≡◌, refl, arith, true, false, if◌then◌else◌, inl, inr, Bool-cases,
  some, none, Option, [], ◌∷◌,
}
use text.Mathlib.Text.{◌==◌ as str_eq}
use go_httpclient.Shared.Int.{pos, leb_ℤ, ◌+ℤ◌}
use go_httpclient.Shared.Text.{atoi}
use go_httpclient.Http.Error.{Err}
use go_httpclient.Http.Message.{get}
use go_httpclient.Http.World.{RoundTripper, World, done, select}
use go_httpclient.Breaker.{second}
use go_httpclient.RateLimit.{RateLimiter, await_window, set_retry_at, note_retry_after, round_trip}
use go_httpclient.RateLimit.Respect.{IsForward, AgreeFrom, respects_retry_after}
use go_httpclient.RateLimit.Bucket.{TokenBucket, wait_context}
use go_httpclient.RateLimit.Bucket.Waiting.{wait_context_returns}
use go_httpclient.RateLimit.Bucket.Rounding.{IsRounded}
use go_httpclient.RateLimit.Bucket.Rate.{acquires, keeps_rate}
use go_httpclient.Examples.{
  Float64, world_at, fresh_breaker, failing, context, world, request, posting, busy,
  limited_response, no_date, billionths,
}

-- A limiter that has no token, ever.
abbrev dry : RateLimiter
dry = record {
  wait_context = λ c w. (some Err.deadline_exceeded, w);
  try_acquire = λ w. (false, w);
}

-- A period until time 70.
abbrev limited_world : World
limited_world = set_retry_at 0 (pos 70) world

limited_not_stopped : (await_window true 0 request limited_world).0 ≡ none
unfolding await_window select done
limited_not_stopped = refl

limited_parsed : atoi (get "Retry-After" limited_response.header) ≡ some (pos 3)
unfolding atoi get
limited_parsed = refl

limited_present : str_eq (get "Retry-After" limited_response.header) "" ≡ false
unfolding get
limited_present = refl

-- A million tokens a second, so a thousandth of one for each ns.
abbrev million : ℕ
million = 1_000_000 * 1_000_000_000

-- To the nearest thousand.
abbrev nearest : ℕ → ℕ
nearest x = (x + 500) / 1000 * 1000

-- Amounts in billionths that are rounded to the nearest thousand.
abbrev rounding : Float64
rounding = record billionths {
  plus = λ x y. nearest (x + y);
  minus = λ x y. nearest (x - y);
  times = λ x y. nearest (x * y / 1_000_000_000);
}

rounding-IsRounded :
    IsRounded rounding million (λ x. Unit {0}) (λ x. x) 999_000 1_001_000 500 2_000_000_000
rounding-IsRounded = record {
  one_amount = tt;
  plus_amount = λ x y a b. tt;
  minus_amount = λ x a h. tt;
  earned_amount = λ d h. tt;
  lt_true = λ x y a b h. ground arith;
  lt_false = λ x y a b h. ground arith;
  le_true = λ x y a b h. ground arith;
  le_false = λ x y a b h. ground arith;
  plus_upper = λ x y a b h. omega arith;
  plus_lower = λ x y a b h. omega arith;
  minus_upper = λ x a h k. omega arith;
  minus_less = λ x a h. omega arith;
  earned_upper = λ d h. omega arith;
  earned_lower = λ d h. omega arith;
}

abbrev bucket : TokenBucket ℕ
bucket = record {
  tokens = 2_000_000_000;
  max_tokens = 2_000_000_000;
  refill_rate = million;
  last_refill = pos 0;
  wait_time = pos 1000;
  unlimited = false;
}

keeps_rate_example :
    let (n, tb) = acquires rounding (0 ∷ 10 ∷ 20 ∷ 1500 ∷ []) bucket in
    (n * 1_000_000_000 + tb.tokens ≤ 2_000_000_000 + (2000 - 0) * 1_001_000 + 4 * (2 * 500))
    × (tb.tokens ≤ 2_000_000_000)
keeps_rate_example =
    keeps_rate rounding million (λ x. Unit {0}) (λ x. x) 999_000 1_001_000 500 2_000_000_000
      rounding-IsRounded (0 ∷ 10 ∷ 20 ∷ 1500 ∷ []) 0 2000 bucket
      (record {
        limited = refl;
        at_rate = refl;
        refilled = refl;
        held = tt;
        burst = tt;
        roofed = omega arith;
      })
      (omega arith, (omega arith, (omega arith, (omega arith, omega arith)))) (omega arith)
      (omega arith)

-- The bucket without a token left, with waits of 400 ns for a token that takes 1000 ns.
abbrev drained_bucket : TokenBucket ℕ
drained_bucket = record bucket { tokens = 0; wait_time = pos 400 }

wait_context_returns_example :
    (r : Option Err) × ((wait_context rounding 4 context drained_bucket world).0 ≡ some r)
    × (done context ≡ none → r ≡ none)
wait_context_returns_example =
    wait_context_returns rounding million (λ x. Unit {0}) (λ x. x) 999_000 1_001_000 500
      2_000_000_000 rounding-IsRounded 3 0 20 400 context drained_bucket world
      (record {
        limited = refl;
        at_rate = refl;
        refilled = refl;
        held = tt;
        burst = tt;
        roofed = omega arith;
      })
      (omega arith) refl refl (omega arith) (omega arith) (omega arith)

dry-IsForward : IsForward dry
dry-IsForward = record { waits = λ c w. omega arith; tries = λ w. omega arith }

-- The same transport as `busy` once the three seconds are over, and a failing one before.
abbrev late_busy : RoundTripper
late_busy req w = if leb_ℤ (pos 3_000_000_020) w.now then busy req w else failing req w

late_busy-AgreeFrom : AgreeFrom (pos 20 +ℤ pos (3 * second)) busy late_busy
unfolding ◌+ℤ◌
late_busy-AgreeFrom req w later = elim (Bool-cases (leb_ℤ (pos 3_000_000_020) w.now)) [
  | inl e ↦ rw e refl
  | inr e ↦ absurd (ground arith)
]

-- A moment after the response came.
abbrev limited_again : World
limited_again =
    set_retry_at 0 ((note_retry_after no_date true 0 (some limited_response) world).retry_at 0)
      (world_at (pos 25) fresh_breaker)

respects_retry_after_example :
    round_trip no_date dry false true 0 busy posting limited_again
    ≡ round_trip no_date dry false true 0 late_busy posting limited_again
respects_retry_after_example =
    respects_retry_after no_date dry false 0 busy late_busy limited_response 3 world limited_again
      posting refl limited_present limited_parsed (omega arith) (omega arith) refl dry-IsForward
      late_busy-AgreeFrom
