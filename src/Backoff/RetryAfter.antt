-- ===== src/Backoff/RetryAfter.antt =====
-- `WithRetryAfter` and `parseRetryAfter` (backoff.go).
use go_httpclient.Shared.{
  ℕ, ◌*◌, ◌^◌, ◌≤◌, ◌<◌, ◌≡◌, ◌≢◌, ◌⊎◌, false, Option, none, some, String, arith,
}
use text.Mathlib.Text.{◌==◌ as str_eq}
use go_httpclient.Shared.Int.{ℤ, pos, ◌≤ℤ◌, ◌<ℤ◌, max_ℤ, wrap64_id, *ℤ_pos}
use go_httpclient.Shared.Text.{atoi}
use go_httpclient.Http.Message.{Response, get}
use go_httpclient.Http.World.{World}
use go_httpclient.Breaker.{second}
use go_httpclient.Backoff.{
  BackoffFunc, seconds_duration, retry_after_value, parse_retry_after, longer, with_retry_after,
}
use go_httpclient.Backoff.Saturation.{wrap64_negative}

-- A 429 or 503 response whose Retry-After header asks for a number of seconds.
pub record AsksSeconds (r : Response) (seconds : ℕ) : Type 0 where
  pub status : (r.status_code ≡ 429) ⊎ (r.status_code ≡ 503)
  pub present : str_eq (get "Retry-After" r.header) "" ≡ false
  pub parsed : atoi (get "Retry-After" r.header) ≡ some (pos seconds)
  pub positive : 0 < seconds

negative_hint : (d hint : ℤ) → pos 0 ≤ℤ d → hint <ℤ pos 0 → longer (some hint) d ≡ d
negative_hint d hint nonneg negative = ground arith

longer_ge : (hint : Option ℤ) (d : ℤ) → d ≤ℤ longer hint d
longer_ge hint d = ground arith

module _ (parse_time : String → Option ℤ) where
  hint_lem :
      (r : Response) (seconds : ℕ) (now : ℤ)
      → AsksSeconds r seconds
      → parse_retry_after parse_time (some r) now ≡ some (seconds_duration (pos seconds))
  unfolding parse_retry_after retry_after_value
  hint_lem r seconds now asks = ground (arith, asks)

  no_hint :
      (r : Response) (now : ℤ)
      → r.status_code ≢ 429
      → r.status_code ≢ 503
      → parse_retry_after parse_time (some r) now ≡ none
  unfolding parse_retry_after
  no_hint r now not429 not503 = ground arith

  -- On a 429 or 503 response whose Retry-After header asks for a positive number of seconds that
  -- fits a duration, the wait is the larger of the decorated strategy's and the hint.
  pub retry_after_is_max :
      (backoff : BackoffFunc) (attempt : ℕ) (r : Response) (seconds : ℕ) (w : World)
      → AsksSeconds r seconds
      → seconds * second < 2 ^ 63
      → (with_retry_after parse_time backoff attempt (some r) w).0
        ≡ max_ℤ (backoff attempt (some r) w).0 (pos (seconds * second))
  unfolding with_retry_after seconds_duration
  retry_after_is_max backoff attempt r seconds w asks fits = rw (
    hint_lem r seconds (backoff attempt (some r) w).1.now asks,
    *ℤ_pos,
    wrap64_id (pos (seconds * second)) (ground arith),
  )

  -- It is not so in general: a hint of seconds whose nanoseconds are from 2^63 to below 2^64 is
  -- taken for a negative duration, and the wait is the decorated strategy's alone, if that is not
  -- negative.
  pub retry_after_overflow :
      (backoff : BackoffFunc) (attempt : ℕ) (r : Response) (seconds : ℕ) (w : World)
      → AsksSeconds r seconds
      → 2 ^ 63 ≤ seconds * second
      → seconds * second < 2 ^ 64
      → pos 0 ≤ℤ (backoff attempt (some r) w).0
      → (with_retry_after parse_time backoff attempt (some r) w).0 ≡ (backoff attempt (some r) w).0
  unfolding with_retry_after seconds_duration
  retry_after_overflow backoff attempt r seconds w asks big fits nonneg =
      rw (hint_lem r seconds (backoff attempt (some r) w).1.now asks, *ℤ_pos)
        (negative_hint _ _ nonneg (wrap64_negative (seconds * second) big fits))

  -- The decorator never shortens a wait, and leaves it alone where there is no response or its
  -- status is another than 429 and 503.
  pub retry_after_never_shortens :
      (backoff : BackoffFunc) (attempt : ℕ) (resp : Option Response) (w : World)
      → ((backoff attempt resp w).0 ≤ℤ (with_retry_after parse_time backoff attempt resp w).0)
        × ((r : Response)
            → resp ≡ some r
            → r.status_code ≢ 429
            → r.status_code ≢ 503
            → with_retry_after parse_time backoff attempt resp w ≡ backoff attempt resp w)
  unfolding with_retry_after
  retry_after_never_shortens backoff attempt resp w = (
    longer_ge (parse_retry_after parse_time resp (backoff attempt resp w).1.now) _,
    λ r e not429 not503. rw e (rw (no_hint r (backoff attempt (some r) w).1.now not429 not503)),
  )
