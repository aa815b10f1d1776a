-- ===== src/RateLimit/Bucket.antt =====
-- ratelimit.go: `TokenBucket`. float64 is `fl`; each operation is a locked section at a reading of
-- the clock, so what concurrent requests do to a bucket is a sequence of calls.
pub mod Rounding
pub mod Rate
pub mod Waiting
use go_httpclient.Shared.{
  ℕ, zero, suc, ◌+◌, Bool, true, false, ◌||◌, not, Option, none, some, if◌then◌else◌,
}
use go_httpclient.Shared.Int.{ℤ, pos, ◌-ℤ◌, ltb_ℤ, sat64}
use go_httpclient.Shared.Float.{Float64}
use go_httpclient.Http.Error.{Err}
use go_httpclient.Http.Message.{Context}
use go_httpclient.Diagnostics.{report_invalid_config}
use go_httpclient.Http.World.{World, select}
use go_httpclient.Breaker.{zero_time}

pub record TokenBucket (F : Type 0) : Type 0 where
  pub tokens : F
  pub max_tokens : F
  pub refill_rate : F
  pub last_refill : ℤ
  pub wait_time : ℤ
  pub unlimited : Bool

-- What `NewTokenBucketE` returns.
pub data Made (F : Type 0) : Type 0 where
  made : TokenBucket F → Made F
  refused : Err → Made F

module _ (fl : Float64) where
  open fl use {F, of_int, trunc, seconds, plus, minus, times, over, lt, le, nought, one, billion}

  -- `rate <= 0 || burst < 1`
  unfoldable pub is_invalid_rate : F → ℤ → Bool
  is_invalid_rate rate burst = le rate nought || ltb_ℤ burst (pos 1)

  unfoldable pub unlimited_bucket : TokenBucket F
  unlimited_bucket = record {
    tokens = nought;
    max_tokens = nought;
    refill_rate = nought;
    last_refill = zero_time;
    wait_time = pos 0;
    unlimited = true;
  }

  -- `NewTokenBucket`: the bucket, and the world in which it was made.
  unfoldable pub new_token_bucket : F → ℤ → World → TokenBucket F × World
  new_token_bucket rate burst w =
      if is_invalid_rate rate burst
      then (unlimited_bucket, report_invalid_config "TokenBucket" w)
      else (
        record {
          tokens = of_int burst;
          max_tokens = of_int burst;
          refill_rate = rate;
          last_refill = w.now;
          wait_time = trunc (over billion rate);
          unlimited = false;
        },
        w,
      )

  -- `NewTokenBucketE`; its error wraps ErrInvalidRateLimit.
  unfoldable pub new_token_bucket_e : F → ℤ → World → Made F × World
  new_token_bucket_e rate burst w =
      if is_invalid_rate rate burst
      then (refused (Err.wrapped Err.invalid_rate_limit), w)
      else (let (tb, w') = new_token_bucket rate burst w in (made tb, w'))

  -- `refill`
  unfoldable pub refill : ℤ → TokenBucket F → TokenBucket F
  refill now tb =
      let elapsed = seconds (sat64 (now -ℤ tb.last_refill)) in
      let tokens = plus tb.tokens (times elapsed tb.refill_rate) in
      record tb {
        tokens = if lt tb.max_tokens tokens then tb.max_tokens else tokens;
        last_refill = now;
      }

  -- `if tb.tokens >= 1 { tb.tokens--; return true }; return false`
  unfoldable pub take_one : TokenBucket F → Bool × TokenBucket F
  take_one tb =
      if le one tb.tokens then (true, record tb { tokens = minus tb.tokens one }) else (false, tb)

  -- `TryAcquire`
  unfoldable pub try_acquire : ℤ → TokenBucket F → Bool × TokenBucket F
  try_acquire now tb = if tb.unlimited then (true, tb) else take_one (refill now tb)

  -- `Tokens`
  unfoldable pub tokens_now : ℤ → TokenBucket F → F × TokenBucket F
  tokens_now now tb = let tb' = refill now tb in (tb'.tokens, tb')

  -- What `WaitContext` does with what the select gave it: the context's error, or the next round.
  unfoldable pub after_select :
      Option Err × World
      → TokenBucket F
      → (World → Option (Option Err) × TokenBucket F × World)
      → Option (Option Err) × TokenBucket F × World
  after_select (some e, w) tb again = (some (some e), tb, w)
  after_select (none, w) tb again = again w

  -- What it does with an attempt to take a token.
  unfoldable pub after_try :
      Bool × TokenBucket F
      → Context
      → World
      → (TokenBucket F → World → Option (Option Err) × TokenBucket F × World)
      → Option (Option Err) × TokenBucket F × World
  after_try (true, tb) ctx w again = (some none, tb, w)
  after_try (false, tb) ctx w again = after_select (select ctx tb.wait_time w) tb (again tb)

  -- `WaitContext`, with fuel for its loop, where nobody else uses the bucket meanwhile. `none` in
  -- front means that the fuel ran out.
  unfoldable pub wait_context :
      ℕ → Context → TokenBucket F → World → Option (Option Err) × TokenBucket F × World
  wait_context zero ctx tb w = (none, tb, w)
  wait_context (suc fuel) ctx tb w =
      after_try (try_acquire w.now tb) ctx w (λ tb' w'. wait_context fuel ctx tb' w')
