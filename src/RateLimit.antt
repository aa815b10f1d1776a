-- ===== src/RateLimit.antt =====
-- ratelimit.go: the middleware over any `RateLimiter`, and its Retry-After window. The token bucket
-- is RateLimit/Bucket. `http.ParseTime` is given by `parse_time`.
pub mod Window
pub mod Respect
pub mod Bucket
use go_httpclient.Shared.{
  ℕ, Bool, true, false, not, ◌&&◌, Option, none, some, String, ◌==◌, if◌then◌else◌, update,
}
use text.Mathlib.Text.{◌==◌ as str_eq}
use go_httpclient.Shared.Int.{ℤ, ◌+ℤ◌, ◌-ℤ◌, ltb_ℤ, sat64}
use go_httpclient.Shared.Text.{atoi}
use go_httpclient.Http.Error.{Err}
use go_httpclient.Http.Message.{Context, Response, get}
use go_httpclient.Diagnostics.{report_invalid_config}
use go_httpclient.Http.World.{World, Request, RoundTripper, Middleware, select, unless_stopped}
use go_httpclient.Backoff.{seconds_duration}

-- The interface `RateLimiter`.
pub record RateLimiter : Type 0 where
  pub wait_context : Context → World → Option Err × World
  pub try_acquire : World → Bool × World

-- `RateLimitConfig`; a nil limiter is `none`.
pub record RateLimitConfig : Type 0 where
  pub limiter : Option RateLimiter
  pub wait_on_limit : Bool
  pub respect_retry_after : Bool

-- The first block of `RoundTrip`: wait while a Retry-After period lasts. `p` is the middleware's
-- pointer.
unfoldable pub await_window : Bool → ℕ → Request → World → Option Err × World
await_window respect p req w =
    if respect && ltb_ℤ w.now (w.retry_at p)
    then select req.ctx (sat64 (w.retry_at p -ℤ w.now)) w
    else (none, w)

abbrev taken : Bool × World → Option Err × World
taken (got, w) = (if got then none else some Err.rate_limited, w)

-- The second block: a token, waited for or not.
unfoldable pub acquire : RateLimiter → Bool → Request → World → Option Err × World
acquire limiter wait req w =
    if wait then limiter.wait_context req.ctx w else taken (limiter.try_acquire w)

abbrev pub set_retry_at : ℕ → ℤ → World → World
set_retry_at p at w = record w { retry_at = update w.retry_at p at }

module _ (parse_time : String → Option ℤ) where
  -- A Retry-After value that is not "".
  unfoldable pub note_value : ℕ → String → World → World
  note_value p value w = elim (atoi value) [
    | some seconds ↦ set_retry_at p (w.now +ℤ seconds_duration seconds) w
    | none ↦ elim (parse_time value) [ none ↦ w | some t ↦ set_retry_at p t w ]
  ]

  -- The last block: a 429 response sets the time until which to wait.
  unfoldable pub note_retry_after : Bool → ℕ → Option Response → World → World
  note_retry_after respect p none w = w
  note_retry_after respect p (some r) w =
      if respect && r.status_code == 429
      then (let value = get "Retry-After" r.header in
          if str_eq value "" then w else note_value p value w)
      else w

  -- `rateLimitRoundTripper.RoundTrip` with its limiter.
  unfoldable pub round_trip : RateLimiter → Bool → Bool → ℕ → RoundTripper → RoundTripper
  round_trip limiter wait respect p next req w =
      let (late, w1) = await_window respect p req w in
      unless_stopped req late w1 (λ v.
        let (denied, w2) = acquire limiter wait req v in
        unless_stopped req denied w2
          (λ u. let (o, w3) = next req u in (o, note_retry_after respect p o.resp w3)))

  -- `RateLimit`: the middleware, and the world in which it was made.
  unfoldable pub rate_limit : RateLimitConfig → ℕ → World → Middleware × World
  rate_limit cfg p w = elim cfg.limiter [
    | none ↦ ((λ next. next), report_invalid_config "RateLimit" w)
    | some limiter ↦ (round_trip limiter cfg.wait_on_limit cfg.respect_retry_after p, w)
  ]
