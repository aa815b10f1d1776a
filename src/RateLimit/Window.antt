-- ===== src/RateLimit/Window.antt =====
-- What the rate-limiting middleware does to a request (ratelimit.go, `RoundTrip`).
use go_httpclient.Shared.{
  ℕ, ◌*◌, ◌^◌, ◌<◌, ◌≡◌, inl, inr, Bool, true, false, Option, none, some, String, arith, ==_refl,
  Bool-cases,
}
use text.Mathlib.Text.{◌==◌ as str_eq}
use go_httpclient.Shared.Int.{
  ℤ, pos, ◌+ℤ◌, ◌-ℤ◌, ◌≤ℤ◌, ◌<ℤ◌, max_int64, ltb_ℤ, sat64, sat64_id, wrap64_id, *ℤ_pos, int_laws,
}
use go_httpclient.Shared.Text.{atoi}
use go_httpclient.Http.Error.{Err}
use go_httpclient.Http.Message.{Response, refuse, get}
use go_httpclient.Http.World.{World, Request, RoundTripper, close_request_body}
use go_httpclient.Http.World.Select.{select_passed}
use go_httpclient.Breaker.{second}
use go_httpclient.Backoff.{seconds_duration}
use go_httpclient.RateLimit.{
  RateLimiter, await_window, acquire, set_retry_at, note_value, note_retry_after, round_trip,
}

no_window :
    (respect : Bool) (p : ℕ) (req : Request) (w : World)
    → w.retry_at p ≤ℤ w.now
    → await_window respect p req w ≡ (none, w)
unfolding await_window
no_window respect p req w over = ground arith

-- A wait for what is missing to a time ends at or past that time.
window_end :
    (now at after : ℤ)
    → now <ℤ at
    → at ≤ℤ now +ℤ max_int64
    → now +ℤ sat64 (at -ℤ now) ≤ℤ after
    → at ≤ℤ after
window_end now at after early near fired =
    let exact = sat64_id (at -ℤ now) (omega int_laws, omega int_laws) in
    omega (int_laws, rw exact at fired)

-- A middleware that does not wait refuses a request for which the limiter has no token, with
-- ErrRateLimited, whatever the next round tripper is: that is not called, and the request's body is
-- closed. No Retry-After period is under way.
pub no_token_refuses :
    (parse_time : String → Option ℤ) (limiter : RateLimiter) (respect : Bool) (p : ℕ)
    (next : RoundTripper) (req : Request) (w : World)
    → w.retry_at p ≤ℤ w.now
    → (limiter.try_acquire w).0 ≡ false
    → round_trip parse_time limiter false respect p next req w
      ≡ (refuse Err.rate_limited, close_request_body req (limiter.try_acquire w).1)
unfolding round_trip acquire
no_token_refuses parse_time limiter respect p next req w over empty =
    rw (no_window respect p req w over, empty)

-- A wait for the Retry-After period that is not cut short ends when the period is over, if the
-- period is at most the largest duration.
pub window_passes :
    (p : ℕ) (req : Request) (w : World)
    → w.retry_at p ≤ℤ w.now +ℤ max_int64
    → (await_window true p req w).0 ≡ none
    → w.retry_at p ≤ℤ (await_window true p req w).1.now
unfolding await_window
window_passes p req w near passed = elim (Bool-cases (ltb_ℤ w.now (w.retry_at p))) [
  | inr over ↦ rw over (ground arith)
  | inl early ↦
      let wait = sat64 (w.retry_at p -ℤ w.now) in
      let fired = select_passed req.ctx wait w (rw early at passed) in
      rw early (window_end w.now (w.retry_at p) _ (ground arith) near fired)
]

note_value_lem :
    (parse_time : String → Option ℤ) (p : ℕ) (value : String) (seconds : ℤ) (w : World)
    → atoi value ≡ some seconds
    → note_value parse_time p value w ≡ set_retry_at p (w.now +ℤ seconds_duration seconds) w
unfolding note_value
note_value_lem parse_time p value seconds w h = ground arith

-- A 429 response that asks for a number of seconds that fits a duration sets the middleware's time
-- to that many seconds from then.
pub note_seconds :
    (parse_time : String → Option ℤ) (p : ℕ) (r : Response) (seconds : ℕ) (w : World)
    → r.status_code ≡ 429
    → str_eq (get "Retry-After" r.header) "" ≡ false
    → atoi (get "Retry-After" r.header) ≡ some (pos seconds)
    → seconds * second < 2 ^ 63
    → (note_retry_after parse_time true p (some r) w).retry_at p ≡ w.now +ℤ pos (seconds * second)
unfolding note_retry_after seconds_duration
note_seconds parse_time p r seconds w status present parsed fits = rw (
  status,
  present,
  note_value_lem parse_time p _ (pos seconds) w parsed,
  *ℤ_pos,
  wrap64_id (pos (seconds * second)) (ground arith),
  ==_refl p,
)
