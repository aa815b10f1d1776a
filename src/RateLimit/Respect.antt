-- ===== src/RateLimit/Respect.antt =====
-- The Retry-After period of the rate-limiting middleware, from the response that asks for it to the
-- next request (ratelimit.go).
use go_httpclient.Shared.{
  ℕ, ◌*◌, ◌^◌, ◌<◌, ◌≡◌, ◌∙◌, refl, Bool, true, false, Option, some, String, arith,
}
use text.Mathlib.Text.{◌==◌ as str_eq}
use go_httpclient.Shared.Int.{ℤ, pos, ◌+ℤ◌, ◌≤ℤ◌, max_int64, int_laws, +ℤ_parts}
use go_httpclient.Shared.Text.{atoi}
use go_httpclient.Http.Message.{Context, Response, get}
use go_httpclient.Http.World.{World, Request, RoundTripper}
use go_httpclient.Http.World.Stopping.{unless_stopped_same}
use go_httpclient.Breaker.{second}
use go_httpclient.RateLimit.{RateLimiter, await_window, acquire, note_retry_after, round_trip}
use go_httpclient.RateLimit.Window.{window_passes, note_seconds}

-- Two round trippers that cannot be told apart from a time on.
abbrev pub AgreeFrom : ℤ → RoundTripper → RoundTripper → Type 0
AgreeFrom at f g = (req : Request) (w : World) → at ≤ℤ w.now → f req w ≡ g req w

-- A limiter that does not turn back the clock.
pub record IsForward (limiter : RateLimiter) : Type 0 where
  pub waits : (ctx : Context) (w : World) → w.now ≤ℤ (limiter.wait_context ctx w).1.now
  pub tries : (w : World) → w.now ≤ℤ (limiter.try_acquire w).1.now

acquire-forward :
    (limiter : RateLimiter) (wait : Bool) (req : Request) (w : World)
    → IsForward limiter
    → w.now ≤ℤ (acquire limiter wait req w).1.now
unfolding acquire
acquire-forward limiter true req w forward = forward.waits req.ctx w
acquire-forward limiter false req w forward = forward.tries w

module _ (parse_time : String → Option ℤ) where
  window-AgreeFrom :
      (limiter : RateLimiter) (wait : Bool) (p : ℕ) (f g : RoundTripper) (req : Request) (w : World)
      → IsForward limiter
      → w.retry_at p ≤ℤ w.now +ℤ max_int64
      → AgreeFrom (w.retry_at p) f g
      → round_trip parse_time limiter wait true p f req w
        ≡ round_trip parse_time limiter wait true p g req w
  unfolding round_trip
  window-AgreeFrom limiter wait p f g req w forward near agree =
      let (late, v) = await_window true p req w in
      unless_stopped_same req late v _ _ (λ passed.
        let (denied, u) = acquire limiter wait req v in
        unless_stopped_same req denied u _ _ (λ got.
          rw
            (agree req u (
              omega (
                arith,
                window_passes p req w near passed,
                acquire-forward limiter wait req v forward,
              )))
            refl))

  -- A middleware that respects Retry-After, and has had a 429 response that asks for a number of
  -- seconds, does not call the next round tripper before they are over, whatever the limiter says.
  -- Put as what cannot be observed: two next round trippers that agree on all calls from then on
  -- give the next request the same outcome and leave the same world. The seconds fit a duration,
  -- the limiter does not turn back the clock, and no other response has changed the period since.
  pub respects_retry_after :
      (limiter : RateLimiter) (wait : Bool) (p : ℕ) (f g : RoundTripper) (r : Response)
      (seconds : ℕ) (v w : World) (req : Request)
      → r.status_code ≡ 429
      → str_eq (get "Retry-After" r.header) "" ≡ false
      → atoi (get "Retry-After" r.header) ≡ some (pos seconds)
      → seconds * second < 2 ^ 63
      → v.now ≤ℤ w.now
      → w.retry_at p ≡ (note_retry_after parse_time true p (some r) v).retry_at p
      → IsForward limiter
      → AgreeFrom (v.now +ℤ pos (seconds * second)) f g
      → round_trip parse_time limiter wait true p f req w
        ≡ round_trip parse_time limiter wait true p g req w
  respects_retry_after limiter wait p f g r seconds v w req status present parsed fits later kept
        forward agree =
      let noted = kept ∙ note_seconds parse_time p r seconds v status present parsed fits in
      window-AgreeFrom limiter wait p f g req w forward
        (rw noted
          (omega (int_laws, +ℤ_parts v.now (pos (seconds * second)), +ℤ_parts w.now max_int64)))
        (rw noted agree)
