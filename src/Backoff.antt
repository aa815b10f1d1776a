-- ===== src/Backoff.antt =====
-- backoff.go: the strategies without random numbers, and the decorators. A `time.Duration` is an
-- int64, so its products wrap. The attempt's number is an int that is not negative.
pub mod Saturation
pub mod Fibonacci
pub mod RetryAfter
pub mod Jitter
use go_httpclient.Shared.{
  ℕ, zero, suc, ◌+◌, ◌-◌, ◌*◌, ◌/◌, ◌^◌, Bool, true, false, ◌||◌, ◌&&◌, Option, none, some, String,
  leb, ltb, ◌==◌, if◌then◌else◌,
}
use text.Mathlib.Text.{◌==◌ as str_eq}
use go_httpclient.Shared.Int.{ℤ, pos, ◌*ℤ◌, ◌+ℤ◌, ◌-ℤ◌, ltb_ℤ, leb_ℤ, min_ℤ, wrap64, sat64}
use go_httpclient.Shared.Text.{atoi}
use go_httpclient.Http.Message.{Response, get}
use go_httpclient.Http.World.{World}
use go_httpclient.Breaker.{second}

-- A strategy may read the clock and keep a state, so it takes the world and returns it.
abbrev pub BackoffFunc : Type 0
BackoffFunc = ℕ → Option Response → World → ℤ × World

unfoldable pub constant_backoff : ℤ → BackoffFunc
constant_backoff d attempt resp w = (d, w)

-- `if backoff > maxDuration { return maxDuration }; return backoff`
abbrev pub capped : ℤ → ℤ → ℤ
capped max_duration backoff = if ltb_ℤ max_duration backoff then max_duration else backoff

-- The duration of `LinearBackoff`.
unfoldable pub linear : ℤ → ℤ → ℕ → ℤ
linear base max_duration attempt = capped max_duration (wrap64 (base *ℤ wrap64 (pos (attempt + 1))))

unfoldable pub linear_backoff : ℤ → ℤ → BackoffFunc
unfolding linear
linear_backoff base max_duration attempt resp w = (linear base max_duration attempt, w)

unfoldable pub overflows_exp : ℤ → ℕ → Bool
overflows_exp base attempt = leb 63 attempt || ltb_ℤ (pos ((2 ^ 63 - 1) / 2 ^ attempt)) base

-- What the three exponential strategies compute before their jitter, where nothing overflows:
-- `min(base * (1 << attempt), maxDuration)`.
unfoldable pub exponential : ℤ → ℤ → ℕ → ℤ
exponential base max_duration attempt =
    min_ℤ (wrap64 (base *ℤ wrap64 (pos (2 ^ attempt)))) max_duration

-- The loop of `fibonacci`, with its rounds left.
fibonacci_loop : ℕ → ℤ → ℤ → ℤ
fibonacci_loop zero a b = b
fibonacci_loop (suc k) a b = fibonacci_loop k b (wrap64 (a +ℤ b))

unfoldable pub fibonacci : ℕ → ℤ
unfolding fibonacci_loop
fibonacci n = if leb n 2 then pos 1 else fibonacci_loop (n - 2) (pos 1) (pos 1)

-- The duration of `FibonacciBackoff`.
unfoldable pub fibonacci_delay : ℤ → ℤ → ℕ → ℤ
fibonacci_delay base max_duration attempt =
    capped max_duration (wrap64 (base *ℤ fibonacci (attempt + 1)))

unfoldable pub fibonacci_backoff : ℤ → ℤ → BackoffFunc
unfolding fibonacci_delay
fibonacci_backoff base max_duration attempt resp w = (fibonacci_delay base max_duration attempt, w)

unfoldable pub with_max : BackoffFunc → ℤ → BackoffFunc
with_max backoff max_duration attempt resp w =
    let (d, w') = backoff attempt resp w in (if ltb_ℤ max_duration d then max_duration else d, w')

unfoldable pub with_min : BackoffFunc → ℤ → BackoffFunc
with_min backoff min_duration attempt resp w =
    let (d, w') = backoff attempt resp w in (if ltb_ℤ d min_duration then min_duration else d, w')

-- `time.Duration(seconds) * time.Second`
unfoldable pub seconds_duration : ℤ → ℤ
seconds_duration seconds = wrap64 (seconds *ℤ pos second)

-- `if hint, ok := …; ok && hint > d { return hint }; return d`
abbrev pub longer : Option ℤ → ℤ → ℤ
longer none d = d
longer (some hint) d = if ltb_ℤ d hint then hint else d

-- `http.ParseTime` is given by `parse_time`.
module _ (parse_time : String → Option ℤ) where
  -- The hint of a header value that is not "", at a reading of the clock.
  unfoldable pub retry_after_value : String → ℤ → Option ℤ
  retry_after_value value now = elim (atoi value) [
    | some seconds ↦ if leb_ℤ seconds (pos 0) then none else some (seconds_duration seconds)
    | none ↦ elim (parse_time value) [
      | none ↦ none
      | some t ↦ if ltb_ℤ (pos 0) (sat64 (t -ℤ now)) then some (sat64 (t -ℤ now)) else none
    ]
  ]

  abbrev retry_after_header : Response → ℤ → Option ℤ
  retry_after_header r now =
      let value = get "Retry-After" r.header in
      if str_eq value "" then none else retry_after_value value now

  -- `parseRetryAfter`
  unfoldable pub parse_retry_after : Option Response → ℤ → Option ℤ
  parse_retry_after none now = none
  parse_retry_after (some r) now =
      if r.status_code == 429 || r.status_code == 503 then retry_after_header r now else none

  unfoldable pub with_retry_after : BackoffFunc → BackoffFunc
  with_retry_after backoff attempt resp w =
      let (d, w') = backoff attempt resp w in (longer (parse_retry_after resp w'.now) d, w')
