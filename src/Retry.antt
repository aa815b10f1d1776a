-- ===== src/Retry.antt =====
-- retry.go.
pub mod Sends
pub mod Attempts
pub mod Protection
pub mod Budget
pub mod Clock
pub mod Duration
pub mod Cutoff
use go_httpclient.Shared.{
  ℕ, zero, suc, ◌+◌, ◌-◌, Bool, true, false, not, ◌&&◌, ◌||◌, Option, none, some, String, ltb, ◌==◌,
  if◌then◌else◌, is_some,
}
use text.Mathlib.Text.{◌==◌ as str_eq}
use go_httpclient.Shared.Int.{ℤ, pos, leb_ℤ}
use go_httpclient.Shared.Float.{Float64}
use go_httpclient.Http.Error.{Err}
use go_httpclient.Http.Message.{Body, Response, Outcome, refuse}
use go_httpclient.Http.World.{
  World, Request, RoundTripper, Middleware, Fetched, ok, err, select, close_request_body,
  unless_stopped, drain_and_close,
}
use go_httpclient.ErrorClass.Classify.{kind_of, kind_is_retryable}
use go_httpclient.Breaker.{positive_or}
use go_httpclient.Backoff.{BackoffFunc}
use go_httpclient.Backoff.Jitter.{exponential_backoff}
use go_httpclient.Timeout.{under_timeout}

-- `RetryConfig`, as the caller writes it.
pub record RetryConfig : Type 0 where
  pub max_attempts : ℤ
  pub attempt_timeout : ℤ
  pub backoff : Option BackoffFunc
  pub is_retryable : Option (Outcome → Bool)
  pub retry_all_methods : Bool

-- The same with the defaults applied.
pub record Policy : Type 0 where
  pub max_attempts : ℕ
  pub attempt_timeout : ℤ
  pub backoff : BackoffFunc
  pub is_retryable : Outcome → Bool
  pub retry_all_methods : Bool

-- 429, 502, 503 and 504
unfoldable pub is_retryable_status : ℕ → Bool
is_retryable_status n = n == 429 || (n == 502 || (n == 503 || n == 504))

-- `DefaultIsRetryable`
unfoldable pub default_is_retryable : Outcome → Bool
default_is_retryable o = elim o.err [
  | some e ↦ kind_is_retryable (kind_of e)
  | none ↦ elim o.resp [ none ↦ false | some r ↦ is_retryable_status r.status_code ]
]

-- `isIdempotent`
unfoldable pub is_idempotent : String → Bool
is_idempotent m =
    str_eq m "GET"
    || (str_eq m "HEAD" || (str_eq m "OPTIONS" || (str_eq m "PUT" || str_eq m "DELETE")))

-- The body is nil or `http.NoBody`.
abbrev pub has_no_body : Option Body → Bool
has_no_body none = true
has_no_body (some Body.no_body) = true
has_no_body (some b) = false

-- `canRetry`
unfoldable pub can_retry : Policy → Request → Bool
can_retry cfg req =
    if not cfg.retry_all_methods && not (is_idempotent req.method)
    then false
    else has_no_body req.body || is_some req.get_body

-- What `prepareRequest` returns.
pub data Prepared : Type 0 where
  ready : Request → Prepared
  failed : Err → Prepared

abbrev pub with_body : Request → Fetched → Prepared
with_body req (ok b) = ready (record req { body = some b })
with_body req (err e) = failed e

-- `prepareRequest`
unfoldable pub prepare_request : Request → ℕ → World → Prepared
prepare_request req attempt w =
    if attempt == 0
    then ready req
    else (elim req.get_body [ none ↦ ready req | some fetch ↦ with_body req (fetch w) ])

-- `attempt`
unfoldable pub attempt : Policy → RoundTripper → RoundTripper
attempt cfg next req w =
    if leb_ℤ cfg.attempt_timeout (pos 0)
    then next req w
    else under_timeout cfg.attempt_timeout next req w

-- `waitBackoff`
unfoldable pub wait_backoff : Policy → Request → ℕ → Option Response → World → Option Err × World
wait_backoff cfg req attempt prev w =
    let (d, w') = cfg.backoff (attempt - 1) prev w in select req.ctx d w'

-- `if attempt > 0 { … waitBackoff … }`
unfoldable pub pause : Policy → Request → ℕ → Option Response → World → Option Err × World
pause cfg req attempt prev w =
    if attempt == 0 then (none, w) else wait_backoff cfg req attempt prev w

-- The loop's round behind the wait and the preparation; `again` is the rest of the loop.
unfoldable pub try_once :
    Policy
    → RoundTripper
    → ℕ
    → Request
    → (Outcome → World → Outcome × World)
    → World
    → Outcome × World
try_once cfg next k req again w =
    let (o, w') = attempt cfg next req w in
    if cfg.is_retryable o
    then again o (if ltb k (cfg.max_attempts - 1) then drain_and_close o.resp w' else w')
    else (o, w')

-- The error of the preparation closes the request's body too.
abbrev pub if_ready :
    Request → Prepared → World → (Request → World → Outcome × World) → Outcome × World
if_ready req (ready req') w go = go req' w
if_ready req (failed e) w go = (refuse e, close_request_body req w)

-- One round of the loop: wait, prepare, try.
unfoldable pub one_round :
    Policy
    → RoundTripper
    → Request
    → ℕ
    → Outcome
    → (Outcome → World → Outcome × World)
    → World
    → Outcome × World
one_round cfg next req k last again w =
    let (stopped, w1) = pause cfg req k last.resp w in
    unless_stopped req stopped w1
      (λ v. if_ready req (prepare_request req k v) v (λ req' u. try_once cfg next k req' again u))

-- The loop of `RoundTrip` from attempt `k` on, with the rounds left; `last` holds `resp` and `err`.
unfoldable pub loop : ℕ → Policy → RoundTripper → Request → ℕ → Outcome → World → Outcome × World
loop zero cfg next req k last w = (last, w)
loop (suc n) cfg next req k last w =
    let again = loop n cfg next req (k + 1) in one_round cfg next req k last again w

-- `retryRoundTripper.RoundTrip`
unfoldable pub round_trip : Policy → RoundTripper → RoundTripper
round_trip cfg next req w =
    if can_retry cfg req
    then loop cfg.max_attempts cfg next req 0 (record { resp = none; err = none }) w
    else attempt cfg next req w

module _ (fl : Float64) (rand : ℕ → fl.F) where
  abbrev backoff_or_default : Option BackoffFunc → BackoffFunc
  backoff_or_default none = exponential_backoff fl rand (pos 100_000_000) (pos 10_000_000_000)
  backoff_or_default (some b) = b

  abbrev retryable_or_default : Option (Outcome → Bool) → Outcome → Bool
  retryable_or_default none = default_is_retryable
  retryable_or_default (some p) = p

  -- The defaults of `Retry`: 3 attempts, exponential backoff from 100ms to 10s.
  unfoldable pub with_defaults : RetryConfig → Policy
  unfolding default_is_retryable
  with_defaults cfg = record {
    max_attempts = positive_or cfg.max_attempts 3;
    attempt_timeout = cfg.attempt_timeout;
    backoff = backoff_or_default cfg.backoff;
    is_retryable = retryable_or_default cfg.is_retryable;
    retry_all_methods = cfg.retry_all_methods;
  }

  -- `Retry`
  unfoldable pub retry : RetryConfig → Middleware
  unfolding with_defaults
  retry cfg = round_trip (with_defaults cfg)
