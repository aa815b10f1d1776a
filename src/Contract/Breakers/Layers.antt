-- ===== src/Contract/Breakers/Layers.antt =====
-- The middleware but for retry keeps every breaker well formed (circuitbreaker.go, timeout.go,
-- ratelimit.go, metrics.go, logging.go).
use go_httpclient.Shared.{
  ℕ, ◌≡◌, refl, Bool, true, false, ◌&&◌, Option, none, some, String, inl, inr, Bool-cases,
}
use go_httpclient.Shared.Int.{ℤ, ltb_ℤ}
use go_httpclient.Http.Error.{Err}
use go_httpclient.Http.Message.{Response, Outcome, Context}
use go_httpclient.Http.World.{
  World, Request, RoundTripper, Middleware, unless_stopped, with_timeout, settle,
  close_request_body,
}
use go_httpclient.Breaker.RoundTrip.{allow_request, round_trip as break_circuit}
use go_httpclient.Timeout.{under_timeout, has_shorter_deadline, round_trip as bound_time}
use go_httpclient.RateLimit.{
  RateLimiter, await_window, acquire, note_retry_after, round_trip as limit_rate,
}
use go_httpclient.Retry.{Policy}
use go_httpclient.Observability.{
  MetricsConfig, LoggingConfig, metrics, metrics_round_trip, logging, logging_round_trip,
}
use go_httpclient.Contract.Breakers.{
  AllValid, AllValid-same, AllValid-select, AllValid-allow_request, AllValid-record_result,
  close_request_body-breakers, settle-breakers, note_retry_after-breakers,
}

-- A round tripper that keeps the breakers well formed, and a middleware that makes one of one.
abbrev pub IsSafe : RoundTripper → Type 0
IsSafe next = (req : Request) (w : World) → AllValid w → AllValid (next req w).1

abbrev pub SafeOver : Middleware → Type 0
SafeOver m = (next : RoundTripper) → IsSafe next → IsSafe (m next)

-- The same of a limiter and of a policy's strategy.
pub record IsSafeLimiter (limiter : RateLimiter) : Type 0 where
  pub waits : (ctx : Context) (w : World) → AllValid w → AllValid (limiter.wait_context ctx w).1
  pub tries : (w : World) → AllValid w → AllValid (limiter.try_acquire w).1

abbrev pub IsSafePolicy : Policy → Type 0
IsSafePolicy cfg =
    (k : ℕ) (r : Option Response) (w : World) → AllValid w → AllValid (cfg.backoff k r w).1

pub AllValid-close : (req : Request) (w : World) → AllValid w → AllValid (close_request_body req w)
AllValid-close req w =
    AllValid-same w (close_request_body req w) (close_request_body-breakers req w)

pub break_circuit-SafeOver : (p : ℕ) → SafeOver (break_circuit p)
unfolding break_circuit
break_circuit-SafeOver p next safe req w valid =
    let admitted = AllValid-allow_request p w valid in
    elim (Bool-cases (allow_request p w).0) [
      | inl e ↦ rw e (AllValid-record_result p _ _ _ (safe req _ admitted))
      | inr e ↦ rw e (AllValid-close req _ admitted)
    ]

pub under_timeout-SafeOver : (d : ℤ) → SafeOver (under_timeout d)
unfolding under_timeout with_timeout
under_timeout-SafeOver d next safe req w valid =
    let (ctx, v) = with_timeout req.ctx d w in
    let out = next (record req { ctx = ctx }) v in
    AllValid-same out.1 (settle ctx.id out).1 (settle-breakers ctx.id out)
      (safe (record req { ctx = ctx }) v valid)

pub bound_time-SafeOver : (d : ℤ) → SafeOver (bound_time d)
unfolding bound_time
bound_time-SafeOver d next safe req w valid =
    elim (Bool-cases (has_shorter_deadline req.ctx.deadline d w)) [
      | inl e ↦ rw e (safe req w valid)
      | inr e ↦ rw e (under_timeout-SafeOver d next safe req w valid)
    ]

pub AllValid-unless_stopped :
    (req : Request) (o : Option Err) (v : World) (go : World → Outcome × World)
    → AllValid v
    → (AllValid v → AllValid (go v).1)
    → AllValid (unless_stopped req o v go).1
AllValid-unless_stopped req none v go valid rest = rest valid
AllValid-unless_stopped req (some e) v go valid rest = AllValid-close req v valid

AllValid-await_window :
    (respect : Bool) (p : ℕ) (req : Request) (w : World)
    → AllValid w
    → AllValid (await_window respect p req w).1
unfolding await_window
AllValid-await_window respect p req w valid =
    elim (Bool-cases (respect && ltb_ℤ w.now (w.retry_at p))) [
      | inl e ↦ rw e (AllValid-select req.ctx _ w valid)
      | inr e ↦ rw e valid
    ]

AllValid-acquire :
    (limiter : RateLimiter) (wait : Bool) (req : Request) (w : World)
    → IsSafeLimiter limiter
    → AllValid w
    → AllValid (acquire limiter wait req w).1
unfolding acquire
AllValid-acquire limiter true req w safe valid = safe.waits req.ctx w valid
AllValid-acquire limiter false req w safe valid = safe.tries w valid

pub limit_rate-SafeOver :
    (parse_time : String → Option ℤ) (limiter : RateLimiter) (wait respect : Bool) (p : ℕ)
    → IsSafeLimiter limiter
    → SafeOver (limit_rate parse_time limiter wait respect p)
unfolding limit_rate
limit_rate-SafeOver parse_time limiter wait respect p fair next safe req w valid =
    let (late, v) = await_window respect p req w in
    AllValid-unless_stopped req late v _ (AllValid-await_window respect p req w valid) (λ there.
      let (denied, u) = acquire limiter wait req v in
      AllValid-unless_stopped req denied u _ (AllValid-acquire limiter wait req v fair there)
        (λ got.
          let out = next req u in
          AllValid-same out.1 (note_retry_after parse_time respect p out.0.resp out.1)
            (note_retry_after-breakers parse_time respect p out.0.resp out.1) (safe req u got)))

pub metrics-SafeOver : (cfg : MetricsConfig) → SafeOver (metrics cfg)
unfolding metrics metrics_round_trip
metrics-SafeOver cfg next safe req w valid = elim (Bool-cases cfg.has_recorder) [
  | inl e ↦ rw e (safe req w valid)
  | inr e ↦ rw e (safe req w valid)
]

logging_round_trip-breakers :
    (should_log : Request → Outcome → Bool) (next : RoundTripper) (req : Request) (w : World)
    → (logging_round_trip should_log next req w).1.breakers ≡ (next req w).1.breakers
unfolding logging_round_trip
logging_round_trip-breakers should_log next req w =
    elim (Bool-cases (should_log req (next req w).0)) [ inl e ↦ rw e refl | inr e ↦ rw e refl ]

logging_round_trip-SafeOver :
    (should_log : Request → Outcome → Bool) → SafeOver (logging_round_trip should_log)
logging_round_trip-SafeOver should_log next safe req w valid =
    AllValid-same (next req w).1 (logging_round_trip should_log next req w).1
      (logging_round_trip-breakers should_log next req w) (safe req w valid)

pub logging-SafeOver : (cfg : LoggingConfig) → SafeOver (logging cfg)
unfolding logging
logging-SafeOver cfg next safe req w valid = elim (Bool-cases cfg.has_logger) [
  | inl e ↦ rw e (logging_round_trip-SafeOver _ next safe req w valid)
  | inr e ↦ rw e (safe req w valid)
]
