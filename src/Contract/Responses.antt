-- ===== src/Contract/Responses.antt =====
-- No middleware but retry leaks the body of a response (circuitbreaker.go, timeout.go,
-- ratelimit.go, metrics.go, logging.go).
pub mod Retrying
use go_httpclient.Shared.{
  ℕ, ◌≡◌, refl, sym, ◌∙◌, Bool, true, false, ◌&&◌, Option, none, some, String, arith, inl, inr,
  Bool-cases,
}
use go_httpclient.Shared.Int.{ℤ, ltb_ℤ, sat64, ◌-ℤ◌}
use go_httpclient.Http.Error.{Err}
use go_httpclient.Http.Message.{Response, Outcome}
use go_httpclient.Http.World.{
  World, Request, RoundTripper, close_request_body, unless_stopped, with_timeout,
}
use go_httpclient.Http.World.Bodies.{
  closing, is_opened, carried_by, Keeps, OpensNone, Keeps-settle, OpensNone-close_request_body,
  OpensNone-settle, OpensNone-select, carried_by-settle,
}
use go_httpclient.Breaker.{StateTransition}
use go_httpclient.Breaker.RoundTrip.{
  publish, allow_request, record_result, round_trip as break_circuit,
}
use go_httpclient.Timeout.{under_timeout, has_shorter_deadline, round_trip as bound_time}
use go_httpclient.RateLimit.{
  RateLimiter, await_window, acquire, note_value, note_retry_after, round_trip as limit_rate,
}
use go_httpclient.Observability.{
  MetricsConfig, LoggingConfig, metrics, metrics_round_trip, logging, logging_round_trip,
}
use go_httpclient.Contract.{
  Honors, Account, before, closed, returned, Accounts, Releases, ReleasesOver, IsOpenHanded,
}
use go_httpclient.Contract.Layers.{Keeps-record_result, Keeps-note_retry_after}

-- What was accounted for stays so where more is closed, nothing opened, and the same body returned.
pub Accounts-after :
    (w : World) (out out' : Outcome × World)
    → Keeps out.1 out'.1
    → OpensNone out.1 out'.1
    → carried_by out'.0.resp ≡ carried_by out.0.resp
    → Accounts w out
    → Accounts w out'
Accounts-after w out out' keeps shut same accounts b opened =
    go (accounts b (sym (shut b) ∙ opened))
  where
    go : Account w out b → Account w out' b
    go (before h) = before h
    go (closed h) = closed (keeps (closing b) h)
    go (returned h) = returned (same ∙ h)

pub Accounts-before :
    (w v : World) (out : Outcome × World) → OpensNone w v → Accounts v out → Accounts w out
Accounts-before w v out shut accounts b opened = go (accounts b opened)
  where
    go : Account v out b → Account w out b
    go (before h) = before (sym (shut b) ∙ h)
    go (closed h) = closed h
    go (returned h) = returned h

pub Accounts-none : (w : World) (out : Outcome × World) → OpensNone w out.1 → Accounts w out
Accounts-none w out shut b opened = before (sym (shut b) ∙ opened)

OpensNone-publish : (t : Option StateTransition) (w : World) → OpensNone w (publish t w)
unfolding publish
OpensNone-publish none w b = refl
OpensNone-publish (some t) w b = refl

OpensNone-allow_request : (p : ℕ) (w : World) → OpensNone w (allow_request p w).2
unfolding allow_request
OpensNone-allow_request p w b = OpensNone-publish _ _ b

OpensNone-record_result :
    (p : ℕ) (o : Outcome) (gen : ℕ) (w : World) → OpensNone w (record_result p o gen w)
unfolding record_result
OpensNone-record_result p o gen w b = OpensNone-publish _ _ b

pub break_circuit-Releases : (p : ℕ) → ReleasesOver (break_circuit p)
unfolding break_circuit
break_circuit-Releases p next honest release req w =
    let (allowed, gen, v) = allow_request p w in
    elim (Bool-cases (allow_request p w).0) [
      | inl in_ ↦ rw in_ (
          Accounts-after w (next req v) _ (Keeps-record_result p (next req v).0 gen (next req v).1)
            (OpensNone-record_result p (next req v).0 gen (next req v).1) refl
            (Accounts-before w v (next req v) (OpensNone-allow_request p w) (release req v)))
      | inr out ↦ rw out (
          Accounts-before w v _ (OpensNone-allow_request p w)
            (Accounts-none v _ (OpensNone-close_request_body req v)))
    ]

pub under_timeout-Releases : (d : ℤ) → ReleasesOver (under_timeout d)
unfolding under_timeout with_timeout
under_timeout-Releases d next honest release req w =
    let (ctx, v) = with_timeout req.ctx d w in
    let out = next (record req { ctx = ctx }) v in
    Accounts-after w out _ (Keeps-settle ctx.id out) (OpensNone-settle ctx.id out)
      (carried_by-settle ctx.id out)
      (Accounts-before w v out (λ b. refl) (release (record req { ctx = ctx }) v))

pub bound_time-Releases : (d : ℤ) → ReleasesOver (bound_time d)
unfolding bound_time
bound_time-Releases d next honest release req w =
    elim (Bool-cases (has_shorter_deadline req.ctx.deadline d w)) [
      | inl short ↦ rw short (release req w)
      | inr long ↦ rw long (under_timeout-Releases d next honest release req w)
    ]

pub Accounts-unless_stopped :
    (req : Request) (o : Option Err) (w v : World) (go : World → Outcome × World)
    → OpensNone w v
    → Accounts v (go v)
    → Accounts w (unless_stopped req o v go)
Accounts-unless_stopped req none w v go shut h = Accounts-before w v (go v) shut h
Accounts-unless_stopped req (some e) w v go shut h =
    Accounts-before w v _ shut (Accounts-none v _ (OpensNone-close_request_body req v))

OpensNone-await_window :
    (respect : Bool) (p : ℕ) (req : Request) (w : World)
    → OpensNone w (await_window respect p req w).1
unfolding await_window
OpensNone-await_window respect p req w b =
    elim (Bool-cases (respect && ltb_ℤ w.now (w.retry_at p))) [
      | inl e ↦ rw e (OpensNone-select req.ctx (sat64 (w.retry_at p -ℤ w.now)) w b)
      | inr e ↦ rw e
    ]

OpensNone-acquire :
    (limiter : RateLimiter) (wait : Bool) (req : Request) (w : World)
    → IsOpenHanded limiter
    → OpensNone w (acquire limiter wait req w).1
unfolding acquire
OpensNone-acquire limiter true req w fair b = fair.waits_shut req.ctx w b
OpensNone-acquire limiter false req w fair b = fair.tries_shut w b

OpensNone-note_retry_after :
    (parse_time : String → Option ℤ) (respect : Bool) (p : ℕ) (r : Option Response) (w : World)
    → OpensNone w (note_retry_after parse_time respect p r w)
unfolding note_retry_after note_value
OpensNone-note_retry_after parse_time respect p none w b = refl
OpensNone-note_retry_after parse_time respect p (some r) w b = ground arith

pub limit_rate-Releases :
    (parse_time : String → Option ℤ) (limiter : RateLimiter) (wait respect : Bool) (p : ℕ)
    → IsOpenHanded limiter
    → ReleasesOver (limit_rate parse_time limiter wait respect p)
unfolding limit_rate
limit_rate-Releases parse_time limiter wait respect p fair next honest release req w =
    let (late, w1) = await_window respect p req w in
    let (denied, w2) = acquire limiter wait req w1 in
    Accounts-unless_stopped req late w w1 admitted (OpensNone-await_window respect p req w) (
      Accounts-unless_stopped req denied w1 w2 sent_on (OpensNone-acquire limiter wait req w1 fair)
        (Accounts-after w2 (next req w2) (sent_on w2)
          (Keeps-note_retry_after parse_time respect p (next req w2).0.resp (next req w2).1)
          (OpensNone-note_retry_after parse_time respect p (next req w2).0.resp (next req w2).1)
          refl (release req w2)))
  where
    sent_on : World → Outcome × World
    sent_on u = let (o, w3) = next req u in (o, note_retry_after parse_time respect p o.resp w3)

    admitted : World → Outcome × World
    admitted v =
        let (denied, w2) = acquire limiter wait req v in unless_stopped req denied w2 sent_on

pub metrics-Releases : (cfg : MetricsConfig) → ReleasesOver (metrics cfg)
unfolding metrics metrics_round_trip
metrics-Releases cfg next honest release req w = elim (Bool-cases cfg.has_recorder) [
  | inl on ↦ rw on (Accounts-after w (next req w) _ (λ b h. h) (λ b. refl) refl (release req w))
  | inr off ↦ rw off (release req w)
]

logging_round_trip-Releases :
    (keep : Request → Outcome → Bool) → ReleasesOver (logging_round_trip keep)
unfolding logging_round_trip
logging_round_trip-Releases keep next honest release req w =
    elim (Bool-cases (keep req (next req w).0)) [
      | inl on ↦ rw on (Accounts-after w (next req w) _ (λ b h. h) (λ b. refl) refl (release req w))
      | inr off ↦ rw off (release req w)
    ]

pub logging-Releases : (cfg : LoggingConfig) → ReleasesOver (logging cfg)
unfolding logging
logging-Releases cfg next honest release req w = elim (Bool-cases cfg.has_logger) [
  | inl on ↦ rw on (logging_round_trip-Releases _ next honest release req w)
  | inr off ↦ rw off (release req w)
]
