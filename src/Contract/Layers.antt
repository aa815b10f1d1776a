-- ===== src/Contract/Layers.antt =====
-- The middleware but for retry keeps to the contract (circuitbreaker.go, timeout.go, ratelimit.go,
-- metrics.go, logging.go).
use go_httpclient.Shared.{
  ℕ, ◌≡◌, Bool, true, false, ◌&&◌, Option, none, some, String, arith, inl, inr, Bool-cases,
}
use go_httpclient.Shared.Int.{ℤ, ltb_ℤ, sat64, ◌-ℤ◌}
use go_httpclient.Http.Error.{Err}
use go_httpclient.Http.Message.{Body, Response, Outcome}
use go_httpclient.Http.World.{World, Request, unless_stopped, with_timeout}
use go_httpclient.Http.World.Bodies.{
  releasing, stream_of, IsReleased, Keeps, Keeps-close_request_body, close_request_body-IsReleased,
  Keeps-settle, Keeps-select,
}
use go_httpclient.Breaker.{StateTransition}
use go_httpclient.Breaker.RoundTrip.{
  publish, allow_request, record_result, round_trip as break_circuit,
}
use go_httpclient.Timeout.{under_timeout, has_shorter_deadline, round_trip as bound_time}
use go_httpclient.RateLimit.{
  RateLimiter, await_window, acquire, note_value, note_retry_after, round_trip as limit_rate,
}
use go_httpclient.Observability.{
  MetricsConfig, LoggingConfig, metrics, metrics_round_trip, logging, logging_round_trip,
}
use go_httpclient.Contract.{HonorsOver, IsOpenHanded}

Keeps-publish : (t : Option StateTransition) (w : World) → Keeps w (publish t w)
unfolding publish
Keeps-publish none w b h = h
Keeps-publish (some t) w b h = h

Keeps-allow_request : (p : ℕ) (w : World) → Keeps w (allow_request p w).2
unfolding allow_request
Keeps-allow_request p w b h = Keeps-publish _ _ b h

pub Keeps-record_result :
    (p : ℕ) (o : Outcome) (gen : ℕ) (w : World) → Keeps w (record_result p o gen w)
unfolding record_result
Keeps-record_result p o gen w b h = Keeps-publish _ _ b h

pub break_circuit-Honors : (p : ℕ) → HonorsOver (break_circuit p)
unfolding break_circuit
break_circuit-Honors p next honest = record {
  closes = λ req x b w e s. elim (Bool-cases (allow_request p w).0) [
    | inl in_ ↦ rw in_ (Keeps-record_result p _ _ _ (releasing b) (honest.closes req x b _ e s))
    | inr out ↦ rw out (close_request_body-IsReleased req x b _ e s)
  ];
  keeps = λ req w b h.
      let h' = Keeps-allow_request p w b h in
      elim (Bool-cases (allow_request p w).0) [
        | inl in_ ↦ rw in_ (Keeps-record_result p _ _ _ b (honest.keeps req _ b h'))
        | inr out ↦ rw out (Keeps-close_request_body req _ b h')
      ];
}

pub under_timeout-Honors : (d : ℤ) → HonorsOver (under_timeout d)
unfolding under_timeout with_timeout
under_timeout-Honors d next honest = record {
  closes = λ req x b w e s. Keeps-settle _ _ (releasing b) (honest.closes _ x b _ e s);
  keeps = λ req w b h. Keeps-settle _ _ b (honest.keeps _ _ b h);
}

pub bound_time-Honors : (d : ℤ) → HonorsOver (bound_time d)
unfolding bound_time
bound_time-Honors d next honest =
    let inner = under_timeout-Honors d next honest in
    record {
      closes = λ req x b w e s. elim (Bool-cases (has_shorter_deadline req.ctx.deadline d w)) [
        | inl short ↦ rw short (honest.closes req x b w e s)
        | inr long ↦ rw long (inner.closes req x b w e s)
      ];
      keeps = λ req w b h. elim (Bool-cases (has_shorter_deadline req.ctx.deadline d w)) [
        | inl short ↦ rw short (honest.keeps req w b h)
        | inr long ↦ rw long (inner.keeps req w b h)
      ];
    }

-- A block that may refuse: the request's body is closed then.
pub unless_stopped-IsReleased :
    (req : Request) (x : Body) (b : ℕ) (o : Option Err) (w : World) (go : World → Outcome × World)
    → req.body ≡ some x
    → stream_of x ≡ some b
    → IsReleased b (go w).1
    → IsReleased b (unless_stopped req o w go).1
unless_stopped-IsReleased req x b none w go e s h = h
unless_stopped-IsReleased req x b (some stop) w go e s h =
    close_request_body-IsReleased req x b w e s

pub Keeps-unless_stopped :
    (req : Request) (o : Option Err) (w v : World) (go : World → Outcome × World)
    → Keeps w v
    → Keeps v (go v).1
    → Keeps w (unless_stopped req o v go).1
Keeps-unless_stopped req none w v go h k b c = k b (h b c)
Keeps-unless_stopped req (some stop) w v go h k b c = Keeps-close_request_body req v b (h b c)

Keeps-await_window :
    (respect : Bool) (p : ℕ) (req : Request) (w : World) → Keeps w (await_window respect p req w).1
unfolding await_window
Keeps-await_window respect p req w b h = elim (Bool-cases (respect && ltb_ℤ w.now (w.retry_at p))) [
  | inl e ↦ rw e (Keeps-select req.ctx (sat64 (w.retry_at p -ℤ w.now)) w b h)
  | inr e ↦ rw e h
]

Keeps-acquire :
    (limiter : RateLimiter) (wait : Bool) (req : Request) (w : World)
    → IsOpenHanded limiter
    → Keeps w (acquire limiter wait req w).1
unfolding acquire
Keeps-acquire limiter true req w fair b h = fair.waits req.ctx w b h
Keeps-acquire limiter false req w fair b h = fair.tries w b h

pub Keeps-note_retry_after :
    (parse_time : String → Option ℤ) (respect : Bool) (p : ℕ) (r : Option Response) (w : World)
    → Keeps w (note_retry_after parse_time respect p r w)
unfolding note_retry_after note_value
Keeps-note_retry_after parse_time respect p none w b h = h
Keeps-note_retry_after parse_time respect p (some r) w b h = ground arith

pub limit_rate-Honors :
    (parse_time : String → Option ℤ) (limiter : RateLimiter) (wait respect : Bool) (p : ℕ)
    → IsOpenHanded limiter
    → HonorsOver (limit_rate parse_time limiter wait respect p)
unfolding limit_rate
limit_rate-Honors parse_time limiter wait respect p fair next honest = record {
  closes = λ req x b w e s.
      let (late, w1) = await_window respect p req w in
      let (denied, w2) = acquire limiter wait req w1 in
      unless_stopped-IsReleased req x b late w1 (admitted req) e s (
        unless_stopped-IsReleased req x b denied w2 (sent_on req) e s (
          Keeps-note_retry_after parse_time respect p (next req w2).0.resp (next req w2).1
            (releasing b) (honest.closes req x b w2 e s)));
  keeps = λ req w.
      let (late, w1) = await_window respect p req w in
      let (denied, w2) = acquire limiter wait req w1 in
      Keeps-unless_stopped req late w w1 (admitted req) (Keeps-await_window respect p req w) (
        Keeps-unless_stopped req denied w1 w2 (sent_on req) (Keeps-acquire limiter wait req w1 fair)
          (λ b h.
            Keeps-note_retry_after parse_time respect p (next req w2).0.resp (next req w2).1 b
              (honest.keeps req w2 b h)));
}
  where
    sent_on : Request → World → Outcome × World
    sent_on req u = let (o, w3) = next req u in (o, note_retry_after parse_time respect p o.resp w3)

    admitted : Request → World → Outcome × World
    admitted req v =
        let (denied, w2) = acquire limiter wait req v in unless_stopped req denied w2 (sent_on req)

pub metrics-Honors : (cfg : MetricsConfig) → HonorsOver (metrics cfg)
unfolding metrics metrics_round_trip
metrics-Honors cfg next honest = elim (Bool-cases cfg.has_recorder) [
  | inl on ↦ rw on (record { closes = honest.closes; keeps = honest.keeps })
  | inr off ↦ rw off honest
]

pub logging-Honors : (cfg : LoggingConfig) → HonorsOver (logging cfg)
unfolding logging logging_round_trip
logging-Honors cfg next honest = elim (Bool-cases cfg.has_logger) [
  | inl on ↦ rw on (record {
    closes = λ req x b w e s. ground (arith, honest.closes req x b w e s);
    keeps = λ req w b h. ground (arith, honest.keeps req w b h);
  })
  | inr off ↦ rw off honest
]
