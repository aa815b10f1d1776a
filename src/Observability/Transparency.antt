-- ===== src/Observability/Transparency.antt =====
-- Metrics and logging do not disturb a request (metrics.go, logging.go); DecodeJSON always releases
-- the body (decode.go).
use go_httpclient.Shared.{
  ℕ, ◌<◌, ◌≡◌, ◌↔◌, refl, ap, Bool, true, false, Option, none, some, arith, leb, if◌then◌else◌, inl,
  inr, Option-cases, Bool-cases,
}
use go_httpclient.Http.Message.{Body, Response, Outcome}
use go_httpclient.Http.World.{World, Request, RoundTripper, recorded, logged, emit}
use go_httpclient.Http.World.Bodies.{stream_of, IsClosed, drain_and_close-IsClosed}
use go_httpclient.Observability.{
  MetricsConfig, LoggingConfig, metrics, metrics_round_trip, metric_event, logging,
  logging_round_trip, log_entry, Json, of_json, decoded, decode_json, is_success,
}

metrics_once :
    (cfg : MetricsConfig) (next : RoundTripper) (req : Request) (w : World)
    → let (o, w') = next req w in
      metrics cfg next req w ≡ (
        o,
        if cfg.has_recorder
            then emit (recorded (metric_event cfg.path_normalizer req w o w')) w'
            else w',
      )
unfolding metrics metrics_round_trip
metrics_once cfg next req w = elim (Bool-cases cfg.has_recorder) [ inl e ↦ rw e | inr e ↦ rw e ]

success_means :
    (o : Outcome)
    → (is_success o ≡ true)
      ↔ ((o.err ≡ none) × ((r : Response) × (o.resp ≡ some r) × (r.status_code < 500)))
success_means o = elim (Option-cases o.err) [
  | inr (e, f) ↦ (λ h. ground arith, λ h. ground arith)
  | inl clean ↦ elim (Option-cases o.resp) [
    | inl e ↦ (λ h. ground arith, λ h. ground arith)
    | inr (r, e) ↦ (λ h. (clean, (r, e, ground arith)), λ h. ground arith)
  ]
]

logging_outcome :
    (cfg : LoggingConfig) (next : RoundTripper) (req : Request) (w : World)
    → (logging cfg next req w).0 ≡ (next req w).0
unfolding logging logging_round_trip
logging_outcome cfg next req w = ground arith

logging_off :
    (cfg : LoggingConfig) (next : RoundTripper) (req : Request) (w : World)
    → cfg.has_logger ≡ false
    → logging cfg next req w ≡ next req w
unfolding logging
logging_off cfg next req w off = rw off

logging_all :
    (cfg : LoggingConfig) (next : RoundTripper) (req : Request) (w : World)
    → cfg.has_logger ≡ true
    → cfg.should_log ≡ none
    → let (o, w') = next req w in
      logging cfg next req w ≡ (o, emit (logged (log_entry req w o w')) w')
unfolding logging logging_round_trip
logging_all cfg next req w on all = rw (on, all)

logging_filtered :
    (cfg : LoggingConfig) (f : Request → Outcome → Bool) (next : RoundTripper) (req : Request)
    (w : World)
    → cfg.has_logger ≡ true
    → cfg.should_log ≡ some f
    → let (o, w') = next req w in
      logging cfg next req w ≡ (o, if f req o then emit (logged (log_entry req w o w')) w' else w')
unfolding logging logging_round_trip
logging_filtered cfg f next req w on filter = elim (Bool-cases (f req (next req w).0)) [
  | inl yes_ ↦ rw (on, filter, yes_)
  | inr no_ ↦ rw (on, filter, no_)
]

-- Metrics and logging return what the next round tripper returned and change nothing of the world
-- but for one event in front at most: with a recorder one metric event for each call; with a logger
-- and no filter one entry; with a logger and a filter one entry where the filter says yes to the
-- request and the outcome, and none where it says no; without them nothing. The metric event tells
-- of success exactly if there was no error and a response below 500, and carries the error.
pub observers_are_transparent :
    (mcfg : MetricsConfig) (lcfg : LoggingConfig) (next : RoundTripper) (req : Request) (w : World)
    → let (o, w') = next req w in
      let event = metric_event mcfg.path_normalizer req w o w' in
      (metrics mcfg next req w ≡ (o, if mcfg.has_recorder then emit (recorded event) w' else w'))
      × ((event.success ≡ true)
          ↔ ((o.err ≡ none) × ((r : Response) × (o.resp ≡ some r) × (r.status_code < 500))))
      × (event.error ≡ o.err)
      × ((logging lcfg next req w).0 ≡ o)
      × (lcfg.has_logger ≡ false → logging lcfg next req w ≡ (o, w'))
      × (lcfg.has_logger ≡ true
          → lcfg.should_log ≡ none
          → logging lcfg next req w ≡ (o, emit (logged (log_entry req w o w')) w'))
      × ((f : Request → Outcome → Bool)
          → lcfg.has_logger ≡ true
          → lcfg.should_log ≡ some f
          → logging lcfg next req w
            ≡ (o, if f req o then emit (logged (log_entry req w o w')) w' else w'))
unfolding metric_event
observers_are_transparent mcfg lcfg next req w = (
  metrics_once mcfg next req w,
  success_means (next req w).0,
  refl,
  logging_outcome lcfg next req w,
  λ off. logging_off lcfg next req w off,
  λ on all. logging_all lcfg next req w on all,
  λ f on filter. logging_filtered lcfg f next req w on filter,
)

decoded-of_json : {A : Type 0} (j : Json A) (a : A) → of_json j ≡ decoded a → j ≡ Json.value a
decoded-of_json (Json.value x) a h = ground arith
decoded-of_json (Json.broken e) a h = ground arith

-- DecodeJSON closes the body of the response on every path, behind any wrappers that cancel a
-- context when they are closed; and it yields exactly the value that the decoder made of the body,
-- where the status is below 300 and the decoder made one, and an error otherwise.
pub decode_json_releases :
    {A : Type 0} (decode : Option Body → World → Json A × World) (r : Response) (x : Body) (b : ℕ)
    (w : World)
    → r.body ≡ some x
    → stream_of x ≡ some b
    → IsClosed b (decode_json decode r w).1
      × ((a : A)
          → ((decode_json decode r w).0 ≡ decoded a)
            ↔ ((r.status_code < 300) × ((decode r.body w).0 ≡ Json.value a)))
unfolding decode_json
decode_json_releases {A} decode r x b w h k = elim (Bool-cases (leb 300 r.status_code)) [
  | inl bad ↦
      rw bad
        (drain_and_close-IsClosed r x b w h k, λ a. (λ d. ground arith, λ v. absurd (ground arith)))
  | inr good ↦ rw good (
    drain_and_close-IsClosed r x b (decode r.body w).1 h k,
    λ a. (λ d. (ground arith, decoded-of_json (decode r.body w).0 a d), λ v. ap of_json v.1),
  )
]
