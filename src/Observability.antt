-- ===== src/Observability.antt =====
-- metrics.go, logging.go and decode.go.
pub mod Transparency
use go_httpclient.Shared.{
  ℕ, Bool, true, false, ◌&&◌, Option, none, some, String, ltb, leb, if◌then◌else◌,
}
use go_httpclient.Shared.Int.{ℤ, pos, ◌-ℤ◌, ltb_ℤ, sat64}
use go_httpclient.Http.Error.{Err}
use go_httpclient.Http.Message.{Body, Response, Outcome}
use go_httpclient.Http.World.{
  World, Request, RoundTripper, Middleware, MetricEvent, LogEntry, emit, recorded, logged,
  drain_and_close,
}

-- `MetricsConfig`: whether a recorder is set, and the normalizer.
pub record MetricsConfig : Type 0 where
  pub has_recorder : Bool
  pub path_normalizer : Option (String → String)

-- `normalizePath`
unfoldable pub normalize_path : Option (String → String) → String → String
normalize_path none path = ""
normalize_path (some f) path = f path

-- `err == nil && resp != nil && resp.StatusCode < 500`
abbrev pub is_success : Outcome → Bool
is_success o = elim o.err [
  | some e ↦ false
  | none ↦ elim o.resp [ none ↦ false | some r ↦ ltb r.status_code 500 ]
]

abbrev pub status_or_zero : Option Response → ℕ
status_or_zero none = 0
status_or_zero (some r) = r.status_code

-- A length, where it is positive, else 0.
abbrev pub positive_part : ℤ → ℤ
positive_part n = if ltb_ℤ (pos 0) n then n else pos 0

abbrev pub bytes_received : Option Response → ℤ
bytes_received none = pos 0
bytes_received (some r) = positive_part r.content_length

-- The event of `metricsRoundTripper.RoundTrip`: the request and the world before the call, the
-- outcome and the world after it.
unfoldable pub metric_event :
    Option (String → String) → Request → World → Outcome → World → MetricEvent
metric_event normalizer req before o after = record {
  method = req.method;
  host = req.host;
  path = normalize_path normalizer req.path;
  status_code = status_or_zero o.resp;
  duration = sat64 (after.now -ℤ before.now);
  bytes_sent = positive_part req.content_length;
  bytes_received = bytes_received o.resp;
  error = o.err;
  success = is_success o;
}

-- `metricsRoundTripper.RoundTrip`
unfoldable pub metrics_round_trip : Option (String → String) → RoundTripper → RoundTripper
metrics_round_trip normalizer next req w =
    let (o, w') = next req w in (o, emit (recorded (metric_event normalizer req w o w')) w')

-- `Metrics`
unfoldable pub metrics : MetricsConfig → Middleware
metrics cfg next = if cfg.has_recorder then metrics_round_trip cfg.path_normalizer next else next

-- `LoggingConfig`: whether a logger is set, and the filter.
pub record LoggingConfig : Type 0 where
  pub has_logger : Bool
  pub should_log : Option (Request → Outcome → Bool)

unfoldable pub log_entry : Request → World → Outcome → World → LogEntry
log_entry req before o after = record {
  method = req.method;
  url = req.url;
  status_code = status_or_zero o.resp;
  duration = sat64 (after.now -ℤ before.now);
  error = o.err;
}

-- `loggingRoundTripper.RoundTrip`
unfoldable pub logging_round_trip : (Request → Outcome → Bool) → RoundTripper → RoundTripper
logging_round_trip should_log next req w =
    let (o, w') = next req w in
    if should_log req o then (o, emit (logged (log_entry req w o w')) w') else (o, w')

abbrev always : Option (Request → Outcome → Bool) → Request → Outcome → Bool
always none req o = true
always (some p) req o = p req o

-- `Logging`
unfoldable pub logging : LoggingConfig → Middleware
logging cfg next = if cfg.has_logger then logging_round_trip (always cfg.should_log) next else next

-- What `DecodeJSON` returns: the value, or why there is none.
pub data Decoded (A : Type 0) : Type 0 where
  decoded : A → Decoded A
  unexpected_status : ℕ → Decoded A
  malformed : Err → Decoded A

-- What `json.Decoder.Decode` makes of a body, which is given by `decode`.
pub data Json (A : Type 0) : Type 0 where
  value : A → Json A
  broken : Err → Json A

abbrev pub of_json : {A : Type 0} → Json A → Decoded A
of_json (value a) = decoded a
of_json (broken e) = malformed (Err.wrapped e)

-- `DecodeJSON` of a response. The deferred `drainAndClose` comes last on every path.
unfoldable pub decode_json :
    {A : Type 0} → (Option Body → World → Json A × World) → Response → World → Decoded A × World
decode_json decode r w =
    if leb 300 r.status_code
    then (unexpected_status r.status_code, drain_and_close (some r) w)
    else (let (j, w') = decode r.body w in (of_json j, drain_and_close (some r) w'))
