-- ===== src/Examples/Wiring.antt =====
-- The properties of the client, of the timeout middleware and of the observers, at requests.
use go_httpclient.Shared.{
  Bool, is_some, if◌then◌else◌, ℕ, ◌≡◌, ◌≢◌, ◌<◌, ◌↔◌, refl, true, false, some, none, Option, List,
  [], ◌∷◌,
}
use go_httpclient.Shared.Int.{pos}
use go_httpclient.Http.Message.{Body, Response, Outcome}
use go_httpclient.Http.World.{World, Request, Middleware, emit, recorded, logged}
use go_httpclient.Client.{new, with_middleware, with_transport, ClientOption}
use go_httpclient.Client.Chain.{new-eq-wrap}
use go_httpclient.Timeout.{round_trip}
use go_httpclient.Timeout.Release.{is_canceled, finish, timeout_releases}
use go_httpclient.Breaker.RoundTrip.{round_trip as break_circuit}
use go_httpclient.Http.World.Bodies.{IsClosed}
use go_httpclient.Observability.{
  MetricsConfig, LoggingConfig, metric_event, metrics, logging, log_entry, decoded, Json,
  decode_json,
}
use go_httpclient.Observability.Transparency.{observers_are_transparent, decode_json_releases}
use go_httpclient.Examples.{world, request, busy, busy_response, failing}

abbrev two_layers : List Middleware
two_layers = break_circuit 0 ∷ break_circuit 1 ∷ []

abbrev options : List ClientOption
options =
    with_middleware (break_circuit 0 ∷ [])
    ∷ with_transport (some busy)
    ∷ with_transport none
    ∷ with_middleware (break_circuit 1 ∷ [])
    ∷ []

new-eq-wrap_example : new failing options ≡ break_circuit 0 (break_circuit 1 busy)
new-eq-wrap_example = new-eq-wrap failing options

timeout_releases_example :
    let out = round_trip (pos 30) busy request world in
    (out.0.err ≢ none → is_canceled 1 out.1.events ≡ true)
    × (out.0.err ≡ none → is_canceled 1 (finish out).events ≡ true)
timeout_releases_example = timeout_releases (pos 30) busy request world refl (λ r v a b. cc)

abbrev recording : MetricsConfig
recording = record { has_recorder = true; path_normalizer = none }

-- A logger that is asked for requests with an error only.
abbrev logging_errors : LoggingConfig
logging_errors = record { has_logger = true; should_log = some (λ req o. is_some o.err) }

observers_are_transparent_example :
    let (o, w') = busy request world in
    let event = metric_event none request world o w' in
    (metrics recording busy request world ≡ (o, emit (recorded event) w'))
    × ((event.success ≡ true)
        ↔ ((o.err ≡ none) × ((r : Response) × (o.resp ≡ some r) × (r.status_code < 500))))
    × (event.error ≡ o.err)
    × ((logging logging_errors busy request world).0 ≡ o)
    × (true ≡ false → logging logging_errors busy request world ≡ (o, w'))
    × (true ≡ true
        → logging_errors.should_log ≡ none
        → logging logging_errors busy request world
          ≡ (o, emit (logged (log_entry request world o w')) w'))
    × ((f : Request → Outcome → Bool)
        → true ≡ true
        → logging_errors.should_log ≡ some f
        → logging logging_errors busy request world
          ≡ (o, if f request o then emit (logged (log_entry request world o w')) w' else w'))
observers_are_transparent_example =
    observers_are_transparent recording logging_errors busy request world

abbrev read_number : Option Body → World → Json ℕ × World
read_number b w = (Json.value 4, w)

-- An answer under a timeout.
abbrev wrapped_response : Response
wrapped_response = record busy_response {
  status_code = 200;
  body = some (Body.cancel_body (Body.stream 5) 1);
}

decode_json_releases_example :
    IsClosed 5 (decode_json read_number wrapped_response world).1
    × ((a : ℕ)
        → ((decode_json read_number wrapped_response world).0 ≡ decoded a)
          ↔ ((200 < 300) × ((read_number wrapped_response.body world).0 ≡ Json.value a)))
decode_json_releases_example =
    decode_json_releases read_number wrapped_response (Body.cancel_body (Body.stream 5) 1) 5 world
      refl refl
