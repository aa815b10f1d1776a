-- ===== src/Basic.antt =====
-- examples/basic/main.go: a client of three layers, and five requests through it. What is printed
-- is left out; to print a response reads its body.
pub mod Leaks
use go_httpclient.Shared.{ℕ, ◌*◌, Option, none, some, List, [], ◌∷◌, String, false}
use go_httpclient.Shared.Int.{ℤ, pos}
use go_httpclient.Shared.Float.{Float64}
use go_httpclient.Http.Message.{Context, Outcome}
use go_httpclient.Http.World.{
  World, RoundTripper, Middleware, emit, panicked, close_body, drain_body, with_timeout, cancel,
}
use go_httpclient.Breaker.{CircuitBreakerConfig, second}
use go_httpclient.Breaker.RoundTrip.{circuit_breaker, new_shared}
use go_httpclient.Timeout.{timeout}
use go_httpclient.Backoff.{BackoffFunc}
use go_httpclient.Backoff.Jitter.{exponential_backoff}
use go_httpclient.Retry.{RetryConfig, retry}
use go_httpclient.Client.{background, with_middleware, new}
use go_httpclient.Request.{RequestBuilder, Marshaled, new_builder}
use go_httpclient.Request.Execute.{Net, execute_method}
use go_httpclient.Request.Setters.{Setter, apply_setters}

abbrev pub breaker_config : CircuitBreakerConfig
breaker_config = record {
  failure_threshold = pos 5;
  reset_timeout = pos (30 * second);
  is_failure = none;
  max_half_open_requests = pos 0;
  success_threshold = pos 0;
  on_state_change = false;
}

-- What each request's function does behind the call: an error is logged; of a response the body is
-- read and closed, and there must be one.
unfoldable pub show : Outcome × World → World
show (o, w) = elim o.err [
  | some e ↦ w
  | none ↦ elim o.resp [
    | none ↦ emit panicked w
    | some r ↦ elim r.body [ none ↦ emit panicked w | some b ↦ close_body b (drain_body b w) ]
  ]
]

module _ (fl : Float64) (rand : ℕ → fl.F) where
  abbrev pub retry_config : RetryConfig
  retry_config = record {
    max_attempts = pos 3;
    attempt_timeout = pos 0;
    backoff = some (exponential_backoff fl rand (pos 100_000_000) (pos (5 * second)));
    is_retryable = none;
    retry_all_methods = false;
  }

  -- The client of `main`, its breaker at `p`, and the world in which it was made.
  unfoldable pub basic_client : RoundTripper → ℕ → World → RoundTripper × World
  basic_client transport p w =
      let (bounded, w1) = timeout (pos (10 * second)) w in
      (
        new transport (
            with_middleware (
              bounded
              ∷ (λ next. (circuit_breaker breaker_config p next w1).0)
              ∷ retry fl rand retry_config
              ∷ [])
            ∷ []),
        new_shared breaker_config p w1,
      )

module _ (net : Net) (canonical : String → String) (base64 : String → String)
    (client : RoundTripper) where
  -- `client.R()`, some setters, a method with a URL, and what is done with the outcome.
  abbrev pub request_and_show : List Setter → String → String → World → World
  request_and_show ss method url w =
      show (execute_method net client method url (apply_setters canonical base64 ss new_builder) w)

  unfoldable pub simple_get : World → World
  simple_get w = request_and_show [] "GET" "https://httpbin.org/get" w

  unfoldable pub get_with_query_params : World → World
  get_with_query_params w =
      request_and_show
        (Setter.with_query_param "page" "1"
          ∷ Setter.with_query_param "limit" "10"
          ∷ Setter.with_query_params (("sort", "created_at") ∷ ("order", "desc") ∷ [])
          ∷ [])
        "GET" "https://httpbin.org/get" w

  -- With what `json.Marshal` makes of the payload.
  unfoldable pub post_json : Marshaled → World → World
  post_json payload w =
      request_and_show (Setter.with_body_json payload ∷ []) "POST" "https://httpbin.org/post" w

  unfoldable pub path_params : World → World
  path_params w =
      request_and_show
        (Setter.with_path_param "userId" "123" ∷ Setter.with_path_param "postId" "456" ∷ []) "GET"
        "https://httpbin.org/anything/users/{userId}/posts/{postId}" w

  -- Under a context with a deadline, which is cancelled at the end.
  unfoldable pub custom_headers : World → World
  custom_headers w =
      let (ctx, w1) = with_timeout background (pos (5 * second)) w in
      cancel ctx.id (
        request_and_show
          (Setter.with_context (some ctx)
            ∷ Setter.with_header "X-Custom-Header" "custom-value"
            ∷ Setter.with_header "X-Request-ID" "req-12345"
            ∷ Setter.with_user_agent "rhttp-example/1.0"
            ∷ Setter.with_accept "application/json"
            ∷ [])
          "GET" "https://httpbin.org/headers" w1)

-- `main`
unfoldable pub run :
    (fl : Float64)
    → (ℕ → fl.F)
    → Net
    → (String → String)
    → (String → String)
    → RoundTripper
    → Marshaled
    → ℕ
    → World
    → World
run fl rand net canonical base64 transport payload p w =
    let (client, w0) = basic_client fl rand transport p w in
    let w1 = simple_get net canonical base64 client w0 in
    let w2 = get_with_query_params net canonical base64 client w1 in
    let w3 = post_json net canonical base64 client payload w2 in
    let w4 = path_params net canonical base64 client w3 in
    custom_headers net canonical base64 client w4
