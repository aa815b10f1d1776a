-- ===== src/Examples.antt =====
-- Data at which the properties are tried, and, in the modules below, the trials.
mod Errors
mod Breaking
mod Retrying
mod Waiting
mod Limiting
mod Wiring
mod Building
mod Composing
mod Running
mod Guarding
use go_httpclient.Shared.{
  ℕ, ◌+◌, ◌-◌, ◌*◌, ◌/◌, Bool, true, false, Option, none, some, List, [], ◌∷◌, String, ltb, leb,
}
use go_httpclient.Shared.Int.{ℤ, pos, pos_part}
use go_httpclient.Shared.Float.{Float64}
use go_httpclient.Http.Error.{Err}
use go_httpclient.Http.Message.{Body, Response, Outcome, Context, answer, refuse}
use go_httpclient.Http.World.{World, Request, RoundTripper, sent, emit}
use go_httpclient.Breaker.{CircuitBreakerConfig, CircuitBreaker, new_circuit_breaker, apply_verdict}

-- A breaker that opens at the first failure and closes at the first success, after 100 ns.
abbrev pub small_config : CircuitBreakerConfig
small_config = record {
  failure_threshold = pos 1;
  reset_timeout = pos 100;
  is_failure = none;
  max_half_open_requests = pos 1;
  success_threshold = pos 1;
  on_state_change = true;
}

abbrev pub fresh_breaker : CircuitBreaker
fresh_breaker = new_circuit_breaker small_config

-- The same after a failure at time 10.
abbrev pub tripped_breaker : CircuitBreaker
tripped_breaker = (apply_verdict (pos 10) true 0 fresh_breaker).1

-- A world at a time in which every pointer leads to one breaker.
abbrev pub world_at : ℤ → CircuitBreaker → World
world_at now cb = record {
  now = now;
  on_invalid_config = true;
  coins = [];
  events = [];
  breakers = λ p. cb;
  draws = 0;
  last_backoff = λ p. pos 0;
  retry_at = λ p. pos 0;
  read_time = λ b. 0;
  next_context = 1;
}

abbrev pub world : World
world = world_at (pos 20) fresh_breaker

abbrev pub context : Context
context = record { id = 0; deadline = none; cancel_at = none }

-- A context that its owner cancels at time 15.
abbrev pub canceled_context : Context
canceled_context = record { id = 0; deadline = none; cancel_at = some (pos 15) }

abbrev pub request : Request
request = record {
  method = "GET";
  url = "http://host/path";
  host = "host";
  path = "/path";
  header = [];
  body = none;
  get_body = none;
  content_length = pos 0;
  ctx = context;
}

abbrev pub posting : Request
posting = record request { method = "POST"; body = some (Body.stream 7) }

abbrev pub busy_response : Response
busy_response = record {
  status_code = 503;
  header = ("Retry-After", "3" ∷ []) ∷ [];
  body = some (Body.stream 5);
  content_length = pos 4;
}

abbrev pub limited_response : Response
limited_response = record busy_response { status_code = 429 }

-- Transports that send a request and are answered the same each time.
abbrev pub busy : RoundTripper
busy req w = (answer busy_response, emit sent w)

abbrev pub failing : RoundTripper
failing req w = (refuse (Err.plain 1), emit sent w)

-- Amounts in billionths that are not negative, in place of float64.
abbrev pub billionths : Float64
billionths = record {
  F = ℕ;
  of_int = λ n. pos_part n * 1_000_000_000;
  trunc = λ x. pos (x / 1_000_000_000);
  seconds = pos_part;
  plus = λ x y. x + y;
  minus = λ x y. x - y;
  times = λ x y. x * y / 1_000_000_000;
  over = λ x y. x * 1_000_000_000 / y;
  lt = ltb;
  le = leb;
  nought = 0;
  fifth = 200_000_000;
  one = 1_000_000_000;
  two = 2_000_000_000;
  three = 3_000_000_000;
  billion = 1_000_000_000 * 1_000_000_000;
}

abbrev pub no_date : String → Option ℤ
no_date s = none
