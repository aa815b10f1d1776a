-- ===== src/Examples/Building.antt =====
-- The properties of the request builder, at bodies.
use go_httpclient.Shared.{
  ℕ, ◌≤◌, ◌<◌, ◌≡◌, refl, true, false, some, none, List, length, [], ◌∷◌, ◌++◌,
}
use go_httpclient.Shared.Int.{pos}
use go_httpclient.Http.Message.{Body, get, refuse}
use go_httpclient.Http.World.{Request, ok}
use go_httpclient.Client.{background}
use go_httpclient.Backoff.{constant_backoff}
use go_httpclient.Retry.{Policy, default_is_retryable, can_retry, is_idempotent}
use go_httpclient.Request.Setters.{Setter, apply_setter, apply_setters}
use go_httpclient.Request.Setters.Maps.{values, write_all}
use go_httpclient.Request.Setters.Headers.{all_writes, header_writes, query_writes}
use go_httpclient.Request.Setters.Sent.{request_says, set_header_read_back}
use go_httpclient.Request.Setters.Failing.{failed_marshaling_refuses}
use go_httpclient.Http.Error.{Err}
use go_httpclient.Request.{
  marshaled, unsupported, set_header, add_header, set_auth_token, set_body_marshaled,
  set_content_type, add_query_param, set_values, add_value, Source, RequestBuilder, new_builder,
  set_body, set_body_bytes, from_bytes,
}
use go_httpclient.Request.Execute.{
  max_buffer_bytes, resolve_body, buffer_body, Net, executed, execute_method, build, built, body_of,
  new_request, with_replay, apply_query, apply_path_params,
}
use go_httpclient.Request.Reuse.{emptied, executed_again}
use go_httpclient.Examples.{world, busy}
use go_httpclient.Request.Replay.{retries_buffered_bodies, set_body_keeps_bytes}

abbrev two_bytes : Source
two_bytes = record { content = 1 ∷ 2 ∷ []; failure = none }

abbrev other_bytes : Source
other_bytes = record { content = 3 ∷ []; failure = none }

-- A net without escapes, whose bodies have the number 9.
abbrev pub plain_net : Net
plain_net = record {
  path_escape = λ s. s;
  replace_all = λ s old new. s;
  contains = λ s part. false;
  encode = λ q. "";
  check = λ m u. none;
  host_of = λ u. "host";
  path_of = λ u. u;
  body_number = λ s. 9;
}

abbrev putting : RequestBuilder
putting = record {
  ctx = some background;
  method = "PUT";
  url = "/item";
  headers = [];
  query_params = [];
  path_params = [];
  body = some two_bytes;
  body_bytes = none;
  timeout = pos 0;
  err = none;
}

abbrev put_request : Request
put_request = record {
  method = "PUT";
  url = "/item";
  host = "host";
  path = "/item";
  header = [];
  body = some (Body.stream 9);
  get_body = some (λ w. ok (Body.stream 9));
  content_length = pos 2;
  ctx = background;
}

put_built : build plain_net putting ≡ built put_request
unfolding build apply_query apply_path_params resolve_body buffer_body new_request with_replay
put_built = refl

abbrev twice : Policy
twice = record {
  max_attempts = 2;
  attempt_timeout = pos 0;
  backoff = constant_backoff (pos 50);
  is_retryable = default_is_retryable;
  retry_all_methods = false;
}

put_is_idempotent : is_idempotent "PUT" ≡ true
unfolding is_idempotent
put_is_idempotent = refl

retries_buffered_bodies_example :
    (2 ≤ max_buffer_bytes
      → (can_retry twice put_request ≡ true)
        × (put_request.content_length ≡ pos 2)
        × (put_request.get_body ≡ some (λ w. ok (Body.stream 9))))
    × (max_buffer_bytes < 2 → (can_retry twice put_request ≡ false) × (put_request.get_body ≡ none))
retries_buffered_bodies_example =
    retries_buffered_bodies plain_net putting two_bytes put_request twice refl refl refl put_built
      put_is_idempotent

-- The request that New().SetBodyBytes of one byte builds.
abbrev byte_request : Request
byte_request = record {
  method = "GET";
  url = "";
  host = "host";
  path = "";
  header = [];
  body = some (Body.stream 9);
  get_body = some (λ w. ok (Body.stream 9));
  content_length = pos 1;
  ctx = background;
}

byte_built :
    build plain_net (set_body (some other_bytes) (set_body_bytes (some (1 ∷ [])) new_builder))
    ≡ built byte_request
unfolding build apply_query apply_path_params resolve_body new_request with_replay new_builder
    set_body set_body_bytes
byte_built = refl

set_body_keeps_bytes_example :
    (build plain_net (set_body_bytes (some (1 ∷ [])) new_builder) ≡ built byte_request)
    × (byte_request.body ≡ body_of plain_net (some (from_bytes (1 ∷ []))))
    × (byte_request.content_length ≡ pos 1)
    × (byte_request.get_body ≡ some (λ w. ok (Body.stream 9)))
set_body_keeps_bytes_example =
    set_body_keeps_bytes plain_net new_builder (1 ∷ []) other_bytes byte_request byte_built

-- Calls on a builder, with keys in canonical form and base64 that changes nothing.
abbrev earlier_calls : List Setter
earlier_calls =
    Setter.with_added_header "Accept" "a" ∷ Setter.with_body_json (marshaled (1 ∷ [])) ∷ []

abbrev later_calls : List Setter
later_calls = Setter.with_auth_token "t" ∷ Setter.with_added_query_param "q" "1" ∷ []

abbrev calls : List Setter
calls = earlier_calls ++ Setter.with_header "Accept" "b" ∷ later_calls

-- The request that a POST of them makes.
abbrev called : Request
called = record {
  method = "POST";
  url = "/items?";
  host = "host";
  path = "/items?";
  header =
      ("Accept", "b" ∷ [])
      ∷ ("Content-Type", "application/json" ∷ [])
      ∷ ("Authorization", "Bearer t" ∷ [])
      ∷ [];
  body = some (Body.stream 9);
  get_body = some (λ w. ok (Body.stream 9));
  content_length = pos 1;
  ctx = background;
}

abbrev calling : RequestBuilder
calling = apply_setters (λ k. k) (λ s. s) calls new_builder

calls_built : build plain_net (record calling { method = "POST"; url = "/items" }) ≡ built called
unfolding build apply_query apply_path_params resolve_body new_request with_replay new_builder
    apply_setter set_header add_header set_auth_token set_body_marshaled set_content_type
    set_body_bytes add_query_param set_values add_value
calls_built = refl

request_says_example :
    (values called.header
      ≡ write_all (all_writes (header_writes (λ k. k) (λ s. s)) calls) (λ key. []))
    × (values calling.query_params ≡ write_all (all_writes query_writes calls) (λ key. []))
request_says_example =
    request_says (λ k. k) (λ s. s) plain_net calls "POST" "/items" called calls_built

set_header_read_back_example : get "Accept" called.header ≡ "b"
set_header_read_back_example =
    set_header_read_back (λ k. k) (λ s. s) plain_net earlier_calls later_calls "Accept" "b" "POST"
      "/items" called (refl, tt) calls_built

-- A value that cannot be marshaled, between calls that succeed.
abbrev failing_calls : List Setter
failing_calls =
    Setter.with_header "Accept" "a"
    ∷ Setter.with_body_xml (unsupported (Err.plain 3))
    ∷ Setter.with_body_json (marshaled (1 ∷ []))
    ∷ []

failed_marshaling_refuses_example :
    let rb = apply_setters (λ k. k) (λ s. s) failing_calls new_builder in
    ((e : Err)
      → some (Err.plain 3) ≡ some e
      → execute_method plain_net busy "PUT" "/item" rb world ≡ (refuse e, world))
    × (some (Err.plain 3) ≡ none → rb.err ≡ none)
failed_marshaling_refuses_example =
    failed_marshaling_refuses (λ k. k) (λ s. s) plain_net busy failing_calls "PUT" "/item" world

executed_again_example :
    ((bs : List ℕ) → none ≡ some bs → build plain_net (executed putting) ≡ built put_request)
    × ((src : Source)
        → some two_bytes ≡ some src
        → putting.body_bytes ≡ none
        → src.failure ≡ none
        → length src.content ≤ max_buffer_bytes
        → build plain_net (executed putting) ≡ built (emptied plain_net put_request))
executed_again_example = executed_again plain_net putting put_request put_built
