-- ===== src/Request/Execute.antt =====
-- request.go: `bufferBody`, `resolveBody` and `execute`. net/url, strings and http.NewRequest are
-- given by a `Net`.
use go_httpclient.Shared.{
  ℕ, zero, suc, ◌+◌, Bool, Option, none, some, List, [], ◌∷◌, String, leb, length, if◌then◌else◌,
}
use Prim.Native.String.{◌++◌ as str_append}
use text.Mathlib.Text.{◌==◌ as str_eq}
use go_httpclient.Shared.Int.{ℤ, pos, leb_ℤ}
use go_httpclient.Http.Error.{Err}
use go_httpclient.Http.Message.{Body, Header, Context, Outcome, refuse}
use go_httpclient.Http.World.{
  World, Request, RoundTripper, Fetched, ok, emit, panicked, with_timeout, settle,
}
use go_httpclient.Client.{background, do_request}
use go_httpclient.Request.{Source, Sending, from_bytes, spliced, RequestBuilder}

-- `maxBufferBytes`, 10 << 20
abbrev pub max_buffer_bytes : ℕ
max_buffer_bytes = 10_485_760

unfoldable pub take : ℕ → List ℕ → List ℕ
take zero xs = []
take (suc n) [] = []
take (suc n) (x ∷ xs) = x ∷ take n xs

unfoldable pub drop : ℕ → List ℕ → List ℕ
drop zero xs = xs
drop (suc n) [] = []
drop (suc n) (x ∷ xs) = drop n xs

-- What `bufferBody` returns.
pub data Buffered : Type 0 where
  buffered : List ℕ → Buffered
  streamed : Sending → Buffered
  unreadable : Err → Buffered

-- `bufferBody`: one byte above the limit is asked for. A source that has it is not read further.
unfoldable pub buffer_body : Source → Buffered
buffer_body src =
    let limit = max_buffer_bytes + 1 in
    if leb limit (length src.content)
    then streamed
        (spliced (take limit src.content) (record src { content = drop limit src.content }))
    else (elim src.failure [ some e ↦ unreadable e | none ↦ buffered src.content ])

-- What `resolveBody` returns: a reader and the bytes to replay, either of which may be nil.
pub data Resolved : Type 0 where
  resolved : Option Sending → Option (List ℕ) → Resolved
  unresolved : Err → Resolved

abbrev pub of_buffered : Buffered → Resolved
of_buffered (buffered bs) = resolved (some (from_bytes bs)) (some bs)
of_buffered (streamed s) = resolved (some s) none
of_buffered (unreadable e) = unresolved e

-- `resolveBody`
unfoldable pub resolve_body : Option Source → Option (List ℕ) → Resolved
resolve_body none bytes = resolved none bytes
resolve_body (some src) (some bs) = resolved (some (from_bytes bs)) (some bs)
resolve_body (some src) none = of_buffered (buffer_body src)

-- What `bufferBody` leaves in a reader. The transport may go on to read what is left.
unfoldable pub left_in : Source → Source
left_in src = record src { content = drop (max_buffer_bytes + 1) src.content }

abbrev pub left_body : Option Source → Option (List ℕ) → Option Source
left_body none bytes = none
left_body (some src) (some bs) = some src
left_body (some src) none = some (left_in src)

-- The builder behind `execute`, up to the transport's reads: only `resolveBody` does anything to
-- it, and it reads the body where no bytes are set.
unfoldable pub executed : RequestBuilder → RequestBuilder
executed rb = elim rb.err [
  | some e ↦ rb
  | none ↦ record rb { body = left_body rb.body rb.body_bytes }
]

-- What the builder uses of net/url, strings and net/http.
pub record Net : Type 0 where
  pub path_escape : String → String
  -- `replace_all s old new`
  pub replace_all : String → String → String → String
  -- `contains s part`
  pub contains : String → String → Bool
  -- `url.Values.Encode`
  pub encode : Header → String
  -- why `http.NewRequest` refuses a method and a URL, if it does
  pub check : String → String → Option Err
  -- host and path of a URL
  pub host_of : String → String
  pub path_of : String → String
  -- the number of the body that reads what the builder sends
  pub body_number : Sending → ℕ

-- What `execute` has before it sends: the request, or why there is none.
pub data Built : Type 0 where
  built : Request → Built
  not_built : Err → Built

-- `http.NewRequest` takes GET for an empty method.
abbrev pub method_or_get : String → String
method_or_get method = if str_eq method "" then "GET" else method

module _ (net : Net) where
  unfoldable pub apply_path_params : List (String × String) → String → String
  apply_path_params [] url = url
  apply_path_params ((k, v) ∷ ps) url =
      apply_path_params ps
        (net.replace_all url (str_append "{" (str_append k "}")) (net.path_escape v))

  unfoldable pub apply_query : Header → String → String
  apply_query [] url = url
  apply_query (q ∷ qs) url =
      str_append url (str_append (if net.contains url "?" then "&" else "?") (net.encode (q ∷ qs)))

  -- The body that `http.NewRequest` makes of a reader: NoBody of a bytes.Reader without bytes.
  abbrev pub body_of : Option Sending → Option Body
  body_of none = none
  body_of (some (from_bytes [])) = some Body.no_body
  body_of (some s) = some (Body.stream (net.body_number s))

  -- Its `GetBody`, which only a bytes.Reader gets.
  abbrev pub get_body_of : Option Sending → Option (World → Fetched)
  get_body_of none = none
  get_body_of (some (spliced bs src)) = none
  get_body_of (some (from_bytes [])) = some (λ w. ok Body.no_body)
  get_body_of (some (from_bytes (b ∷ bs))) =
      some (λ w. ok (Body.stream (net.body_number (from_bytes (b ∷ bs)))))

  abbrev pub length_of : Option Sending → ℤ
  length_of none = pos 0
  length_of (some (from_bytes bs)) = pos (length bs)
  length_of (some (spliced bs src)) = pos 0

  -- `http.NewRequest`, which makes a GET of an empty method, and the builder's headers
  unfoldable pub new_request : String → String → Header → Option Sending → Request
  new_request method url headers reader = record {
    method = method_or_get method;
    url = url;
    host = net.host_of url;
    path = net.path_of url;
    header = headers;
    body = body_of reader;
    get_body = get_body_of reader;
    content_length = length_of reader;
    ctx = background;
  }

  -- `if bodyBytes != nil { req.GetBody = …; req.ContentLength = … }`
  unfoldable pub with_replay : Option (List ℕ) → Request → Request
  with_replay none req = req
  with_replay (some bs) req = record req {
    get_body = some (λ w. ok (Body.stream (net.body_number (from_bytes bs))));
    content_length = pos (length bs);
  }

  abbrev pub build_with : RequestBuilder → String → Resolved → Built
  build_with rb url (unresolved e) = not_built e
  build_with rb url (resolved reader bytes) = elim (net.check rb.method url) [
    | some e ↦ not_built e
    | none ↦ built (with_replay bytes (new_request rb.method url rb.headers reader))
  ]

  -- The URL with its path and query parameters.
  abbrev pub final_url : RequestBuilder → String
  final_url rb = apply_query rb.query_params (apply_path_params rb.path_params rb.url)

  -- `execute` up to the request.
  unfoldable pub build : RequestBuilder → Built
  build rb = elim rb.err [
    | some e ↦ not_built e
    | none ↦ build_with rb (final_url rb) (resolve_body rb.body rb.body_bytes)
  ]

  -- The end of `execute`. A timeout under a nil context panics.
  abbrev pub send_within : ℤ → Option Context → RoundTripper → Request → World → Outcome × World
  send_within d none client req w = (record { resp = none; err = none }, emit panicked w)
  send_within d (some ctx) client req w =
      let (ctx', w') = with_timeout ctx d w in
      settle ctx'.id (do_request client (some ctx') (some req) w')

  abbrev pub send : RequestBuilder → RoundTripper → Built → World → Outcome × World
  send rb client (not_built e) w = (refuse e, w)
  send rb client (built req) w =
      if leb_ℤ rb.timeout (pos 0)
      then do_request client rb.ctx (some req) w
      else send_within rb.timeout rb.ctx client req w

  -- `execute` over a client's round tripper.
  unfoldable pub execute : RoundTripper → RequestBuilder → World → Outcome × World
  execute client rb w = send rb client (build rb) w

  -- `Execute`; `Get`, `Post` and the others give it their method.
  unfoldable pub execute_method :
      RoundTripper → String → String → RequestBuilder → World → Outcome × World
  unfolding execute
  execute_method client method url rb w =
      execute client (record rb { method = method; url = url }) w
