-- ===== src/Request/Release.antt =====
-- The timeout of one request of the builder (request.go, the end of `execute`).
use go_httpclient.Shared.{◌≡◌, ◌≢◌, true, false, none, some, arith}
use go_httpclient.Shared.Int.{ℤ, pos, ◌<ℤ◌, leb_ℤ}
use go_httpclient.Http.Message.{Context}
use go_httpclient.Http.World.{World, Request, RoundTripper, with_timeout}
use go_httpclient.Timeout.Release.{is_canceled, finish, IsAnswered, settle-releases}
use go_httpclient.Client.{do_request}
use go_httpclient.Request.{RequestBuilder}
use go_httpclient.Request.Execute.{Net, build, built, send_within, execute}

send_within-releases :
    (net : Net) (client : RoundTripper) (rb : RequestBuilder) (ctx : Context) (req : Request)
    (w : World)
    → ((r : Request) (v : World) → IsAnswered (client r v).0)
    → let out = send_within net rb.timeout (some ctx) client req w in
      (out.0.err ≢ none → is_canceled w.next_context out.1.events ≡ true)
      × (out.0.err ≡ none → is_canceled w.next_context (finish out).events ≡ true)
unfolding with_timeout do_request
send_within-releases net client rb ctx req w answers =
    let (ctx', v) = with_timeout ctx rb.timeout w in
    let sent = record req { ctx = ctx' } in
    ground (arith, settle-releases w.next_context (client sent v) (answers sent v))

positive_timeout : (d : ℤ) → pos 0 <ℤ d → leb_ℤ d (pos 0) ≡ false
positive_timeout d h = ground arith

-- A request that is built with a timeout and a context runs under a context of its own, which does
-- not leak where the client returns a response or an error: it has been cancelled on return if the
-- call failed, and otherwise once the caller has closed the body of the response, if it has one.
pub execute_releases :
    (net : Net) (client : RoundTripper) (rb : RequestBuilder) (ctx : Context) (req : Request)
    (w : World)
    → build net rb ≡ built req
    → pos 0 <ℤ rb.timeout
    → rb.ctx ≡ some ctx
    → ((r : Request) (v : World) → IsAnswered (client r v).0)
    → let out = execute net client rb w in
      (out.0.err ≢ none → is_canceled w.next_context out.1.events ≡ true)
      × (out.0.err ≡ none → is_canceled w.next_context (finish out).events ≡ true)
unfolding execute
execute_releases net client rb ctx req w b d c answers =
    rw (b, positive_timeout rb.timeout d, c) (send_within-releases net client rb ctx req w answers)
