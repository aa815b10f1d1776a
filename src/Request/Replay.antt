-- ===== src/Request/Replay.antt =====
-- Whether the retry middleware can send again what the request builder built (request.go,
-- retry.go).
use go_httpclient.Shared.{
  ℕ, ◌+◌, ◌≤◌, ◌<◌, ◌≡◌, refl, sym, subst, ap, ◌∙◌, Bool, true, false, Option, none, some, String,
  Option-cases, Bool-cases, is_some, ◌||◌, List, length, arith, inl, inr,
}
use text.Mathlib.Text.{◌==◌ as str_eq}
use go_httpclient.Shared.Int.{pos}
use go_httpclient.Http.Error.{Err}
use go_httpclient.Http.Message.{Body}
use go_httpclient.Http.World.{Request, ok}
use go_httpclient.Retry.{Policy, can_retry, is_idempotent, has_no_body}
use go_httpclient.Request.{
  Source, Sending, from_bytes, spliced, RequestBuilder, set_body, set_body_bytes,
}
use go_httpclient.Request.Execute.{
  max_buffer_bytes, method_or_get, take, drop, resolved, of_buffered, resolve_body, Net, build,
  build_with, built, body_of, not_built, new_request, with_replay, Built, final_url,
}
use go_httpclient.Request.Buffering.{buffer_small, buffer_large}

request_of : Built → Request → Request
request_of (built r) d = r
request_of (not_built e) d = d

built_inj : {a b : Request} → built a ≡ built b → b ≡ a
unfolding request_of
built_inj {a} {b} h = ap (λ r. request_of r a) (sym h)

pub refusal_built : (e : Err) (req : Request) → ¬ (not_built e ≡ built req)
refusal_built e req h = ground arith

pub build_passed :
    (net : Net) (rb : RequestBuilder) (body : Option Source) (bytes : Option (List ℕ))
    (req : Request)
    → rb.body ≡ body
    → rb.body_bytes ≡ bytes
    → build net rb ≡ built req
    → build_with net rb (final_url net rb) (resolve_body body bytes) ≡ built req
unfolding build
build_passed net rb body bytes req b c h = elim (Option-cases rb.err) [
  | inl e ↦
      subst (λ x. build_with net rb (final_url net rb) (resolve_body body x) ≡ built req) c
        (subst
          (λ x. build_with net rb (final_url net rb) (resolve_body x rb.body_bytes) ≡ built req) b
          (subst (λ x. x ≡ built req) (rw e) h))
  | inr (x, e) ↦ absurd (refusal_built x req (subst (λ y. y ≡ built req) (rw e) h))
]

pub build_resolved :
    (net : Net) (rb : RequestBuilder) (url : String) (s : Option Sending) (bytes : Option (List ℕ))
    (req : Request)
    → build_with net rb url (resolved s bytes) ≡ built req
    → req ≡ with_replay net bytes (new_request net rb.method url rb.headers s)
build_resolved net rb url s bytes req h = elim (Option-cases (net.check rb.method url)) [
  | inl e ↦
      built_inj {a = with_replay net bytes (new_request net rb.method url rb.headers s)} {b = req}
        (subst (λ b. b ≡ built req) (rw (build_with, e)) h)
  | inr (x, e) ↦ absurd (refusal_built x req (subst (λ b. b ≡ built req) (rw (build_with, e)) h))
]

-- What `can_retry` says of a request with a body and an idempotent method.
can_retry_body :
    (cfg : Policy) (req : Request)
    → is_idempotent req.method ≡ true
    → can_retry cfg req ≡ (has_no_body req.body || is_some req.get_body)
unfolding can_retry
can_retry_body cfg req idem = rw idem (ground arith)

-- The method that an empty one stands for is idempotent where the method is.
idempotent_or_get : (m : String) → is_idempotent m ≡ true → is_idempotent (method_or_get m) ≡ true
unfolding is_idempotent
idempotent_or_get m h = elim (Bool-cases (str_eq m "")) [ inl e ↦ rw e refl | inr e ↦ rw e h ]

or_true : (b : Bool) → (b || true) ≡ true
or_true b = ground arith

pub small_built :
    (net : Net) (rb : RequestBuilder) (url : String) (src : Source) (req : Request)
    → src.failure ≡ none
    → length src.content ≤ max_buffer_bytes
    → build_with net rb url (resolve_body (some src) none) ≡ built req
    → req
      ≡ with_replay net
          (some src.content)
          (new_request net rb.method url rb.headers (some (from_bytes src.content)))
unfolding resolve_body
small_built net rb url src req clean small h =
    build_resolved net rb url (some (from_bytes src.content)) (some src.content) req (
      subst (λ b. build_with net rb url (of_buffered b) ≡ built req) (buffer_small src clean small)
        h)

large_built :
    (net : Net) (rb : RequestBuilder) (url : String) (src : Source) (req : Request)
    → max_buffer_bytes < length src.content
    → build_with net rb url (resolve_body (some src) none) ≡ built req
    → req
      ≡ new_request net rb.method url rb.headers (
          some (
            spliced
              (take (max_buffer_bytes + 1) src.content)
              (record src { content = drop (max_buffer_bytes + 1) src.content })))
unfolding resolve_body with_replay
large_built net rb url src req large h =
    build_resolved net rb url _ none req
      (subst (λ b. build_with net rb url (of_buffered b) ≡ built req) (buffer_large src large) h)

small_retries :
    (net : Net) (rb : RequestBuilder) (url : String) (bs : List ℕ) (cfg : Policy)
    → is_idempotent rb.method ≡ true
    → let req =
        with_replay net
          (some bs)
          (new_request net rb.method url rb.headers (some (from_bytes bs))) in
      (can_retry cfg req ≡ true)
      × (req.content_length ≡ pos (length bs))
      × (req.get_body ≡ some (λ w. ok (Body.stream (net.body_number (from_bytes bs)))))
unfolding new_request with_replay
small_retries net rb url bs cfg idem =
    let sent = new_request net rb.method url rb.headers (some (from_bytes bs)) in
    (
      can_retry_body cfg (with_replay net (some bs) sent) (idempotent_or_get rb.method idem)
          ∙ or_true _,
      refl,
      refl,
    )

large_retries :
    (net : Net) (rb : RequestBuilder) (url : String) (bs : List ℕ) (rest : Source) (cfg : Policy)
    → is_idempotent rb.method ≡ true
    → let req = new_request net rb.method url rb.headers (some (spliced bs rest)) in
      (can_retry cfg req ≡ false) × (req.get_body ≡ none)
unfolding new_request
large_retries net rb url bs rest cfg idem = (
  can_retry_body cfg (new_request net rb.method url rb.headers (some (spliced bs rest)))
      (idempotent_or_get rb.method idem),
  refl,
)

-- Of the requests that the builder makes with an idempotent method and a body that was set from a
-- reader which does not fail, the retry middleware can retry those with at most 10 MB and no other.
-- For those the length is the content's, and GetBody gives a reader of the same content each time;
-- for a longer body there is no GetBody.
pub retries_buffered_bodies :
    (net : Net) (rb : RequestBuilder) (src : Source) (req : Request) (cfg : Policy)
    → rb.body ≡ some src
    → rb.body_bytes ≡ none
    → src.failure ≡ none
    → build net rb ≡ built req
    → is_idempotent rb.method ≡ true
    → (length src.content ≤ max_buffer_bytes
        → (can_retry cfg req ≡ true)
          × (req.content_length ≡ pos (length src.content))
          × (req.get_body
              ≡ some (λ w. ok (Body.stream (net.body_number (from_bytes src.content))))))
      × (max_buffer_bytes < length src.content
          → (can_retry cfg req ≡ false) × (req.get_body ≡ none))
retries_buffered_bodies net rb src req cfg b nb clean h idem =
    let ready = build_passed net rb (some src) none req b nb h in
    (
      λ small.
          subst
            (λ q.
              (can_retry cfg q ≡ true)
              × (q.content_length ≡ pos (length src.content))
              × (q.get_body
                  ≡ some (λ w. ok (Body.stream (net.body_number (from_bytes src.content))))))
            (sym (small_built net rb (final_url net rb) src req clean small ready))
            (small_retries net rb (final_url net rb) src.content cfg idem),
      λ large.
          subst (λ q. (can_retry cfg q ≡ false) × (q.get_body ≡ none))
            (sym (large_built net rb (final_url net rb) src req large ready))
            (large_retries net rb (final_url net rb) _ _ cfg idem),
    )

bytes_win :
    (net : Net) (rb : RequestBuilder) (bs : List ℕ) (src : Source)
    → build net (set_body_bytes (some bs) rb)
      ≡ build net (set_body (some src) (set_body_bytes (some bs) rb))
unfolding build set_body set_body_bytes resolve_body
bytes_win net rb bs src = refl

-- Where a body was set from bytes, SetBody with a reader changes nothing: the request that is built
-- is the one that is built without it. It carries the bytes that were set before, with their
-- length, and its GetBody gives a body that replays them.
pub set_body_keeps_bytes :
    (net : Net) (rb : RequestBuilder) (bs : List ℕ) (src : Source) (req : Request)
    → build net (set_body (some src) (set_body_bytes (some bs) rb)) ≡ built req
    → (build net (set_body_bytes (some bs) rb) ≡ built req)
      × (req.body ≡ body_of net (some (from_bytes bs)))
      × (req.content_length ≡ pos (length bs))
      × (req.get_body ≡ some (λ w. ok (Body.stream (net.body_number (from_bytes bs)))))
unfolding set_body set_body_bytes resolve_body with_replay new_request
set_body_keeps_bytes net rb bs src req h =
    let last = set_body (some src) (set_body_bytes (some bs) rb) in
    let same =
      build_resolved net last (final_url net last) (some (from_bytes bs)) (some bs) req
        (build_passed net last (some src) (some bs) req refl refl h) in
    (
      bytes_win net rb bs src ∙ h,
      ap (λ r. r.body) same,
      ap (λ r. r.content_length) same,
      ap (λ r. r.get_body) same,
    )
