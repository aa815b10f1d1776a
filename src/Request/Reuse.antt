-- ===== src/Request/Reuse.antt =====
-- A builder that is executed again (request.go; the comment of `RequestBuilder`).
use go_httpclient.Shared.{
  ℕ, zero, suc, ◌+◌, ◌≤◌, ◌≡◌, refl, sym, subst, ap, ◌∙◌, Option, none, some, List, [], ◌∷◌, String,
  length, arith, inl, inr, Option-cases,
}
use go_httpclient.Shared.Int.{pos}
use go_httpclient.Http.Error.{Err}
use go_httpclient.Http.Message.{Body, Header}
use go_httpclient.Http.World.{Request, ok}
use go_httpclient.Request.{Source, Sending, from_bytes, RequestBuilder}
use go_httpclient.Request.Execute.{
  max_buffer_bytes, drop, Net, Built, built, not_built, Resolved, resolved, unresolved, of_buffered,
  resolve_body, build, build_with, final_url, with_replay, new_request, left_in, left_body,
  executed,
}
use go_httpclient.Request.Buffering.{buffer_small}
use go_httpclient.Request.Replay.{refusal_built, build_passed, small_built}

drop_all : (n : ℕ) (xs : List ℕ) → length xs ≤ n → drop n xs ≡ []
unfolding drop
drop_all zero [] h = refl
drop_all zero (x ∷ xs) h = absurd (omega arith)
drop_all (suc n) [] h = refl
drop_all (suc n) (x ∷ xs) h = drop_all n xs (omega arith)

-- What a body that has been read gives.
resolve_body-left :
    (src : Source)
    → src.failure ≡ none
    → length src.content ≤ max_buffer_bytes
    → resolve_body (some (left_in src)) none ≡ resolved (some (from_bytes [])) (some [])
unfolding resolve_body left_in
resolve_body-left src clean small =
    let gone = drop_all (max_buffer_bytes + 1) src.content (omega arith) in
    rw gone (ap of_buffered (buffer_small (record src { content = [] }) clean (omega arith)))

-- The request without its body.
abbrev pub emptied : Net → Request → Request
emptied net req = record req {
  body = some Body.no_body;
  get_body = some (λ w. ok (Body.stream (net.body_number (from_bytes []))));
  content_length = pos 0;
}

-- A request that is built was built without an error.
built_fine :
    (net : Net) (rb : RequestBuilder) (req : Request) → build net rb ≡ built req → rb.err ≡ none
unfolding build
built_fine net rb req h = elim (Option-cases rb.err) [
  | inl e ↦ e
  | inr (x, e) ↦ absurd (refusal_built x req (subst (λ y. y ≡ built req) (rw e) h))
]

-- The builder's reader matters only by what `resolveBody` makes of it.
build_with-body :
    (net : Net) (rb : RequestBuilder) (o : Option Source) (url : String) (r : Resolved)
    → build_with net (record rb { body = o }) url r ≡ build_with net rb url r
build_with-body net rb o url (unresolved e) = refl
build_with-body net rb o url (resolved s bytes) = refl

executed_fine :
    (rb : RequestBuilder)
    → rb.err ≡ none
    → executed rb ≡ record rb { body = left_body rb.body rb.body_bytes }
unfolding executed
executed_fine rb fine =
    let then_ : RequestBuilder = record rb { body = left_body rb.body rb.body_bytes } in
    ap {B = RequestBuilder} (λ (x : Option Err). elim x [ some e ↦ rb | none ↦ then_ ]) fine

build_fine :
    (net : Net) (rb : RequestBuilder)
    → rb.err ≡ none
    → build net rb ≡ build_with net rb (final_url net rb) (resolve_body rb.body rb.body_bytes)
unfolding build
build_fine net rb fine =
    let then_ = build_with net rb (final_url net rb) (resolve_body rb.body rb.body_bytes) in
    ap {B = Built} (λ (x : Option Err). elim x [ some e ↦ not_built e | none ↦ then_ ]) fine

build-executed :
    (net : Net) (rb : RequestBuilder)
    → rb.err ≡ none
    → build net (executed rb)
      ≡ build_with net rb
          (final_url net rb)
          (resolve_body (left_body rb.body rb.body_bytes) rb.body_bytes)
build-executed net rb fine =
    let o = left_body rb.body rb.body_bytes in
    ap (build net) (executed_fine rb fine)
    ∙ build_fine net (record rb { body = o }) fine
    ∙ build_with-body net rb o (final_url net rb) (resolve_body o rb.body_bytes)

-- With bytes the reader is not read.
resolve_body-kept :
    (o : Option Source) (bs : List ℕ)
    → resolve_body (left_body o (some bs)) (some bs) ≡ resolve_body o (some bs)
unfolding resolve_body
resolve_body-kept none bs = refl
resolve_body-kept (some src) bs = refl

-- The check of method and URL does not depend on the body.
checked_again :
    (net : Net) (rb : RequestBuilder) (url : String) (s s' : Option Sending)
    (bytes bytes' : Option (List ℕ)) (req : Request)
    → build_with net rb url (resolved s bytes) ≡ built req
    → build_with net rb url (resolved s' bytes')
      ≡ built (with_replay net bytes' (new_request net rb.method url rb.headers s'))
checked_again net rb url s s' bytes bytes' req h = elim (Option-cases (net.check rb.method url)) [
  | inl e ↦ rw (build_with, e) refl
  | inr (x, e) ↦ absurd (refusal_built x req (subst (λ b. b ≡ built req) (rw (build_with, e)) h))
]

small_resolved :
    (src : Source)
    → src.failure ≡ none
    → length src.content ≤ max_buffer_bytes
    → resolve_body (some src) none ≡ resolved (some (from_bytes src.content)) (some src.content)
unfolding resolve_body
small_resolved src clean small = ap of_buffered (buffer_small src clean small)

emptied_lem :
    (net : Net) (method url : String) (headers : Header) (bs : List ℕ)
    → with_replay net (some []) (new_request net method url headers (some (from_bytes [])))
      ≡ emptied net
          (with_replay net (some bs) (new_request net method url headers (some (from_bytes bs))))
unfolding with_replay new_request
emptied_lem net method url headers bs = refl

-- A builder can be executed again, with its maps ranged over in the same order. Where a body was
-- set from bytes, the second request is the first one. Where it was set from a reader that does not
-- fail and gives at most 10 MB, the first execution has used the reader up: the second request is
-- the first one without its body.
pub executed_again :
    (net : Net) (rb : RequestBuilder) (req : Request)
    → build net rb ≡ built req
    → ((bs : List ℕ) → rb.body_bytes ≡ some bs → build net (executed rb) ≡ built req)
      × ((src : Source)
          → rb.body ≡ some src
          → rb.body_bytes ≡ none
          → src.failure ≡ none
          → length src.content ≤ max_buffer_bytes
          → build net (executed rb) ≡ built (emptied net req))
executed_again net rb req first =
    let again = build-executed net rb (built_fine net rb req first) in
    let url = final_url net rb in
    (
      λ bs bytes.
          again
          ∙ rw bytes (
              ap (build_with net rb url) (resolve_body-kept rb.body bs)
              ∙ build_passed net rb rb.body (some bs) req refl bytes first),
      λ src reader no_bytes clean small.
          let ready = build_passed net rb (some src) none req reader no_bytes first in
          let ready' =
            subst (λ r. build_with net rb url r ≡ built req) (small_resolved src clean small)
              ready in
          again
          ∙ rw (reader, no_bytes)
              (ap (build_with net rb url) (resolve_body-left src clean small)
                ∙ checked_again net rb url (some (from_bytes src.content)) (some (from_bytes []))
                    (some src.content) (some []) req ready'
                ∙ ap built (
                    emptied_lem net rb.method url rb.headers src.content
                    ∙ ap (emptied net) (sym (small_built net rb url src req clean small ready)))),
    )
