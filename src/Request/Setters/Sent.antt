-- ===== src/Request/Setters/Sent.antt =====
-- The request that `execute` sends says what was written to its builder (request.go).
use go_httpclient.Shared.{
  ℕ, ◌≡◌, refl, sym, ap, ◌∙◌, Option, none, some, List, [], ◌∷◌, ◌++◌, String,
}
use go_httpclient.Http.Message.{get}
use go_httpclient.Http.World.{Request}
use go_httpclient.Request.{RequestBuilder, new_builder}
use go_httpclient.Request.Execute.{
  Net, built, Resolved, resolved, unresolved, build, with_replay, new_request, resolve_body,
  final_url, build_with,
}
use go_httpclient.Request.Replay.{refusal_built, build_passed, build_resolved}
use mathlib.Core.Path.{fun_ext}
use go_httpclient.Request.Setters.{Setter, apply_setter, apply_setters}
use go_httpclient.Request.Setters.Maps.{
  values, MultiMap, Write, replaces, write_all, write_all-append, Spares, write_all-Spares, first,
  get-first, str_eq_self, write,
}
use go_httpclient.Request.Setters.Headers.{
  header_writes, query_writes, all_writes, header_map, query_map, apply_setter-map,
}

with_replay-header :
    (net : Net) (bytes : Option (List ℕ)) (req : Request)
    → (with_replay net bytes req).header ≡ req.header
unfolding with_replay
with_replay-header net none req = refl
with_replay-header net (some bs) req = refl

-- The headers of a request that is built are the builder's.
resolved-header :
    (net : Net) (rb : RequestBuilder) (req : Request) (r : Resolved)
    → build_with net rb (final_url net rb) r ≡ built req
    → req.header ≡ rb.headers
unfolding new_request
resolved-header net rb req (unresolved e) h = absurd (refusal_built e req h)
resolved-header net rb req (resolved s bytes) h =
    ap (λ r. r.header) (build_resolved net rb (final_url net rb) s bytes req h)
    ∙ with_replay-header net bytes _

build-header :
    (net : Net) (rb : RequestBuilder) (req : Request)
    → build net rb ≡ built req
    → req.header ≡ rb.headers
build-header net rb req h =
    resolved-header net rb req (resolve_body rb.body rb.body_bytes)
      (build_passed net rb rb.body rb.body_bytes req refl refl h)

all_writes-append :
    (f : Setter → List Write) (xs ys : List Setter) (m : MultiMap)
    → write_all (all_writes f (xs ++ ys)) m
      ≡ write_all (all_writes f ys) (write_all (all_writes f xs) m)
all_writes-append f [] ys m = refl
all_writes-append f (x ∷ xs) ys m =
    write_all-append (f x) (all_writes f (xs ++ ys)) m
    ∙ all_writes-append f xs ys (write_all (f x) m)
    ∙ ap (write_all (all_writes f ys)) (sym (write_all-append (f x) (all_writes f xs) m))

module _ (canonical : String → String) (base64 : String → String) where
  apply_setters-map :
      (ss : List Setter) (rb : RequestBuilder)
      → let rb' = apply_setters canonical base64 ss rb in
        (header_map rb'
          ≡ write_all (all_writes (header_writes canonical base64) ss) (header_map rb))
        × (query_map rb' ≡ write_all (all_writes query_writes ss) (query_map rb))
  apply_setters-map [] rb = (refl, refl)
  apply_setters-map (s ∷ ss) rb =
      let (h, q) = apply_setters-map ss (apply_setter canonical base64 s rb) in
      let (h1, q1) = apply_setter-map canonical base64 s rb in
      let hs = all_writes (header_writes canonical base64) ss in
      let qs = all_writes query_writes ss in
      (
        h ∙ ap (write_all hs) h1 ∙ sym (write_all-append (header_writes canonical base64 s) hs _),
        q ∙ ap (write_all qs) q1 ∙ sym (write_all-append (query_writes s) qs _),
      )

  -- The lists that hold a builder's headers and query implement maps from keys to lists of values.
  -- After any calls of setters on a new builder, the query, and the headers of a request that is
  -- then built with any method and URL, hold for every key what the calls wrote in their order,
  -- each Set in the place of all values of its key and each Add behind them.
  pub request_says :
      (net : Net) (ss : List Setter) (method url : String) (req : Request)
      → let rb = apply_setters canonical base64 ss new_builder in
        build net (record rb { method = method; url = url }) ≡ built req
        → (values req.header
            ≡ write_all (all_writes (header_writes canonical base64) ss) (λ key. []))
          × (values rb.query_params ≡ write_all (all_writes query_writes ss) (λ key. []))
  unfolding new_builder
  request_says net ss method url req is_built =
      let rb = apply_setters canonical base64 ss new_builder in
      let (h, q) = apply_setters-map ss new_builder in
      (
        ap values (build-header net (record rb { method = method; url = url }) req is_built)
            ∙ h
            ∙ ap (write_all (all_writes (header_writes canonical base64) ss)) empty_map,
        q ∙ ap (write_all (all_writes query_writes ss)) empty_map,
      )
    where
      empty_map : values [] ≡ (λ key. [])
      empty_map = fun_ext (λ key. refl)

  -- What `SetHeader` wrote is what `Get` reads from the request that is built, whatever was called
  -- before, if nothing that was called after it writes to that key.
  pub set_header_read_back :
      (net : Net) (xs ys : List Setter) (k v method url : String) (req : Request)
      → Spares (canonical k) (all_writes (header_writes canonical base64) ys)
      → let rb = apply_setters canonical base64 (xs ++ Setter.with_header k v ∷ ys) new_builder in
        build net (record rb { method = method; url = url }) ≡ built req
        → get (canonical k) req.header ≡ v
  set_header_read_back net xs ys k v method url req spared is_built =
      let f = header_writes canonical base64 in
      let (h, q) = request_says net (xs ++ Setter.with_header k v ∷ ys) method url req is_built in
      let before = write_all (all_writes f xs) (λ key. []) in
      let told : values req.header (canonical k) ≡ v ∷ [] =
        ap (λ m. m (canonical k)) (h ∙ all_writes-append f xs (Setter.with_header k v ∷ ys) _)
        ∙ write_all-Spares (all_writes f ys) (write (replaces (canonical k) v) before) (canonical k)
            spared
        ∙ rw (str_eq_self (canonical k)) refl in
      get-first (canonical k) req.header ∙ ap first told
