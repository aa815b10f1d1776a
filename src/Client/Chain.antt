-- ===== src/Client/Chain.antt =====
-- The order in which a client's middleware runs (middleware.go, client.go).
use go_httpclient.Shared.{ℕ, zero, suc, ◌≡◌, refl, ◌∙◌, ap, none, some, List, [], ◌∷◌, ◌++◌, length}
use mathlib.Core.List.{append_assoc, append-nil}
use go_httpclient.Http.World.{RoundTripper, Middleware}
use go_httpclient.Client.{
  apply_at, chain_loop, chain, ClientOption, with_transport, with_middleware, apply_option,
  apply_options, default_config, chain_if_any, new,
}

-- The first middleware of a list around the others around the base.
abbrev pub wrap : RoundTripper → List Middleware → RoundTripper
wrap base [] = base
wrap base (m ∷ ms) = m (wrap base ms)

-- Below the length of the first part, the loop does not see the second.
chain_loop-cons :
    (i : ℕ) (m : Middleware) (ms : List Middleware) (rt : RoundTripper)
    → chain_loop (suc i) (m ∷ ms) rt ≡ m (chain_loop i ms rt)
unfolding chain_loop apply_at
chain_loop-cons zero m ms rt = refl
chain_loop-cons (suc i) m ms rt = chain_loop-cons i m ms (apply_at ms i rt)

-- `chain` makes the first middleware the outermost: each wraps the chain of those behind it.
pub chain-eq-wrap : (base : RoundTripper) (mws : List Middleware) → chain base mws ≡ wrap base mws
unfolding chain chain_loop
chain-eq-wrap base [] = refl
chain-eq-wrap base (m ∷ ms) = chain_loop-cons (length ms) m ms base ∙ ap m (chain-eq-wrap base ms)

wrap-append :
    (base : RoundTripper) (xs ys : List Middleware) → wrap base (xs ++ ys) ≡ wrap (wrap base ys) xs
wrap-append base [] ys = refl
wrap-append base (x ∷ xs) ys = ap x (wrap-append base xs ys)

-- All the middleware of a list of options, in order.
abbrev pub all_middleware : List ClientOption → List Middleware
all_middleware [] = []
all_middleware (with_transport rt ∷ os) = all_middleware os
all_middleware (with_middleware mws ∷ os) = mws ++ all_middleware os

-- The last transport of the options that is not nil, or the one given.
abbrev pub last_transport : RoundTripper → List ClientOption → RoundTripper
last_transport rt [] = rt
last_transport rt (with_transport none ∷ os) = last_transport rt os
last_transport rt (with_transport (some t) ∷ os) = last_transport t os
last_transport rt (with_middleware mws ∷ os) = last_transport rt os

apply_options_lem :
    (os : List ClientOption) (rt : RoundTripper) (mws : List Middleware)
    → apply_options os (record { transport = some rt; middleware = mws })
      ≡ record { transport = some (last_transport rt os); middleware = mws ++ all_middleware os }
unfolding apply_options apply_option
apply_options_lem [] rt mws = rw append-nil
apply_options_lem (with_transport none ∷ os) rt mws = apply_options_lem os rt mws
apply_options_lem (with_transport (some t) ∷ os) rt mws = apply_options_lem os t mws
apply_options_lem (with_middleware ms ∷ os) rt mws =
    rw (← append_assoc) (apply_options_lem os rt (mws ++ ms))

chain_if_any-eq-wrap :
    (rt : RoundTripper) (mws : List Middleware) → chain_if_any rt mws ≡ wrap rt mws
chain_if_any-eq-wrap rt [] = refl
chain_if_any-eq-wrap rt (m ∷ ms) = chain-eq-wrap rt (m ∷ ms)

-- A client runs the middleware of all its options, in the order in which they were given, the first
-- outermost, around the last transport that was given and is not nil, or else the default one.
pub new-eq-wrap :
    (default_transport : RoundTripper) (os : List ClientOption)
    → new default_transport os ≡ wrap (last_transport default_transport os) (all_middleware os)
unfolding new default_config
new-eq-wrap default_transport os =
    rw (apply_options_lem os default_transport []) (chain_if_any-eq-wrap _ (all_middleware os))
