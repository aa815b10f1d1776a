-- ===== src/Contract/Chain.antt =====
-- A client of the package's middleware keeps to the contract (client.go, options.go,
-- middleware.go).
use go_httpclient.Shared.{
  true, some, ◌∙◌, ℕ, ◌<◌, ◌≡◌, refl, sym, subst, Bool, Option, List, [], ◌∷◌, map, String,
}
use mathlib.Core.List.{append-nil}
use go_httpclient.Shared.Int.{ℤ}
use go_httpclient.Http.Message.{Body}
use go_httpclient.Http.World.{Middleware, RoundTripper, Request, World}
use go_httpclient.Http.World.Bodies.{stream_of, IsReleased, is_opened}
use go_httpclient.Breaker.RoundTrip.{round_trip as break_circuit}
use go_httpclient.Timeout.{round_trip as bound_time}
use go_httpclient.RateLimit.{RateLimiter, round_trip as limit_rate}
use go_httpclient.Retry.{Policy, round_trip as try_again}
use go_httpclient.Observability.{MetricsConfig, LoggingConfig, metrics, logging}
use go_httpclient.Client.{with_middleware, new}
use go_httpclient.Client.Chain.{wrap, new-eq-wrap}
use go_httpclient.Contract.{
  Account, Honors, HonorsOver, Releases, ReleasesOver, IsOpenHanded, KeepsBodies,
}
use go_httpclient.Contract.Responses.{
  break_circuit-Releases, bound_time-Releases, limit_rate-Releases, metrics-Releases,
  logging-Releases,
}
use go_httpclient.Contract.Responses.Retrying.{retry-Releases}
use go_httpclient.Contract.Layers.{
  break_circuit-Honors, bound_time-Honors, limit_rate-Honors, metrics-Honors, logging-Honors,
}
use go_httpclient.Contract.Retrying.{retry-Honors}

-- The package's middleware, each with what its constructor leaves of its configuration.
pub data Layer : Type 0 where
  breaking : ℕ → Layer
  timed : ℤ → Layer
  limiting : (String → Option ℤ) → RateLimiter → Bool → Bool → ℕ → Layer
  retrying : Policy → Layer
  measured : MetricsConfig → Layer
  logged : LoggingConfig → Layer

abbrev pub middleware_of : Layer → Middleware
middleware_of (breaking p) = break_circuit p
middleware_of (timed d) = bound_time d
middleware_of (limiting parse_time limiter wait respect p) =
    limit_rate parse_time limiter wait respect p
middleware_of (retrying cfg) = try_again cfg
middleware_of (measured cfg) = metrics cfg
middleware_of (logged cfg) = logging cfg

-- What a layer asks of the functions that it is given: they open no body again. A policy has an
-- attempt, as `Retry` sees to.
abbrev pub IsFair : Layer → Type 0
IsFair (limiting parse_time limiter wait respect p) = IsOpenHanded limiter
IsFair (retrying cfg) = KeepsBodies cfg × (0 < cfg.max_attempts)
IsFair _ = Unit {0}

abbrev pub AllFair : List Layer → Type 0
AllFair [] = Unit {0}
AllFair (l ∷ ls) = IsFair l × AllFair ls

layer-Honors : (l : Layer) → IsFair l → HonorsOver (middleware_of l)
layer-Honors (breaking p) fair = break_circuit-Honors p
layer-Honors (timed d) fair = bound_time-Honors d
layer-Honors (limiting parse_time limiter wait respect p) fair =
    limit_rate-Honors parse_time limiter wait respect p fair
layer-Honors (retrying cfg) fair = retry-Honors cfg fair.0 fair.1
layer-Honors (measured cfg) fair = metrics-Honors cfg
layer-Honors (logged cfg) fair = logging-Honors cfg

wrap-Honors :
    (base : RoundTripper) (ls : List Layer)
    → AllFair ls
    → Honors base
    → Honors (wrap base (map middleware_of ls))
wrap-Honors base [] fair honest = honest
wrap-Honors base (l ∷ ls) fair honest =
    layer-Honors l fair.0 (wrap base (map middleware_of ls)) (wrap-Honors base ls fair.1 honest)

layer-Releases : (l : Layer) → IsFair l → ReleasesOver (middleware_of l)
layer-Releases (breaking p) fair = break_circuit-Releases p
layer-Releases (timed d) fair = bound_time-Releases d
layer-Releases (limiting parse_time limiter wait respect p) fair =
    limit_rate-Releases parse_time limiter wait respect p fair
layer-Releases (retrying cfg) fair = retry-Releases cfg fair.0
layer-Releases (measured cfg) fair = metrics-Releases cfg
layer-Releases (logged cfg) fair = logging-Releases cfg

wrap-Releases :
    (base : RoundTripper) (ls : List Layer)
    → AllFair ls
    → Honors base
    → Releases base
    → Releases (wrap base (map middleware_of ls))
wrap-Releases base [] fair honest release = release
wrap-Releases base (l ∷ ls) fair honest release =
    layer-Releases l fair.0 (wrap base (map middleware_of ls)) (wrap-Honors base ls fair.1 honest)
      (wrap-Releases base ls fair.1 honest release)

-- The client that `New` makes of a transport and some layers.
abbrev pub client_of : RoundTripper → List Layer → RoundTripper
client_of transport ls = new transport (with_middleware (map middleware_of ls) ∷ [])

pub client_of-eq-wrap :
    (transport : RoundTripper) (ls : List Layer)
    → client_of transport ls ≡ wrap transport (map middleware_of ls)
client_of-eq-wrap transport ls =
    new-eq-wrap transport (with_middleware (map middleware_of ls) ∷ []) ∙ rw append-nil refl

pub client_of-Honors :
    (transport : RoundTripper) (ls : List Layer)
    → AllFair ls
    → Honors transport
    → Honors (client_of transport ls)
client_of-Honors transport ls fair honest =
    subst Honors (sym (client_of-eq-wrap transport ls)) (wrap-Honors transport ls fair honest)

pub client_of-Releases :
    (transport : RoundTripper) (ls : List Layer)
    → AllFair ls
    → Honors transport
    → Releases transport
    → Releases (client_of transport ls)
client_of-Releases transport ls fair honest release =
    subst Releases (sym (client_of-eq-wrap transport ls))
      (wrap-Releases transport ls fair honest release)

-- The RoundTripper contract holds of a client of any layers of the package's middleware, in any
-- order and number, around a transport that keeps to it: whatever becomes of a request (an answer,
-- a refusal by a breaker or a limiter, a context that is done, a failure between attempts), its
-- body has been closed when the client returns, or the transport has taken it over, to close it
-- perhaps later. Neither the transport nor the limiters and backoff strategies that the caller
-- supplies may undo the closing or the taking over of a body.
pub client_closes_bodies :
    (transport : RoundTripper) (ls : List Layer) (req : Request) (x : Body) (b : ℕ) (w : World)
    → AllFair ls
    → Honors transport
    → req.body ≡ some x
    → stream_of x ≡ some b
    → IsReleased b (client_of transport ls req w).1
client_closes_bodies transport ls req x b w fair honest has_body streams =
    (client_of-Honors transport ls fair honest).closes req x b w has_body streams

-- No client of any layers of the package's middleware, in any order and number, leaks the body of a
-- response: of the bodies that are open after a call, each was open before it, or has been closed,
-- or is in the response that the client returns. So the bodies of attempts that were retried are
-- closed. The transport is asked for the same and to close the requests' bodies, and the limiters
-- and backoff strategies that the caller supplies to open none and to undo no closing.
pub no_response_leaks :
    (transport : RoundTripper) (ls : List Layer) (req : Request) (b : ℕ) (w : World)
    → AllFair ls
    → Honors transport
    → Releases transport
    → is_opened b (client_of transport ls req w).1.events ≡ true
    → Account w (client_of transport ls req w) b
no_response_leaks transport ls req b w fair honest release is_open =
    client_of-Releases transport ls fair honest release req w b is_open
