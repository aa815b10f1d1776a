-- ===== src/Client.antt =====
-- middleware.go (`chain`), options.go and client.go. The default transport is net/http's, so it is
-- a parameter.
pub mod Chain
use go_httpclient.Shared.{ℕ, zero, suc, Bool, Option, none, some, List, [], ◌∷◌, ◌++◌, length}
use go_httpclient.Http.Error.{Err}
use go_httpclient.Http.Message.{Context, Outcome, refuse}
use go_httpclient.Http.World.{World, Request, RoundTripper, Middleware}

-- `mws[i](rt)`; the loop's index is always in range.
unfoldable pub apply_at : List Middleware → ℕ → RoundTripper → RoundTripper
apply_at [] i rt = rt
apply_at (m ∷ ms) zero rt = m rt
apply_at (m ∷ ms) (suc i) rt = apply_at ms i rt

-- The loop of `chain`, which counts down; `i + 1` rounds are left at index i.
unfoldable pub chain_loop : ℕ → List Middleware → RoundTripper → RoundTripper
chain_loop zero mws rt = rt
chain_loop (suc i) mws rt = chain_loop i mws (apply_at mws i rt)

-- `chain`
unfoldable pub chain : RoundTripper → List Middleware → RoundTripper
chain base mws = chain_loop (length mws) mws base

-- options.go: `config`
pub record Config : Type 0 where
  pub transport : Option RoundTripper
  pub middleware : List Middleware

-- `Option` values: those of `WithTransport` and `WithMiddleware`.
pub data ClientOption : Type 0 where
  with_transport : Option RoundTripper → ClientOption
  with_middleware : List Middleware → ClientOption

-- One option applied to the configuration; a nil transport is discarded.
unfoldable pub apply_option : ClientOption → Config → Config
apply_option (with_transport none) c = c
apply_option (with_transport (some rt)) c = record c { transport = some rt }
apply_option (with_middleware mws) c = record c { middleware = c.middleware ++ mws }

unfoldable pub apply_options : List ClientOption → Config → Config
apply_options [] c = c
apply_options (o ∷ os) c = apply_options os (apply_option o c)

-- `if len(cfg.middleware) > 0 { rt = chain(rt, cfg.middleware...) }`
abbrev pub chain_if_any : RoundTripper → List Middleware → RoundTripper
chain_if_any rt [] = rt
chain_if_any rt (m ∷ ms) = chain rt (m ∷ ms)

module _ (default_transport : RoundTripper) where
  -- `defaultConfig`
  unfoldable pub default_config : Config
  default_config = record { transport = some default_transport; middleware = [] }

  abbrev or_default : Option RoundTripper → RoundTripper
  or_default none = default_transport
  or_default (some rt) = rt

  -- `New`: the client is its round tripper.
  unfoldable pub new : List ClientOption → RoundTripper
  new opts =
      let cfg = apply_options opts default_config in
      chain_if_any (or_default cfg.transport) cfg.middleware

-- `context.Background()`
abbrev pub background : Context
background = record { id = 0; deadline = none; cancel_at = none }

abbrev or_background : Option Context → Context
or_background none = background
or_background (some ctx) = ctx

-- `Client.Do`, with nil as `none`. `Clone` copies the request, so the caller's is not changed.
unfoldable pub do_request : RoundTripper → Option Context → Option Request → World → Outcome × World
do_request rt ctx none w = (refuse Err.invalid_request, w)
do_request rt ctx (some req) w = rt (record req { ctx = or_background ctx }) w
