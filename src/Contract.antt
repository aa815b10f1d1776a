-- ===== src/Contract.antt =====
-- What net/http asks of every RoundTripper, and so of every middleware over one: it closes the body
-- of the request, on errors too, but perhaps in another goroutine after it has returned.
pub mod Layers
pub mod Retrying
pub mod Responses
pub mod Exclusive
pub mod Builder
pub mod Breakers
pub mod Chain
use go_httpclient.Shared.{ℕ, ◌≡◌, true, Option, some}
use go_httpclient.Http.Message.{Body, Response, Outcome, Context}
use go_httpclient.Http.World.{World, Request, RoundTripper, Middleware}
use go_httpclient.Http.World.Bodies.{
  stream_of, carried_by, is_opened, IsClosed, IsReleased, Keeps, OpensNone,
}
use go_httpclient.RateLimit.{RateLimiter}
use go_httpclient.Retry.{Policy}

-- A round tripper that has closed the request's body when it returns, or whose transport has taken
-- the body over to close it, and that undoes no closing and no taking over.
pub record Honors (next : RoundTripper) : Type 0 where
  pub closes :
      (req : Request) (x : Body) (b : ℕ) (w : World)
      → req.body ≡ some x
      → stream_of x ≡ some b
      → IsReleased b (next req w).1
  pub keeps : (req : Request) (w : World) → Keeps w (next req w).1

-- A middleware that makes such a round tripper of one.
abbrev pub HonorsOver : Middleware → Type 0
HonorsOver m = (next : RoundTripper) → Honors next → Honors (m next)

-- A response's body that is open at the end of a call: it was so before, or has been closed, or is
-- the caller's.
pub data Account (w : World) (out : Outcome × World) (b : ℕ) : Type 0 where
  before : is_opened b w.events ≡ true → Account w out b
  closed : IsClosed b out.1 → Account w out b
  returned : carried_by out.0.resp ≡ some b → Account w out b

abbrev pub Accounts : World → Outcome × World → Type 0
Accounts w out = (b : ℕ) → is_opened b out.1.events ≡ true → Account w out b

-- A round tripper that leaks no response's body.
abbrev pub Releases : RoundTripper → Type 0
Releases next = (req : Request) (w : World) → Accounts w (next req w)

-- A middleware that makes such a round tripper of one that keeps to the contract too.
abbrev pub ReleasesOver : Middleware → Type 0
ReleasesOver m = (next : RoundTripper) → Honors next → Releases next → Releases (m next)

-- A limiter, and a backoff strategy, that neither undo a closing nor open a response's body.
pub record IsOpenHanded (limiter : RateLimiter) : Type 0 where
  pub waits : (ctx : Context) (w : World) → Keeps w (limiter.wait_context ctx w).1
  pub tries : (w : World) → Keeps w (limiter.try_acquire w).1
  pub waits_shut : (ctx : Context) (w : World) → OpensNone w (limiter.wait_context ctx w).1
  pub tries_shut : (w : World) → OpensNone w (limiter.try_acquire w).1

pub record KeepsBodies (cfg : Policy) : Type 0 where
  pub keeps : (k : ℕ) (r : Option Response) (w : World) → Keeps w (cfg.backoff k r w).1
  pub shut : (k : ℕ) (r : Option Response) (w : World) → OpensNone w (cfg.backoff k r w).1
