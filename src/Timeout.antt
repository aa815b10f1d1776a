-- ===== src/Timeout.antt =====
-- timeout.go.
pub mod Release
use go_httpclient.Shared.{Bool, Option, none, some, if◌then◌else◌}
use go_httpclient.Shared.Int.{ℤ, pos, ◌-ℤ◌, leb_ℤ, sat64}
use go_httpclient.Http.Message.{Outcome}
use go_httpclient.Diagnostics.{report_invalid_config}
use go_httpclient.Http.World.{World, Request, RoundTripper, Middleware, with_timeout, settle}

-- `next.RoundTrip` under a context with a timeout, and what is done behind it.
unfoldable pub under_timeout : ℤ → RoundTripper → RoundTripper
unfolding with_timeout
under_timeout d next req w =
    let (ctx, w') = with_timeout req.ctx d w in settle ctx.id (next (record req { ctx = ctx }) w')

-- `time.Until(deadline) <= t.timeout`, where there is a deadline.
abbrev pub has_shorter_deadline : Option ℤ → ℤ → World → Bool
has_shorter_deadline deadline d w = elim deadline [
  | none ↦ Bool.false
  | some at ↦ leb_ℤ (sat64 (at -ℤ w.now)) d
]

-- `timeoutRoundTripper.RoundTrip`
unfoldable pub round_trip : ℤ → RoundTripper → RoundTripper
unfolding under_timeout
round_trip d next req w =
    if has_shorter_deadline req.ctx.deadline d w then next req w else under_timeout d next req w

-- `Timeout`: the middleware, and the world in which it was made.
unfoldable pub timeout : ℤ → World → Middleware × World
unfolding round_trip
timeout d w =
    if leb_ℤ d (pos 0) then (λ next. next, report_invalid_config "Timeout" w) else (round_trip d, w)
