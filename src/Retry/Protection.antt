-- ===== src/Retry/Protection.antt =====
-- How the retry middleware goes with the errors of the others (retry.go, errorclass.go,
-- circuitbreaker.go).
use go_httpclient.Shared.{
  ap, sym, ◌-◌, ℕ, zero, suc, ◌<◌, ◌≡◌, refl, inl, inr, ◌∙◌, true, false, not, Option, some, arith,
  Bool-cases, ◌==◌,
}
use go_httpclient.Shared.Int.{ℤ, pos, ◌-ℤ◌, ◌≤ℤ◌, ◌<ℤ◌, leb_ℤ, sat64}
use go_httpclient.Http.Error.{Err, ErrorKind}
use go_httpclient.Http.Message.{Response, Outcome, refuse}
use go_httpclient.Http.World.{World, Request, RoundTripper, close_request_body, done}
use go_httpclient.Http.World.Select.{select-done}
use go_httpclient.ErrorClass.Classify.{kind_of, kind_is_retryable, is_kind_canceled}
use go_httpclient.ErrorClass.Wrapping.{Wraps, kind_of-Wraps}
use go_httpclient.Breaker.{opened, default_is_failure}
use go_httpclient.Breaker.RoundTrip.{round_trip as break_circuit}
use go_httpclient.Breaker.Trips.{open_refuses}
use go_httpclient.Retry.{
  Policy, default_is_retryable, can_retry, attempt, pause, wait_backoff, prepare_request, try_once,
  one_round, loop, round_trip,
}

pub retryable-of_error :
    (o : Outcome) (e : Err)
    → o.err ≡ some e
    → default_is_retryable o ≡ kind_is_retryable (kind_of e)
unfolding default_is_retryable
retryable-of_error o e h = rw h

failure-of_error :
    (o : Outcome) (e : Err)
    → o.err ≡ some e
    → default_is_failure o ≡ not (is_kind_canceled (kind_of e))
unfolding default_is_failure
failure-of_error o e h = rw h

retryable_not_canceled :
    (k : ErrorKind) → kind_is_retryable k ≡ true → not (is_kind_canceled k) ≡ true
unfolding kind_is_retryable
retryable_not_canceled ErrorKind.unknown h = refl
retryable_not_canceled ErrorKind.timeout h = refl
retryable_not_canceled ErrorKind.canceled h = h
retryable_not_canceled ErrorKind.connection h = refl
retryable_not_canceled ErrorKind.dns h = refl
retryable_not_canceled ErrorKind.tls h = refl
retryable_not_canceled ErrorKind.dns_not_found h = refl
retryable_not_canceled ErrorKind.circuit_open h = refl
retryable_not_canceled ErrorKind.rate_limited h = refl

-- What the kinds of the package's own refusals, and of a cancellation, decide.
refusals_final :
    (kind_is_retryable (kind_of Err.circuit_open) ≡ false)
    × (kind_is_retryable (kind_of Err.rate_limited) ≡ false)
    × (kind_is_retryable (kind_of Err.canceled) ≡ false)
    × (not (is_kind_canceled (kind_of Err.canceled)) ≡ false)
unfolding kind_is_retryable kind_of
refusals_final = (refl, refl, refl, refl)

-- The default predicates agree on errors: what is retried counts as a failure of the breaker; the
-- refusals of the client's own breaker and limiter are never retried, behind whatever `%w` and
-- ClassifiedError wrappers; and a cancellation by the caller is neither retried nor a failure.
pub default_predicates :
    (o : Outcome) (e : Err)
    → o.err ≡ some e
    → (default_is_retryable o ≡ true → default_is_failure o ≡ true)
      × (Wraps Err.circuit_open e → default_is_retryable o ≡ false)
      × (Wraps Err.rate_limited e → default_is_retryable o ≡ false)
      × (Wraps Err.canceled e → (default_is_retryable o ≡ false) × (default_is_failure o ≡ false))
default_predicates o e h = (
  λ r.
      failure-of_error o e h
      ∙ retryable_not_canceled (kind_of e) (sym (retryable-of_error o e h) ∙ r),
  λ wraps.
      retryable-of_error o e h ∙ ap kind_is_retryable (kind_of-Wraps _ e wraps) ∙ refusals_final.0,
  λ wraps.
      retryable-of_error o e h ∙ ap kind_is_retryable (kind_of-Wraps _ e wraps) ∙ refusals_final.1,
  λ wraps. (
    retryable-of_error o e h ∙ ap kind_is_retryable (kind_of-Wraps _ e wraps) ∙ refusals_final.2,
    failure-of_error o e h
        ∙ ap (λ k. not (is_kind_canceled k)) (kind_of-Wraps _ e wraps)
        ∙ refusals_final.3,
  ),
)

attempt_open :
    (cfg : Policy) (p : ℕ) (next : RoundTripper) (req : Request) (w : World)
    → leb_ℤ cfg.attempt_timeout (pos 0) ≡ true
    → (w.breakers p).state ≡ opened
    → ¬ ((w.breakers p).cfg.reset_timeout ≤ℤ sat64 (w.now -ℤ (w.breakers p).last_failure_time))
    → attempt cfg (break_circuit p next) req w ≡ (refuse Err.circuit_open, close_request_body req w)
unfolding attempt
attempt_open cfg p next req w none_ s early = rw none_ (open_refuses p next req w s early)

pub refusal_final : (o : Outcome) → o ≡ refuse Err.circuit_open → default_is_retryable o ≡ false
refusal_final o h =
    rw h (retryable-of_error (refuse Err.circuit_open) Err.circuit_open refl ∙ refusals_final.0)

pub try_once_refused :
    (cfg : Policy) (next : RoundTripper) (k : ℕ) (req : Request)
    (again : Outcome → World → Outcome × World) (w v : World)
    → cfg.is_retryable ≡ default_is_retryable
    → attempt cfg next req w ≡ (refuse Err.circuit_open, v)
    → try_once cfg next k req again w ≡ (refuse Err.circuit_open, v)
unfolding try_once
try_once_refused cfg next k req again w v default_ h = rw (h, default_, refusal_final _ refl)

one_round-first :
    (cfg : Policy) (next : RoundTripper) (req : Request) (last : Outcome)
    (again : Outcome → World → Outcome × World) (w : World)
    → one_round cfg next req 0 last again w ≡ try_once cfg next 0 req again w
unfolding one_round pause prepare_request
one_round-first cfg next req last again w = refl

loop-refused :
    (n : ℕ) (cfg : Policy) (next : RoundTripper) (req : Request) (last : Outcome) (w v : World)
    → 0 < n
    → cfg.is_retryable ≡ default_is_retryable
    → attempt cfg next req w ≡ (refuse Err.circuit_open, v)
    → loop n cfg next req 0 last w ≡ (refuse Err.circuit_open, v)
unfolding loop
loop-refused zero cfg next req last w v some_ default_ h = ground arith
loop-refused (suc n) cfg next req last w v some_ default_ h =
    one_round-first cfg next req last _ w ∙ try_once_refused cfg next 0 req _ w v default_ h

-- With the breaker inside the retry middleware, the default predicate, no attempt timeout and a
-- policy of at least one attempt, an open
-- breaker whose reset timeout has not passed ends a request at once: the answer is ErrCircuitOpen,
-- nothing is retried or waited for, and nothing happens but that the request's body is closed.
pub open_breaker_not_retried :
    (cfg : Policy) (p : ℕ) (next : RoundTripper) (req : Request) (w : World)
    → 0 < cfg.max_attempts
    → leb_ℤ cfg.attempt_timeout (pos 0) ≡ true
    → cfg.is_retryable ≡ default_is_retryable
    → (w.breakers p).state ≡ opened
    → ¬ ((w.breakers p).cfg.reset_timeout ≤ℤ sat64 (w.now -ℤ (w.breakers p).last_failure_time))
    → round_trip cfg (break_circuit p next) req w
      ≡ (refuse Err.circuit_open, close_request_body req w)
unfolding round_trip
open_breaker_not_retried cfg p next req w some_ none_ default_ s early =
    let refused = attempt_open cfg p next req w none_ s early in
    elim (Bool-cases (can_retry cfg req)) [
      | inl e ↦ rw e (loop-refused cfg.max_attempts cfg _ req _ w _ some_ default_ refused)
      | inr e ↦ rw e refused
    ]

wait_backoff-canceled :
    (cfg : Policy) (req : Request) (k : ℕ) (prev : Option Response) (w : World) (at : ℤ) (e : Err)
    → done req.ctx ≡ some (at, e)
    → at ≤ℤ (cfg.backoff (k - 1) prev w).1.now
    → pos 0 <ℤ (cfg.backoff (k - 1) prev w).0
    → wait_backoff cfg req k prev w ≡ (some e, (cfg.backoff (k - 1) prev w).1)
unfolding wait_backoff
wait_backoff-canceled cfg req k prev w at e is_done past long =
    select-done req.ctx (cfg.backoff (k - 1) prev w).0 at e (cfg.backoff (k - 1) prev w).1 is_done
      past long

positive-not_zero : (k : ℕ) → 0 < k → (k == 0) ≡ false
positive-not_zero k h = ground arith

-- A request whose context is done is not tried again: where the backoff before a retry is positive
-- and the context is done by then, the loop ends without a call of the next round tripper. It
-- returns the context's error instead of the last outcome, and closes the request's body.
pub canceled_wait_ends :
    (n k : ℕ) (cfg : Policy) (next : RoundTripper) (req : Request) (last : Outcome) (w : World)
    (at : ℤ) (e : Err)
    → 0 < k
    → done req.ctx ≡ some (at, e)
    → at ≤ℤ (cfg.backoff (k - 1) last.resp w).1.now
    → pos 0 <ℤ (cfg.backoff (k - 1) last.resp w).0
    → loop (suc n) cfg next req k last w
      ≡ (refuse e, close_request_body req (cfg.backoff (k - 1) last.resp w).1)
unfolding loop one_round pause
canceled_wait_ends n k cfg next req last w at e again is_done past long =
    rw (
      positive-not_zero k again,
      wait_backoff-canceled cfg req k last.resp w at e is_done past long,
    )
