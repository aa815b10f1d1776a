-- ===== src/Retry/Cutoff.antt =====
-- A breaker inside the retry middleware during an outage (retry.go, circuitbreaker.go).
pub mod Failing
pub mod Rounds
use go_httpclient.Shared.{
  ℕ, zero, suc, ◌+◌, ◌-◌, ◌≤◌, ◌<◌, ◌≡◌, refl, sym, ap, subst, ◌∙◌, Bool, true, false, Option, none,
  some, arith, inl, inr, Bool-cases, ltb, ◌==◌, if◌then◌else◌, update_unchanged,
}
use go_httpclient.Shared.Int.{
  ℤ, pos, ◌+ℤ◌, ◌-ℤ◌, ◌≤ℤ◌, ◌<ℤ◌, leb_ℤ, max_ℤ, sat64, +ℤ_parts, -ℤ_parts,
}
use go_httpclient.Http.Error.{Err}
use go_httpclient.Http.Message.{Response, Outcome, refuse}
use go_httpclient.Http.World.{
  World, Request, RoundTripper, close_request_body, done, select, drain_and_close,
}
use go_httpclient.ErrorClass.Classify.{kind_of, kind_is_retryable}
use go_httpclient.Breaker.{
  CircuitBreaker, Settings, StateTransition, closed, opened, try_admit, apply_verdict, apply_result,
}
use go_httpclient.Breaker.RoundTrip.{
  publish, allow_request, record_result, round_trip as break_circuit,
}
use go_httpclient.Breaker.Trips.{open_refuses, breakers-record_result}
use go_httpclient.Retry.{
  Policy, default_is_retryable, can_retry, attempt, pause, wait_backoff, prepare_request, if_ready,
  try_once, one_round, loop, round_trip, ready,
}
use go_httpclient.Retry.Sends.{sends, sends-close_request_body}
use go_httpclient.Retry.Protection.{retryable-of_error, try_once_refused}
use go_httpclient.Retry.Cutoff.Failing.{
  IsDown, IsFailed, sends-record_result, closed_trip, closed_trip-IsFailed,
}
use go_httpclient.Retry.Cutoff.Rounds.{
  IsBrisk, IsRested, pause-IsRested, one_round-plain, try_once-failed, attempt-plain,
}

-- A loop of `n` rounds that is cut off behind `m` failures.
record IsCut (e : Err) (n m : ℕ) (w : World) (last : Outcome) (out : Outcome × World) : Type 0 where
  pub start : n ≡ 0 → out.0 ≡ last
  pub few : n ≤ m → sends out.1 ≡ sends w + n
  pub failed : 0 < n → n ≤ m → out.0 ≡ refuse e
  pub many : m < n → sends out.1 ≡ sends w + m
  pub refused : m < n → out.0 ≡ refuse Err.circuit_open

IsCut-open :
    (e : Err) (n : ℕ) (w u : World) (last : Outcome) (out : Outcome × World)
    → sends u ≡ suc (sends w)
    → (sends out.1 ≡ sends u)
      × (n ≡ 0 → out.0 ≡ refuse e)
      × (0 < n → out.0 ≡ refuse Err.circuit_open)
    → IsCut e (suc n) 1 w last out
IsCut-open e n w u last out sent h = record {
  start = λ z. absurd (omega arith);
  few = λ l. omega (arith, h.0);
  failed = λ a l. h.1 (omega arith);
  many = λ l. omega (arith, h.0);
  refused = λ l. h.2 (omega arith);
}

IsCut-closed :
    (e : Err) (n m : ℕ) (w u : World) (last : Outcome) (out : Outcome × World)
    → sends u ≡ suc (sends w)
    → IsCut e n (suc m) u (refuse e) out
    → IsCut e (suc n) (suc (suc m)) w last out
IsCut-closed e n m w u last out sent h = record {
  start = λ z. absurd (omega arith);
  few = λ l. omega (arith, h.few (omega arith));
  failed = λ a l. elim (Bool-cases (n == 0)) [
    | inl z ↦ h.start (ground arith)
    | inr z ↦ h.failed (ground arith) (omega arith)
  ];
  many = λ l. omega (arith, h.many (omega arith));
  refused = λ l. h.refused (omega arith);
}

module _ (cfg : Policy) (reset : ℤ) (brisk : IsBrisk cfg reset) (req : Request)
    (alive : done req.ctx ≡ none) (plain : req.get_body ≡ none) where
  module _ (p : ℕ) (next : RoundTripper) (e : Err) (down : IsDown p next e)
      (retryable : kind_is_retryable (kind_of e) ≡ true) where
    open_round :
        (k : ℕ) (again : Outcome → World → Outcome × World) (w v : World)
        → 0 < k
        → (w.breakers p).state ≡ opened
        → (w.breakers p).last_failure_time ≡ w.now
        → (w.breakers p).cfg.reset_timeout ≡ reset
        → pause cfg req k none w ≡ (none, v)
        → IsRested reset k w v
        → one_round cfg (break_circuit p next) req k (refuse e) again w
          ≡ (refuse Err.circuit_open, close_request_body req v)
    open_round k again w v later s t r paused rested =
        one_round-plain cfg reset brisk req alive plain (break_circuit p next) k (refuse e) again w
          v paused
        ∙ try_once_refused cfg (break_circuit p next) k req again v (close_request_body req v)
            brisk.predicate
            (attempt-plain cfg reset brisk req alive plain (break_circuit p next) v
              ∙ open_refuses p next req v (rw rested.breakers s)
                  (rw (rested.breakers, r, t) (rested.brief later)))

    -- The rest of the loop on an open breaker: the last failure, or one refusal.
    loop-open :
        (n k : ℕ) (w : World)
        → 0 < k
        → (w.breakers p).state ≡ opened
        → (w.breakers p).last_failure_time ≡ w.now
        → (w.breakers p).cfg.reset_timeout ≡ reset
        → let out = loop n cfg (break_circuit p next) req k (refuse e) w in
          (sends out.1 ≡ sends w)
          × (n ≡ 0 → out.0 ≡ refuse e)
          × (0 < n → out.0 ≡ refuse Err.circuit_open)
    unfolding loop
    loop-open zero k w later s t r = (refl, λ z. refl, λ pos_. absurd (omega arith))
    loop-open (suc n) k w later s t r =
        let (v, paused, rested) = pause-IsRested cfg reset brisk req alive plain k none w in
        rw
          (open_round k (loop n cfg (break_circuit p next) req (k + 1)) w v later s t r paused
            rested)
          (sends-close_request_body req v ∙ rested.sent, λ z. absurd (omega arith), λ pos_. refl)

    failed_round :
        (k : ℕ) (last : Outcome) (again : Outcome → World → Outcome × World) (w v : World)
        → (w.breakers p).state ≡ closed
        → pause cfg req k last.resp w ≡ (none, v)
        → IsRested reset k w v
        → one_round cfg (break_circuit p next) req k last again w
          ≡ again (refuse e) (record_result p (refuse e) (v.breakers p).generation (next req v).1)
    failed_round k last again w v s paused rested =
        one_round-plain cfg reset brisk req alive plain (break_circuit p next) k last again w v
          paused
        ∙ try_once-failed cfg reset brisk req alive plain (break_circuit p next) k e again v
            (record_result p (refuse e) (v.breakers p).generation (next req v).1) retryable
            (closed_trip p next e down req v (rw rested.breakers s))

    -- A round on a closed breaker: the world behind the failure, and what it did.
    step_of_failure :
        (n k : ℕ) (last : Outcome) (w : World)
        → (w.breakers p).state ≡ closed
        → (w.breakers p).cfg.is_failure (refuse e) ≡ true
        → (v : World) × (u : World) × (one_round cfg
              (break_circuit p next)
              req
              k
              last
              (loop n cfg (break_circuit p next) req (k + 1))
              w
            ≡ loop n cfg (break_circuit p next) req (k + 1) (refuse e) u)
          × (sends u ≡ suc (sends w))
          × IsFailed (w.breakers p) (u.breakers p) u.now
    step_of_failure n k last w s f =
        let (v, paused, rested) = pause-IsRested cfg reset brisk req alive plain k last.resp w in
        let same = ap (λ (g : ℕ → CircuitBreaker). g p) rested.breakers in
        let u = record_result p (refuse e) (v.breakers p).generation (next req v).1 in
        (
          v,
          u,
          failed_round k last (loop n cfg (break_circuit p next) req (k + 1)) w v s paused rested,
          sends-record_result p (refuse e) (v.breakers p).generation (next req v).1
              ∙ down.sent req v
              ∙ ap suc rested.sent,
          subst (λ c. IsFailed c (u.breakers p) u.now) same
              (closed_trip-IsFailed p next e down req v (rw same s) (rw same f)),
        )

    -- What the loop makes of a closed breaker that `m` more failures open.
    loop-IsCut :
        (n k m : ℕ) (last : Outcome) (w : World)
        → (w.breakers p).state ≡ closed
        → (w.breakers p).failures + suc m ≡ (w.breakers p).cfg.failure_threshold
        → (w.breakers p).cfg.is_failure (refuse e) ≡ true
        → (w.breakers p).cfg.reset_timeout ≡ reset
        → IsCut e n (suc m) w last (loop n cfg (break_circuit p next) req k last w)
    unfolding loop
    loop-IsCut zero k m last w s t f r = record {
      start = λ z. refl;
      few = λ h. omega arith;
      failed = λ a b. absurd (omega arith);
      many = λ h. absurd (omega arith);
      refused = λ h. absurd (omega arith);
    }
    loop-IsCut (suc n) k zero last w s t f r =
        let (v, u, same_round, sent, hit) = step_of_failure n k last w s f in
        rw same_round (
          IsCut-open e n w u last _ sent (
            loop-open n (k + 1) u (omega arith) (hit.trips (omega arith)).0
              (hit.trips (omega arith)).1 (ap (λ (c : Settings). c.reset_timeout) hit.same ∙ r)))
    loop-IsCut (suc n) k (suc m) last w s t f r =
        let (v, u, same_round, sent, hit) = step_of_failure n k last w s f in
        rw same_round (
          IsCut-closed e n m w u last _ sent (
            loop-IsCut n (k + 1) m (refuse e) u (hit.stays (omega arith)).0
              (rw (hit.same, (hit.stays (omega arith)).1) (omega arith)) (rw hit.same f)
              (rw hit.same r)))

-- An outage behind a breaker inside the retry middleware, with waits shorter than the breaker's
-- reset timeout, which is positive: while the breaker is closed and takes the error for a failure,
-- the request is sent again until the breaker opens, and not once more. With m + 1 failures left to
-- the threshold, a policy of at most m + 1 attempts sends each and returns the error; a longer one
-- sends exactly m + 1 requests and returns ErrCircuitOpen. The request can be retried, has no
-- GetBody, and its context never ends; the policy has an attempt, the default predicate and no
-- attempt timeout, and its backoff strategy takes no time itself, sends no request and leaves the
-- breakers alone, but may draw random numbers and keep a state; each call of the next round tripper
-- sends one request, fails with that retryable error, and leaves the breaker alone.
pub outage_cuts_retries :
    (cfg : Policy) (p : ℕ) (next : RoundTripper) (e : Err) (req : Request) (w : World) (m : ℕ)
    → IsDown p next e
    → kind_is_retryable (kind_of e) ≡ true
    → can_retry cfg req ≡ true
    → req.get_body ≡ none
    → done req.ctx ≡ none
    → 0 < cfg.max_attempts
    → (w.breakers p).state ≡ closed
    → (w.breakers p).failures + suc m ≡ (w.breakers p).cfg.failure_threshold
    → (w.breakers p).cfg.is_failure (refuse e) ≡ true
    → IsBrisk cfg (w.breakers p).cfg.reset_timeout
    → let out = round_trip cfg (break_circuit p next) req w in
      (cfg.max_attempts ≤ suc m → (sends out.1 ≡ sends w + cfg.max_attempts) × (out.0 ≡ refuse e))
      × (suc m < cfg.max_attempts
          → (sends out.1 ≡ sends w + suc m) × (out.0 ≡ refuse Err.circuit_open))
unfolding round_trip
outage_cuts_retries cfg p next e req w m down retryable can plain alive positive s t f brisk =
    let cut =
      loop-IsCut cfg (w.breakers p).cfg.reset_timeout brisk req alive plain p next e down retryable
        cfg.max_attempts 0 m (record { resp = none; err = none }) w s t f refl in
    rw can
      (λ few. (cut.few few, cut.failed positive few), λ many. (cut.many many, cut.refused many))
