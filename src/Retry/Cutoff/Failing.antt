-- ===== src/Retry/Cutoff/Failing.antt =====
-- A closed breaker over a round tripper that fails (circuitbreaker.go).
use go_httpclient.Shared.{
  ℕ, suc, ◌≤◌, ◌<◌, ◌≡◌, refl, true, Option, none, some, arith, update_unchanged,
}
use go_httpclient.Shared.Int.{ℤ}
use go_httpclient.Http.Error.{Err}
use go_httpclient.Http.Message.{Outcome, refuse}
use go_httpclient.Http.World.{World, Request, RoundTripper}
use go_httpclient.Breaker.{
  CircuitBreaker, StateTransition, closed, opened, try_admit, apply_verdict, apply_result,
}
use go_httpclient.Breaker.RoundTrip.{
  publish, allow_request, record_result, round_trip as break_circuit,
}
use go_httpclient.Breaker.Trips.{breakers-record_result}
use go_httpclient.Retry.Sends.{sends}

-- The next round tripper sends each request, fails with the error, and leaves the breaker alone. It
-- may take any time.
pub record IsDown (p : ℕ) (next : RoundTripper) (e : Err) : Type 0 where
  pub fails : (req : Request) (w : World) → (next req w).0 ≡ refuse e
  pub sent : (req : Request) (w : World) → sends (next req w).1 ≡ suc (sends w)
  pub apart : (req : Request) (w : World) → (next req w).1.breakers p ≡ w.breakers p

closed_decision :
    (now : ℤ) (cb : CircuitBreaker)
    → cb.state ≡ closed
    → try_admit now cb ≡ (record { admitted = true; gen = cb.generation; transition = none }, cb)
unfolding try_admit
closed_decision now cb s = ground arith

closed_allow :
    (p : ℕ) (w : World)
    → (w.breakers p).state ≡ closed
    → allow_request p w ≡ (true, (w.breakers p).generation, w)
unfolding allow_request publish
closed_allow p w s = rw (closed_decision w.now (w.breakers p) s, update_unchanged w.breakers p)

sends-publish : (t : Option StateTransition) (w : World) → sends (publish t w) ≡ sends w
unfolding publish
sends-publish none w = refl
sends-publish (some t) w = omega arith

now-publish : (t : Option StateTransition) (w : World) → (publish t w).now ≡ w.now
unfolding publish
now-publish none w = refl
now-publish (some t) w = refl

pub sends-record_result :
    (p : ℕ) (o : Outcome) (gen : ℕ) (w : World) → sends (record_result p o gen w) ≡ sends w
unfolding record_result
sends-record_result p o gen w = sends-publish _ _

now-record_result :
    (p : ℕ) (o : Outcome) (gen : ℕ) (w : World) → (record_result p o gen w).now ≡ w.now
unfolding record_result
now-record_result p o gen w = now-publish _ _

-- A failure on a closed breaker.
pub record IsFailed (cb cb' : CircuitBreaker) (now : ℤ) : Type 0 where
  pub same : cb'.cfg ≡ cb.cfg
  pub stays :
      suc cb.failures < cb.cfg.failure_threshold
      → (cb'.state ≡ closed) × (cb'.failures ≡ suc cb.failures)
  pub trips :
      cb.cfg.failure_threshold ≤ suc cb.failures
      → (cb'.state ≡ opened) × (cb'.last_failure_time ≡ now)

failure_lem :
    (now : ℤ) (o : Outcome) (cb : CircuitBreaker)
    → cb.state ≡ closed
    → cb.cfg.is_failure o ≡ true
    → IsFailed cb (apply_result now o cb.generation cb).1 now
unfolding apply_result apply_verdict
failure_lem now o cb s f = record {
  same = ground arith;
  stays = ground arith;
  trips = ground arith;
}

module _ (p : ℕ) (next : RoundTripper) (e : Err) (down : IsDown p next e) where
  pub closed_trip :
      (req : Request) (w : World)
      → (w.breakers p).state ≡ closed
      → break_circuit p next req w
        ≡ (refuse e, record_result p (refuse e) (w.breakers p).generation (next req w).1)
  unfolding break_circuit
  closed_trip req w s = rw (closed_allow p w s, down.fails req w)

  pub closed_trip-IsFailed :
      (req : Request) (w : World)
      → (w.breakers p).state ≡ closed
      → (w.breakers p).cfg.is_failure (refuse e) ≡ true
      → let v = record_result p (refuse e) (w.breakers p).generation (next req w).1 in
        IsFailed (w.breakers p) (v.breakers p) v.now
  closed_trip-IsFailed req w s f =
      rw (breakers-record_result, now-record_result, down.apart req w)
        (failure_lem (next req w).1.now (refuse e) (w.breakers p) s f)
