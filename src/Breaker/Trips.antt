-- ===== src/Breaker/Trips.antt =====
-- What the breaker's middleware does to a request (circuitbreaker.go, `RoundTrip`).
use go_httpclient.Shared.{
  ℕ, ◌≡◌, refl, ◌∙◌, true, false, Option, none, some, arith, inl, inr, Bool-cases, update_self,
  update_unchanged, Option-cases,
}
use go_httpclient.Shared.Int.{ℤ, ◌-ℤ◌, ◌≤ℤ◌, sat64}
use go_httpclient.Http.Error.{Err}
use go_httpclient.Http.Message.{Body, Outcome, refuse}
use go_httpclient.Http.World.{World, Request, RoundTripper, close_body, close_request_body}
use go_httpclient.Breaker.{CircuitBreaker, StateTransition, opened, try_admit, apply_result}
use go_httpclient.Breaker.Recovery.{visit}
use go_httpclient.Breaker.RoundTrip.{round_trip, publish, allow_request, record_result}

open_decision :
    (now : ℤ) (cb : CircuitBreaker)
    → cb.state ≡ opened
    → ¬ (cb.cfg.reset_timeout ≤ℤ sat64 (now -ℤ cb.last_failure_time))
    → try_admit now cb ≡ (record { admitted = false; gen = cb.generation; transition = none }, cb)
unfolding try_admit
open_decision now cb s early = ground arith

open_allow :
    (p : ℕ) (w : World)
    → (w.breakers p).state ≡ opened
    → ¬ ((w.breakers p).cfg.reset_timeout ≤ℤ sat64 (w.now -ℤ (w.breakers p).last_failure_time))
    → allow_request p w ≡ (false, (w.breakers p).generation, w)
unfolding allow_request publish
open_allow p w s early =
    rw (open_decision w.now (w.breakers p) s early, update_unchanged w.breakers p)

-- While the breaker is open and its reset timeout has not passed since the last failure, a request
-- is refused with ErrCircuitOpen, whatever the next round tripper is: nothing happens but that the
-- request's body is closed.
pub open_refuses :
    (p : ℕ) (next : RoundTripper) (req : Request) (w : World)
    → (w.breakers p).state ≡ opened
    → ¬ ((w.breakers p).cfg.reset_timeout ≤ℤ sat64 (w.now -ℤ (w.breakers p).last_failure_time))
    → round_trip p next req w ≡ (refuse Err.circuit_open, close_request_body req w)
unfolding round_trip
open_refuses p next req w s early = rw (open_allow p w s early)

try_admit-cfg : (now : ℤ) (cb : CircuitBreaker) → (try_admit now cb).1.cfg ≡ cb.cfg
unfolding try_admit
try_admit-cfg now cb = ground arith

pub publish-breakers :
    (t : Option StateTransition) (w : World) → (publish t w).breakers ≡ w.breakers
unfolding publish
publish-breakers none w = refl
publish-breakers (some t) w = refl

close_body-breakers : (b : Body) (w : World) → (close_body b w).breakers ≡ w.breakers
unfolding close_body
close_body-breakers Body.no_body w = refl
close_body-breakers (Body.stream b) w = refl
close_body-breakers (Body.cancel_body b c) w = close_body-breakers b w

pub close_request_body-breakers :
    (req : Request) (w : World) → (close_request_body req w).breakers ≡ w.breakers
unfolding close_request_body
close_request_body-breakers req w = elim (Option-cases req.body) [
  | inl e ↦ rw e
  | inr (b, e) ↦ rw e (close_body-breakers b w)
]

breakers-allow_request :
    (p : ℕ) (w : World) → (allow_request p w).2.breakers p ≡ (try_admit w.now (w.breakers p)).1
unfolding allow_request
breakers-allow_request p w =
    rw publish-breakers (update_self w.breakers p (try_admit w.now (w.breakers p)).1)

pub breakers-record_result :
    (p : ℕ) (o : Outcome) (gen : ℕ) (w : World)
    → (record_result p o gen w).breakers p ≡ (apply_result w.now o gen (w.breakers p)).1
unfolding record_result
breakers-record_result p o gen w =
    rw publish-breakers (update_self w.breakers p (apply_result w.now o gen (w.breakers p)).1)

allow_request_admitted :
    (p : ℕ) (w : World) → (allow_request p w).0 ≡ (try_admit w.now (w.breakers p)).0.admitted
unfolding allow_request
allow_request_admitted p w = refl

allow_request_gen :
    (p : ℕ) (w : World) → (allow_request p w).1 ≡ (try_admit w.now (w.breakers p)).0.gen
unfolding allow_request
allow_request_gen p w = refl

admitted_trip :
    (p : ℕ) (next : RoundTripper) (req : Request) (w : World)
    → (allow_request p w).0 ≡ true
    → round_trip p next req w ≡ (
        let (o, w2) = next req (allow_request p w).2 in
        (o, record_result p o (allow_request p w).1 w2))
unfolding round_trip
admitted_trip p next req w h = rw h

refused_trip :
    (p : ℕ) (next : RoundTripper) (req : Request) (w : World)
    → (allow_request p w).0 ≡ false
    → round_trip p next req w
      ≡ (refuse Err.circuit_open, close_request_body req (allow_request p w).2)
unfolding round_trip
refused_trip p next req w h = rw h

-- If the next round tripper leaves this breaker alone, as it does where one request runs at a time,
-- a round trip is one visit to the breaker: asked when it begins, landed when the next round
-- tripper has returned, with the verdict of the breaker's `IsFailure` on what that returned.
pub round_trip-visit :
    (p : ℕ) (next : RoundTripper) (req : Request) (w : World)
    → ((r : Request) (v : World) → (next r v).1.breakers p ≡ v.breakers p)
    → let inner = next req (allow_request p w).2 in
      (round_trip p next req w).1.breakers p
      ≡ visit
          (record {
            asked = w.now;
            landed = inner.1.now;
            is_failure = (w.breakers p).cfg.is_failure inner.0;
          })
          (w.breakers p)
unfolding visit apply_result
round_trip-visit p next req w alone =
    elim (Bool-cases (try_admit w.now (w.breakers p)).0.admitted) [
      | inl in_ ↦ rw (
        admitted_trip p next req w (allow_request_admitted p w ∙ in_),
        breakers-record_result,
        alone,
        breakers-allow_request,
        allow_request_gen,
        apply_result,
        try_admit-cfg,
        in_,
      )
      | inr out ↦ rw (
        refused_trip p next req w (allow_request_admitted p w ∙ out),
        close_request_body-breakers,
        breakers-allow_request,
        out,
      )
    ]
