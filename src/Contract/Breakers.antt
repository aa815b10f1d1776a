-- ===== src/Contract/Breakers.antt =====
-- What the operations around the breakers leave of them (circuitbreaker.go, middleware.go,
-- timeout.go, retry.go, ratelimit.go).
pub mod Layers
pub mod Client
use go_httpclient.Shared.{
  ℕ, ◌≡◌, refl, sym, subst, ◌∙◌, Bool, true, false, Option, none, some, String, arith, inl, inr,
  Bool-cases, Option-cases, ◌==◌, update, if◌then◌else◌,
}
use go_httpclient.Shared.Int.{ℤ}
use go_httpclient.Http.Error.{Err}
use go_httpclient.Http.Message.{Body, Response, Outcome, Context}
use go_httpclient.Http.World.{
  World, Request, close_body, drain_body, close_request_body, drain_and_close, settle, select,
}
use go_httpclient.Http.World.Select.{select-breakers}
use go_httpclient.Breaker.{CircuitBreaker, StateTransition, try_admit, apply_verdict, apply_result}
use go_httpclient.Breaker.Invariant.{IsValid, try_admit-IsValid, apply_verdict-IsValid}
use go_httpclient.Breaker.Trips.{publish-breakers}
use go_httpclient.Breaker.RoundTrip.{publish, put, allow_request, record_result}
use go_httpclient.RateLimit.{note_value, note_retry_after}

-- Every breaker is well formed.
abbrev pub AllValid : World → Type 0
AllValid w = (q : ℕ) → IsValid (w.breakers q)

pub AllValid-same : (w v : World) → v.breakers ≡ w.breakers → AllValid w → AllValid v
AllValid-same w v h valid q = subst (λ (bs : ℕ → CircuitBreaker). IsValid (bs q)) (sym h) (valid q)

close_body-breakers : (b : Body) (w : World) → (close_body b w).breakers ≡ w.breakers
unfolding close_body
close_body-breakers Body.no_body w = refl
close_body-breakers (Body.stream b) w = refl
close_body-breakers (Body.cancel_body b c) w = close_body-breakers b w

drain_body-breakers : (b : Body) (w : World) → (drain_body b w).breakers ≡ w.breakers
unfolding drain_body
drain_body-breakers Body.no_body w = refl
drain_body-breakers (Body.stream b) w = refl
drain_body-breakers (Body.cancel_body b c) w = drain_body-breakers b w

pub close_request_body-breakers :
    (req : Request) (w : World) → (close_request_body req w).breakers ≡ w.breakers
unfolding close_request_body
close_request_body-breakers req w = elim (Option-cases req.body) [
  | inl e ↦ rw e refl
  | inr (b, e) ↦ rw e (close_body-breakers b w)
]

pub drain_and_close-breakers :
    (r : Option Response) (w : World) → (drain_and_close r w).breakers ≡ w.breakers
unfolding drain_and_close
drain_and_close-breakers none w = refl
drain_and_close-breakers (some r) w = elim (Option-cases r.body) [
  | inl e ↦ rw e refl
  | inr (b, e) ↦ rw e (close_body-breakers b (drain_body b w) ∙ drain_body-breakers b w)
]

pub settle-breakers : (c : ℕ) (r : Outcome × World) → (settle c r).1.breakers ≡ r.1.breakers
unfolding settle
settle-breakers c r = ground arith

pub AllValid-select : (ctx : Context) (d : ℤ) (w : World) → AllValid w → AllValid (select ctx d w).1
AllValid-select ctx d w = AllValid-same w (select ctx d w).1 (select-breakers ctx d w)

AllValid-put :
    (p : ℕ) (cb : CircuitBreaker) (w : World) → IsValid cb → AllValid w → AllValid (put p cb w)
AllValid-put p cb w good valid q = elim (Bool-cases (q == p)) [
  | inl e ↦ rw e good
  | inr e ↦ rw e (valid q)
]

pub AllValid-allow_request : (p : ℕ) (w : World) → AllValid w → AllValid (allow_request p w).2
unfolding allow_request
AllValid-allow_request p w valid =
    let (a, cb) = try_admit w.now (w.breakers p) in
    AllValid-same (put p cb w) (publish a.transition (put p cb w))
      (publish-breakers a.transition (put p cb w))
      (AllValid-put p cb w (try_admit-IsValid w.now (w.breakers p) (valid p)) valid)

pub AllValid-record_result :
    (p : ℕ) (o : Outcome) (gen : ℕ) (w : World) → AllValid w → AllValid (record_result p o gen w)
unfolding record_result apply_result
AllValid-record_result p o gen w valid =
    let (t, cb) = apply_result w.now o gen (w.breakers p) in
    AllValid-same (put p cb w) (publish t (put p cb w)) (publish-breakers t (put p cb w))
      (AllValid-put p cb w (apply_verdict-IsValid w.now _ gen (w.breakers p) (valid p)) valid)

pub note_retry_after-breakers :
    (parse_time : String → Option ℤ) (respect : Bool) (p : ℕ) (r : Option Response) (w : World)
    → (note_retry_after parse_time respect p r w).breakers ≡ w.breakers
unfolding note_retry_after note_value
note_retry_after-breakers parse_time respect p none w = refl
note_retry_after-breakers parse_time respect p (some r) w = ground arith
