-- ===== src/Breaker/Concurrent.antt =====
-- A breaker under concurrent requests (circuitbreaker.go). Each request calls `tryAdmit` once and,
-- if admitted, `applyResult` once, later, with the generation that it was given; both are atomic
-- under the mutex. So a run is a sequence of steps, in any order, over the breaker and the
-- generations of the requests in flight.
use go_httpclient.Shared.{
  ℕ, suc, ◌+◌, ◌^◌, ◌≤◌, ◌<◌, ◌≡◌, refl, Bool, true, false, List, [], ◌∷◌, ◌++◌, arith, ◌==◌, count,
  count-append, if◌then◌else◌,
}
use go_httpclient.Shared.Int.{ℤ}
use go_httpclient.Breaker.{
  opened, half_open, CircuitBreakerConfig, CircuitBreaker, new_circuit_breaker, with_defaults,
  try_admit, apply_verdict,
}
use go_httpclient.Breaker.Invariant.{
  IsValid, new_circuit_breaker-IsValid, try_admit-IsValid, apply_verdict-IsValid,
}

pub record System : Type 0 where
  pub breaker : CircuitBreaker
  -- the generations under which the requests in flight were admitted
  pub flights : List ℕ

pub data Step (s u : System) : Type 0 where
  admit :
      (now : ℤ)
      → (try_admit now s.breaker).0.admitted ≡ true
      → u ≡ record {
        breaker = (try_admit now s.breaker).1;
        flights = (try_admit now s.breaker).0.gen ∷ s.flights;
      }
      → Step s u
  reject :
      (now : ℤ)
      → (try_admit now s.breaker).0.admitted ≡ false
      → u ≡ record s { breaker = (try_admit now s.breaker).1 }
      → Step s u
  land :
      (now : ℤ) (is_failure : Bool) (gen : ℕ) (before after : List ℕ)
      → s.flights ≡ before ++ gen ∷ after
      → u ≡ record {
        breaker = (apply_verdict now is_failure gen s.breaker).1;
        flights = before ++ after;
      }
      → Step s u

-- `Run s n u`: `n` steps lead from `s` to `u`.
pub data Run (s : System) : ℕ → System → Type 0 where
  here : Run s 0 s
  next : {n : ℕ} {t u : System} → Run s n t → Step t u → Run s (suc n) u

unfoldable pub start : CircuitBreakerConfig → System
start cfg = record { breaker = new_circuit_breaker cfg; flights = [] }

-- How many requests in flight were admitted under a generation.
abbrev pub admitted_under : ℕ → List ℕ → ℕ
admitted_under g = count (λ x. x == g)

pub record IsAccounted (cfg : CircuitBreakerConfig) (n : ℕ) (s : System) : Type 0 where
  pub configured : s.breaker.cfg ≡ with_defaults cfg
  pub valid : IsValid s.breaker
  pub counted : s.breaker.generation ≤ n
  pub ahead : (g : ℕ) → s.breaker.generation < g → admitted_under g s.flights ≡ 0
  pub probing :
      s.breaker.state ≡ half_open
      → admitted_under s.breaker.generation s.flights ≡ s.breaker.half_open_in_flight
  pub dormant : s.breaker.state ≡ opened → admitted_under s.breaker.generation s.flights ≡ 0

start-IsAccounted : (cfg : CircuitBreakerConfig) → IsAccounted cfg 0 (start cfg)
unfolding start new_circuit_breaker
start-IsAccounted cfg = record {
  configured = ground arith;
  valid = new_circuit_breaker-IsValid cfg;
  counted = omega arith;
  ahead = λ g h. refl;
  probing = λ h. cc;
  dormant = λ h. cc;
}

admit-IsAccounted :
    (cfg : CircuitBreakerConfig) (n : ℕ) (s : System) (now : ℤ)
    → suc n < 2 ^ 64
    → IsAccounted cfg n s
    → (try_admit now s.breaker).0.admitted ≡ true
    → IsAccounted cfg (suc n) (record {
      breaker = (try_admit now s.breaker).1;
      flights = (try_admit now s.breaker).0.gen ∷ s.flights;
    })
unfolding try_admit
admit-IsAccounted cfg n s now fits inv ok = record {
  configured = ground arith;
  valid = try_admit-IsValid now s.breaker inv.valid;
  counted = ground arith;
  ahead = λ g h. ground (arith, inv.ahead g);
  probing = ground (arith, inv.ahead (suc s.breaker.generation));
  dormant = ground arith;
}

reject-IsAccounted :
    (cfg : CircuitBreakerConfig) (n : ℕ) (s : System) (now : ℤ)
    → IsAccounted cfg n s
    → (try_admit now s.breaker).0.admitted ≡ false
    → IsAccounted cfg (suc n) (record s { breaker = (try_admit now s.breaker).1 })
unfolding try_admit
reject-IsAccounted cfg n s now inv ok = record {
  configured = ground arith;
  valid = try_admit-IsValid now s.breaker inv.valid;
  counted = ground arith;
  ahead = λ g h. ground (arith, inv.ahead g);
  probing = ground arith;
  dormant = ground arith;
}

-- A landing takes one request out of the count of its generation.
flights-split :
    (gen g : ℕ) (before after : List ℕ) {flights : List ℕ}
    → flights ≡ before ++ gen ∷ after
    → admitted_under g flights ≡ (if gen == g then 1 else 0) + admitted_under g (before ++ after)
flights-split gen g before after e =
    rw (e, count-append (λ x. x == g) before (gen ∷ after), count-append (λ x. x == g) before after)
      (omega arith)

land-IsAccounted :
    (cfg : CircuitBreakerConfig) (n : ℕ) (s : System) (now : ℤ) (is_failure : Bool) (gen : ℕ)
    (before after : List ℕ)
    → suc n < 2 ^ 64
    → IsAccounted cfg n s
    → s.flights ≡ before ++ gen ∷ after
    → IsAccounted cfg (suc n) (record {
      breaker = (apply_verdict now is_failure gen s.breaker).1;
      flights = before ++ after;
    })
unfolding apply_verdict
land-IsAccounted cfg n s now is_failure gen before after fits inv e = record {
  configured = ground arith;
  valid = apply_verdict-IsValid now is_failure gen s.breaker inv.valid;
  counted = ground arith;
  ahead = λ g h. ground (arith, inv.ahead g, flights-split gen g before after e);
  probing = ground (arith, flights-split gen s.breaker.generation before after e);
  dormant = ground (
    arith,
    inv.ahead (suc s.breaker.generation),
    flights-split gen s.breaker.generation before after e,
    flights-split gen (suc s.breaker.generation) before after e,
  );
}

Step-IsAccounted :
    (cfg : CircuitBreakerConfig) (n : ℕ) (s u : System)
    → suc n < 2 ^ 64
    → IsAccounted cfg n s
    → Step s u
    → IsAccounted cfg (suc n) u
Step-IsAccounted cfg n s u fits inv (admit now ok e) =
    rw e (admit-IsAccounted cfg n s now fits inv ok)
Step-IsAccounted cfg n s u fits inv (reject now ok e) = rw e (reject-IsAccounted cfg n s now inv ok)
Step-IsAccounted cfg n s u fits inv (land now is_failure gen before after e e') =
    rw e' (land-IsAccounted cfg n s now is_failure gen before after fits inv e)

pub Run-IsAccounted :
    (cfg : CircuitBreakerConfig) (n : ℕ) {u : System}
    → n < 2 ^ 64
    → Run (start cfg) n u
    → IsAccounted cfg n u
Run-IsAccounted cfg _ fits here = start-IsAccounted cfg
Run-IsAccounted cfg _ {u} fits (next {n} {t} r st) =
    Step-IsAccounted cfg n t u fits (Run-IsAccounted cfg n (omega arith) r) st

-- Whatever fewer than 2^64 admissions, rejections and landings have happened, in any order, to a
-- breaker that began with a configuration: while it is half open, the requests in flight that were
-- admitted in the present half-open phase are as many as the breaker counts, and at most the
-- configured number of probes; while it is open, no request in flight carries the present
-- generation.
pub probes_bounded :
    (cfg : CircuitBreakerConfig) (n : ℕ) {u : System}
    → n < 2 ^ 64
    → Run (start cfg) n u
    → (u.breaker.state ≡ half_open
        → (admitted_under u.breaker.generation u.flights ≡ u.breaker.half_open_in_flight)
          × (admitted_under u.breaker.generation u.flights
              ≤ (with_defaults cfg).max_half_open_requests))
      × (u.breaker.state ≡ opened → admitted_under u.breaker.generation u.flights ≡ 0)
probes_bounded cfg n {u} fits r = ground (arith, Run-IsAccounted cfg n fits r)

-- The case of `applyResult` for an open breaker is never reached: after fewer than 2^64 steps, a
-- result that lands on an open breaker carries an old generation.
pub open_result_is_stale :
    (cfg : CircuitBreakerConfig) (n : ℕ) {u : System} (gen : ℕ) (before after : List ℕ)
    → n < 2 ^ 64
    → Run (start cfg) n u
    → u.flights ≡ before ++ gen ∷ after
    → u.breaker.state ≡ opened
    → gen < u.breaker.generation
open_result_is_stale cfg n {u} gen before after fits r e o =
    let inv = Run-IsAccounted cfg n fits r in
    ground (arith, inv, inv.ahead gen, flights-split gen gen before after e)
