-- ===== src/Contract/Exclusive.antt =====
-- The middleware returns a response or an error, and not both, over a round tripper that does
-- (circuitbreaker.go, timeout.go, ratelimit.go, metrics.go, logging.go, retry.go).
use go_httpclient.Shared.{
  ℕ, zero, suc, ◌+◌, ◌≡◌, refl, ◌⊎◌, inl, inr, Option, none, some, arith, Bool-cases,
}
use go_httpclient.Shared.Int.{ℤ, pos, leb_ℤ}
use go_httpclient.Http.Error.{Err}
use go_httpclient.Http.Message.{Outcome}
use go_httpclient.Http.World.{
  World, Request, RoundTripper, Middleware, unless_stopped, settle, with_timeout,
}
use go_httpclient.Breaker.RoundTrip.{allow_request, round_trip as break_circuit}
use go_httpclient.Timeout.{under_timeout, has_shorter_deadline, round_trip as bound_time}
use go_httpclient.Retry.{
  Policy, Prepared, ready, failed, can_retry, attempt, pause, prepare_request, if_ready, try_once,
  one_round, loop, round_trip,
}

abbrev pub HasOne : Outcome → Type 0
HasOne o = (o.err ≡ none) ⊎ (o.resp ≡ none)

abbrev pub IsExclusive : RoundTripper → Type 0
IsExclusive next = (req : Request) (w : World) → HasOne (next req w).0

abbrev pub ExclusiveOver : Middleware → Type 0
ExclusiveOver m = (next : RoundTripper) → IsExclusive next → IsExclusive (m next)

pub settle-HasOne : (c : ℕ) (r : Outcome × World) → HasOne r.0 → HasOne (settle c r).0
unfolding settle
settle-HasOne c r h = ground arith

pub break_circuit-ExclusiveOver : (p : ℕ) → ExclusiveOver (break_circuit p)
unfolding break_circuit
break_circuit-ExclusiveOver p next one req w = elim (Bool-cases (allow_request p w).0) [
  | inl e ↦ rw e (one req _)
  | inr e ↦ rw e (inr refl)
]

under_timeout-ExclusiveOver : (d : ℤ) → ExclusiveOver (under_timeout d)
unfolding under_timeout with_timeout
under_timeout-ExclusiveOver d next one req w = settle-HasOne _ _ (one _ _)

pub bound_time-ExclusiveOver : (d : ℤ) → ExclusiveOver (bound_time d)
unfolding bound_time
bound_time-ExclusiveOver d next one req w =
    elim (Bool-cases (has_shorter_deadline req.ctx.deadline d w)) [
      | inl e ↦ rw e (one req w)
      | inr e ↦ rw e (under_timeout-ExclusiveOver d next one req w)
    ]

unless_stopped-HasOne :
    (req : Request) (o : Option Err) (v : World) (go : World → Outcome × World)
    → ((u : World) → HasOne (go u).0)
    → HasOne (unless_stopped req o v go).0
unless_stopped-HasOne req none v go h = h v
unless_stopped-HasOne req (some e) v go h = inr refl

if_ready-HasOne :
    (req : Request) (p : Prepared) (v : World) (go : Request → World → Outcome × World)
    → ((req' : Request) → HasOne (go req' v).0)
    → HasOne (if_ready req p v go).0
if_ready-HasOne req (ready req') v go h = h req'
if_ready-HasOne req (failed e) v go h = inr refl

module _ (cfg : Policy) (next : RoundTripper) (one : IsExclusive next) where
  attempt-HasOne : (req : Request) (w : World) → HasOne (attempt cfg next req w).0
  unfolding attempt
  attempt-HasOne req w = elim (Bool-cases (leb_ℤ cfg.attempt_timeout (pos 0))) [
    | inl e ↦ rw e (one req w)
    | inr e ↦ rw e (under_timeout-ExclusiveOver cfg.attempt_timeout next one req w)
  ]

  try_once-HasOne :
      (k : ℕ) (req : Request) (again : Outcome → World → Outcome × World) (w : World)
      → ((o : Outcome) (u : World) → HasOne o → HasOne (again o u).0)
      → HasOne (try_once cfg next k req again w).0
  unfolding try_once
  try_once-HasOne k req again w rest =
      elim (Bool-cases (cfg.is_retryable (attempt cfg next req w).0)) [
        | inl e ↦ rw e (rest (attempt cfg next req w).0 _ (attempt-HasOne req w))
        | inr e ↦ rw e (attempt-HasOne req w)
      ]

  loop-HasOne :
      (n k : ℕ) (req : Request) (last : Outcome) (w : World)
      → HasOne last
      → HasOne (loop n cfg next req k last w).0
  unfolding loop one_round
  loop-HasOne zero k req last w h = h
  loop-HasOne (suc n) k req last w h =
      let (stopped, v) = pause cfg req k last.resp w in
      unless_stopped-HasOne req stopped v _ (λ u.
        if_ready-HasOne req (prepare_request req k u) u _ (λ req'.
          try_once-HasOne k req' (loop n cfg next req (k + 1)) u
            (λ o x one_of. loop-HasOne n (k + 1) req o x one_of)))

pub retry-ExclusiveOver : (cfg : Policy) → ExclusiveOver (round_trip cfg)
unfolding round_trip
retry-ExclusiveOver cfg next one req w = elim (Bool-cases (can_retry cfg req)) [
  | inl e ↦ rw e (loop-HasOne cfg next one cfg.max_attempts 0 req _ w (inl refl))
  | inr e ↦ rw e (attempt-HasOne cfg next one req w)
]
