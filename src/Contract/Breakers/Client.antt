-- ===== src/Contract/Breakers/Client.antt =====
-- The retry middleware, and a client of any layers, keep every breaker well formed (retry.go,
-- client.go).
use go_httpclient.Shared.{
  ℕ, zero, suc, ◌+◌, ◌-◌, sym, subst, Option, List, [], ◌∷◌, map, inl, inr, Bool-cases, ltb, ◌==◌,
  if◌then◌else◌,
}
use go_httpclient.Shared.Int.{pos, leb_ℤ}
use go_httpclient.Http.Message.{Response, Outcome}
use go_httpclient.Http.World.{World, Request, RoundTripper, drain_and_close}
use go_httpclient.Breaker.Invariant.{IsValid}
use go_httpclient.Retry.{
  Policy, Prepared, ready, failed, can_retry, attempt, pause, wait_backoff, prepare_request,
  if_ready, try_once, one_round, loop, round_trip,
}
use go_httpclient.Client.Chain.{wrap}
use go_httpclient.Contract.Chain.{Layer, middleware_of, client_of, client_of-eq-wrap}
use go_httpclient.Contract.Breakers.{
  AllValid, AllValid-same, AllValid-select, drain_and_close-breakers,
}
use go_httpclient.Contract.Breakers.Layers.{
  IsSafe, SafeOver, IsSafeLimiter, IsSafePolicy, AllValid-unless_stopped, AllValid-close,
  under_timeout-SafeOver, break_circuit-SafeOver, bound_time-SafeOver, limit_rate-SafeOver,
  metrics-SafeOver, logging-SafeOver,
}

module _ (cfg : Policy) (fair : IsSafePolicy cfg) where
  AllValid-pause :
      (req : Request) (k : ℕ) (prev : Option Response) (w : World)
      → AllValid w
      → AllValid (pause cfg req k prev w).1
  unfolding pause wait_backoff
  AllValid-pause req k prev w valid = elim (Bool-cases (k == 0)) [
    | inl e ↦ rw e valid
    | inr e ↦ rw e (AllValid-select req.ctx _ _ (fair (k - 1) prev w valid))
  ]

  attempt-SafeOver : SafeOver (attempt cfg)
  unfolding attempt
  attempt-SafeOver next safe req w valid = elim (Bool-cases (leb_ℤ cfg.attempt_timeout (pos 0))) [
    | inl e ↦ rw e (safe req w valid)
    | inr e ↦ rw e (under_timeout-SafeOver cfg.attempt_timeout next safe req w valid)
  ]

  AllValid-if_ready :
      (req : Request) (p : Prepared) (v : World) (go : Request → World → Outcome × World)
      → AllValid v
      → ((req' : Request) → AllValid (go req' v).1)
      → AllValid (if_ready req p v go).1
  AllValid-if_ready req (ready req') v go valid rest = rest req'
  AllValid-if_ready req (failed e) v go valid rest = AllValid-close req v valid

  AllValid-discard :
      (k : ℕ) (r : Option Response) (v : World)
      → AllValid v
      → AllValid (if ltb k (cfg.max_attempts - 1) then drain_and_close r v else v)
  AllValid-discard k r v valid = elim (Bool-cases (ltb k (cfg.max_attempts - 1))) [
    | inl e ↦ rw e (AllValid-same v (drain_and_close r v) (drain_and_close-breakers r v) valid)
    | inr e ↦ rw e valid
  ]

  AllValid-try_once :
      (next : RoundTripper) (k : ℕ) (req : Request) (again : Outcome → World → Outcome × World)
      (w : World)
      → IsSafe next
      → ((o : Outcome) (u : World) → AllValid u → AllValid (again o u).1)
      → AllValid w
      → AllValid (try_once cfg next k req again w).1
  unfolding try_once
  AllValid-try_once next k req again w safe rest valid =
      let out = attempt cfg next req w in
      let tried = attempt-SafeOver next safe req w valid in
      elim (Bool-cases (cfg.is_retryable out.0)) [
        | inl e ↦ rw e (rest out.0 _ (AllValid-discard k out.0.resp out.1 tried))
        | inr e ↦ rw e tried
      ]

  AllValid-loop :
      (next : RoundTripper) (n k : ℕ) (req : Request) (last : Outcome) (w : World)
      → IsSafe next
      → AllValid w
      → AllValid (loop n cfg next req k last w).1
  unfolding loop one_round
  AllValid-loop next zero k req last w safe valid = valid
  AllValid-loop next (suc n) k req last w safe valid =
      let (stopped, v) = pause cfg req k last.resp w in
      AllValid-unless_stopped req stopped v _ (AllValid-pause req k last.resp w valid) (λ there.
        AllValid-if_ready req (prepare_request req k v) v _ there (λ req'.
          AllValid-try_once next k req' (loop n cfg next req (k + 1)) v safe
            (λ o u good. AllValid-loop next n (k + 1) req o u safe good) there))

  retry-SafeOver : SafeOver (round_trip cfg)
  unfolding round_trip
  retry-SafeOver next safe req w valid = elim (Bool-cases (can_retry cfg req)) [
    | inl e ↦ rw e (AllValid-loop next cfg.max_attempts 0 req _ w safe valid)
    | inr e ↦ rw e (attempt-SafeOver next safe req w valid)
  ]

-- What a layer asks of the functions that it is given: they leave every breaker well formed.
abbrev pub IsSafeLayer : Layer → Type 0
IsSafeLayer (Layer.limiting parse_time limiter wait respect p) = IsSafeLimiter limiter
IsSafeLayer (Layer.retrying cfg) = IsSafePolicy cfg
IsSafeLayer _ = Unit {0}

abbrev pub AllSafe : List Layer → Type 0
AllSafe [] = Unit {0}
AllSafe (l ∷ ls) = IsSafeLayer l × AllSafe ls

layer-SafeOver : (l : Layer) → IsSafeLayer l → SafeOver (middleware_of l)
layer-SafeOver (Layer.breaking p) fair = break_circuit-SafeOver p
layer-SafeOver (Layer.timed d) fair = bound_time-SafeOver d
layer-SafeOver (Layer.limiting parse_time limiter wait respect p) fair =
    limit_rate-SafeOver parse_time limiter wait respect p fair
layer-SafeOver (Layer.retrying cfg) fair = retry-SafeOver cfg fair
layer-SafeOver (Layer.measured cfg) fair = metrics-SafeOver cfg
layer-SafeOver (Layer.logged cfg) fair = logging-SafeOver cfg

wrap-IsSafe :
    (base : RoundTripper) (ls : List Layer)
    → AllSafe ls
    → IsSafe base
    → IsSafe (wrap base (map middleware_of ls))
wrap-IsSafe base [] fair safe = safe
wrap-IsSafe base (l ∷ ls) fair safe =
    layer-SafeOver l fair.0 (wrap base (map middleware_of ls)) (wrap-IsSafe base ls fair.1 safe)

-- A call of a client of any layers of the package's middleware, in any order and number, with any
-- breakers among them, leaves every breaker well formed, if every one is before it and neither the
-- transport nor the limiters and backoff strategies that the caller supplies break one.
pub client_keeps_breakers :
    (transport : RoundTripper) (ls : List Layer) (req : Request) (w : World) (p : ℕ)
    → AllSafe ls
    → IsSafe transport
    → AllValid w
    → IsValid ((client_of transport ls req w).1.breakers p)
client_keeps_breakers transport ls req w p fair safe valid =
    subst IsSafe (sym (client_of-eq-wrap transport ls)) (wrap-IsSafe transport ls fair safe) req w
      valid p
