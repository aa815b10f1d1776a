-- ===== src/Retry/Cutoff/Rounds.antt =====
-- A round of the retry loop whose wait is short (retry.go).
use go_httpclient.Shared.{
  subst, ℕ, ◌-◌, ◌<◌, ◌≡◌, refl, ◌∙◌, true, Option, none, arith, inl, inr, Bool-cases, ltb, ◌==◌,
}
use go_httpclient.Shared.Int.{
  ℤ, pos, ◌+ℤ◌, ◌-ℤ◌, ◌≤ℤ◌, ◌<ℤ◌, leb_ℤ, max_ℤ, sat64, +ℤ_parts, -ℤ_parts,
}
use go_httpclient.Http.Error.{Err}
use go_httpclient.Http.Message.{Response, Outcome, refuse}
use go_httpclient.Http.World.{World, Request, RoundTripper, done, select, drain_and_close}
use go_httpclient.ErrorClass.Classify.{kind_of, kind_is_retryable}
use go_httpclient.Retry.{
  Policy, default_is_retryable, attempt, pause, wait_backoff, prepare_request, try_once, one_round,
  ready,
}
use go_httpclient.Retry.Sends.{sends}
use go_httpclient.Retry.Protection.{retryable-of_error}

-- A policy with no attempt timeout and the default predicate, whose waits are shorter than a
-- breaker's reset timeout, which is positive. Its strategy takes no time, sends no request and
-- leaves the breakers alone; what it draws or remembers is its own.
pub record IsBrisk (cfg : Policy) (reset : ℤ) : Type 0 where
  pub unbounded : leb_ℤ cfg.attempt_timeout (pos 0) ≡ true
  pub predicate : cfg.is_retryable ≡ default_is_retryable
  pub lasting : pos 0 <ℤ reset
  pub brief : (k : ℕ) (r : Option Response) (w : World) → (cfg.backoff k r w).0 <ℤ reset
  pub prompt : (k : ℕ) (r : Option Response) (w : World) → (cfg.backoff k r w).1.now ≡ w.now
  pub quiet : (k : ℕ) (r : Option Response) (w : World) → sends (cfg.backoff k r w).1 ≡ sends w
  pub apart :
      (k : ℕ) (r : Option Response) (w : World) → (cfg.backoff k r w).1.breakers ≡ w.breakers

-- What a wait leaves: the time moves on by less than the reset timeout.
pub record IsRested (reset : ℤ) (k : ℕ) (w v : World) : Type 0 where
  pub breakers : v.breakers ≡ w.breakers
  pub sent : sends v ≡ sends w
  pub brief : 0 < k → ¬ (reset ≤ℤ sat64 (v.now -ℤ w.now))

brief_wait :
    (now d reset : ℤ)
    → pos 0 <ℤ reset
    → d <ℤ reset
    → ¬ (reset ≤ℤ sat64 (max_ℤ now (now +ℤ d) -ℤ now))
unfolding sat64
brief_wait now d reset positive short =
    ground (arith, +ℤ_parts now d, -ℤ_parts (max_ℤ now (now +ℤ d)) now)

select-undone :
    (req : Request) (d : ℤ) (w : World)
    → done req.ctx ≡ none
    → select req.ctx d w ≡ (none, record w { now = max_ℤ w.now (w.now +ℤ d) })
unfolding select
select-undone req d w alive = rw alive

module _ (cfg : Policy) (reset : ℤ) (brisk : IsBrisk cfg reset) (req : Request)
    (alive : done req.ctx ≡ none) (plain : req.get_body ≡ none) where
  pub pause-IsRested :
      (k : ℕ) (prev : Option Response) (w : World)
      → (v : World) × (pause cfg req k prev w ≡ (none, v)) × IsRested reset k w v
  unfolding pause wait_backoff
  pause-IsRested k prev w = elim (Bool-cases (k == 0)) [
    | inl first ↦ (
      w,
      rw first,
      record { breakers = refl; sent = refl; brief = λ again. absurd (ground arith) },
    )
    | inr later ↦
        let (d, u) = cfg.backoff (k - 1) prev w in
        (
          record u { now = max_ℤ u.now (u.now +ℤ d) },
          rw (later, select-undone, alive),
          record {
            breakers = brisk.apart (k - 1) prev w;
            sent = brisk.quiet (k - 1) prev w;
            brief = λ again.
                subst (λ from. ¬ (reset ≤ℤ sat64 (max_ℤ u.now (u.now +ℤ d) -ℤ from)))
                  (brisk.prompt (k - 1) prev w)
                  (brief_wait u.now d reset brisk.lasting (brisk.brief (k - 1) prev w));
          },
        )
  ]

  prepare_plain : (k : ℕ) (v : World) → prepare_request req k v ≡ ready req
  unfolding prepare_request
  prepare_plain k v = ground arith

  pub one_round-plain :
      (next : RoundTripper) (k : ℕ) (last : Outcome) (again : Outcome → World → Outcome × World)
      (w v : World)
      → pause cfg req k last.resp w ≡ (none, v)
      → one_round cfg next req k last again w ≡ try_once cfg next k req again v
  unfolding one_round
  one_round-plain next k last again w v h = rw (h, prepare_plain k v)

  pub try_once-failed :
      (next : RoundTripper) (k : ℕ) (e : Err) (again : Outcome → World → Outcome × World)
      (w v : World)
      → kind_is_retryable (kind_of e) ≡ true
      → next req w ≡ (refuse e, v)
      → try_once cfg next k req again w ≡ again (refuse e) v
  unfolding try_once attempt drain_and_close
  try_once-failed next k e again w v retryable h =
      rw (brisk.unbounded, h, brisk.predicate, retryable-of_error (refuse e) e refl ∙ retryable)
        (elim (Bool-cases (ltb k (cfg.max_attempts - 1))) [ inl more ↦ rw more | inr end ↦ rw end ])

  pub attempt-plain : (next : RoundTripper) (w : World) → attempt cfg next req w ≡ next req w
  unfolding attempt
  attempt-plain next w = rw brisk.unbounded
