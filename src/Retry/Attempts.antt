-- ===== src/Retry/Attempts.antt =====
-- How often the retry middleware tries, and what it returns (retry.go, `RoundTrip`).
use go_httpclient.Shared.{
  ℕ, zero, suc, ◌+◌, ◌-◌, ◌≤◌, ◌<◌, ◌≡◌, refl, ◌∙◌, true, false, Option, none, some, arith, inl,
  inr, Bool-cases, Option-cases, if◌then◌else◌, ltb, ◌==◌,
}
use go_httpclient.Shared.Int.{ℤ}
use go_httpclient.Http.Error.{Err}
use go_httpclient.Http.Message.{Response, Outcome, refuse}
use go_httpclient.Http.World.{
  World, Request, RoundTripper, Fetched, ok, err, done, close_request_body, unless_stopped,
  drain_and_close,
}
use go_httpclient.Http.World.Select.{select_stopped}
use go_httpclient.Retry.{
  Policy, Prepared, ready, failed, can_retry, prepare_request, attempt, wait_backoff, pause,
  try_once, one_round, loop, round_trip, with_body, if_ready,
}
use go_httpclient.Retry.Sends.{
  sends, SendsOnce, IsQuiet, sends-close_request_body, sends-drain_and_close, sends-attempt,
  sends-pause,
}

-- The two ways to stop between attempts: the caller's context is done, or `GetBody` fails.
pub data Aborts (req : Request) (o : Outcome) : Type 0 where
  context_done : (at : ℤ) (e : Err) → done req.ctx ≡ some (at, e) → o ≡ refuse e → Aborts req o
  no_new_body :
      (fetch : World → Fetched) (v : World) (e : Err)
      → req.get_body ≡ some fetch
      → fetch v ≡ err e
      → o ≡ refuse e
      → Aborts req o

-- Why the middleware returned: all attempts were used, the outcome is not retryable, or it aborted.
pub data Ends (cfg : Policy) (req : Request) (left : ℕ) (used : ℕ) (o : Outcome) : Type 0 where
  exhausted : used ≡ left → Ends cfg req left used o
  settled : cfg.is_retryable o ≡ false → Ends cfg req left used o
  aborted : Aborts req o → Ends cfg req left used o

-- A run that used between `least` and `left` attempts.
pub record Tries (cfg : Policy) (req : Request) (least left : ℕ) (w : World) (r : Outcome × World)
    : Type 0 where
  pub used : ℕ
  pub sent : sends r.1 ≡ sends w + used
  pub enough : least ≤ used
  pub bounded : used ≤ left
  pub why : Ends cfg req left used r.0

with_body-failed : (req : Request) (f : Fetched) (e : Err) → with_body req f ≡ failed e → f ≡ err e
with_body-failed req (ok b) e h = cc
with_body-failed req (err x) e h = ground arith

module _ (cfg : Policy) (next : RoundTripper) (req : Request) (once : SendsOnce next)
    (quiet : IsQuiet cfg) where
  Ends-suc : (n used : ℕ) (o : Outcome) → Ends cfg req n used o → Ends cfg req (suc n) (suc used) o
  Ends-suc n used o (exhausted e) = exhausted (omega arith)
  Ends-suc n used o (settled h) = settled h
  Ends-suc n used o (aborted a) = aborted a

  later-Tries :
      (n : ℕ) (w v : World) (r : Outcome × World)
      → sends v ≡ suc (sends w)
      → Tries cfg req 0 n v r
      → Tries cfg req 1 (suc n) w r
  later-Tries n w v r moved t = record {
    used = suc t.used;
    sent = omega (arith, t.sent);
    enough = omega arith;
    bounded = omega (arith, t.bounded);
    why = Ends-suc n t.used r.0 t.why;
  }

  moved-Tries :
      (n : ℕ) (w v : World) (r : Outcome × World)
      → sends v ≡ sends w
      → Tries cfg req 0 (suc n) v r
      → Tries cfg req 0 (suc n) w r
  moved-Tries n w v r same t = record {
    used = t.used;
    sent = omega (arith, t.sent);
    enough = t.enough;
    bounded = t.bounded;
    why = t.why;
  }

  stopped-Tries :
      (n : ℕ) (v : World) (e : Err)
      → Aborts req (refuse e)
      → Tries cfg req 0 (suc n) v (refuse e, close_request_body req v)
  stopped-Tries n v e a = record {
    used = 0;
    sent = omega (arith, sends-close_request_body req v);
    enough = omega arith;
    bounded = omega arith;
    why = aborted a;
  }

  if_ready-Tries :
      (n : ℕ) (v : World) (p : Prepared) (go : Request → World → Outcome × World)
      → ((e : Err) → p ≡ failed e → Aborts req (refuse e))
      → ((req' : Request) → Tries cfg req 1 (suc n) v (go req' v))
      → Tries cfg req 0 (suc n) v (if_ready req p v go)
  if_ready-Tries n v (failed e) go stop rest = stopped-Tries n v e (stop e refl)
  if_ready-Tries n v (ready req') go stop rest = record {
    used = (rest req').used;
    sent = (rest req').sent;
    enough = omega arith;
    bounded = (rest req').bounded;
    why = (rest req').why;
  }

  unless_stopped-Tries :
      (n : ℕ) (w v : World) (o : Option Err) (go : World → Outcome × World)
      → sends v ≡ sends w
      → ((e : Err) → o ≡ some e → Aborts req (refuse e))
      → Tries cfg req 0 (suc n) v (go v)
      → Tries cfg req 0 (suc n) w (unless_stopped req o v go)
  unless_stopped-Tries n w v (some e) go same stop rest =
      moved-Tries n w v _ same (stopped-Tries n v e (stop e refl))
  unless_stopped-Tries n w v none go same stop rest = moved-Tries n w v _ same rest

  sends-discard :
      (k : ℕ) (r : Option Response) (v : World)
      → sends (if ltb k (cfg.max_attempts - 1) then drain_and_close r v else v) ≡ sends v
  sends-discard k r v = elim (Bool-cases (ltb k (cfg.max_attempts - 1))) [
    | inl e ↦ rw e (sends-drain_and_close r v)
    | inr e ↦ rw e
  ]

  pause-Aborts :
      (k : ℕ) (prev : Option Response) (w : World) (e : Err)
      → (pause cfg req k prev w).0 ≡ some e
      → Aborts req (refuse e)
  unfolding pause wait_backoff
  pause-Aborts k prev w e h = elim (Bool-cases (k == 0)) [
    | inl first ↦ absurd (ground arith)
    | inr later ↦
        let (at, is) = select_stopped req.ctx _ e _ (rw later at h) in context_done at e is refl
  ]

  prepare-Aborts :
      (k : ℕ) (v : World) (e : Err) → prepare_request req k v ≡ failed e → Aborts req (refuse e)
  unfolding prepare_request
  prepare-Aborts k v e h = elim (Bool-cases (k == 0)) [
    | inl first ↦ absurd (ground arith)
    | inr later ↦ elim (Option-cases req.get_body) [
      | inl no_fetch ↦ absurd (ground arith)
      | inr (fetch, is) ↦
          no_new_body fetch v e is (with_body-failed req (fetch v) e (rw (later, is) at h)) refl
    ]
  ]

  try_once-Tries :
      (k n : ℕ) (req' : Request) (again : Outcome → World → Outcome × World) (w : World)
      → ((o : Outcome) (v : World) → Tries cfg req 0 n v (again o v))
      → Tries cfg req 1 (suc n) w (try_once cfg next k req' again w)
  unfolding try_once
  try_once-Tries k n req' again w rest =
      elim (Bool-cases (cfg.is_retryable (attempt cfg next req' w).0)) [
        | inl e ↦ rw e (
            later-Tries n w _ _ (sends-discard k _ _ ∙ sends-attempt cfg next once req' w)
              (rest _ _))
        | inr e ↦ rw e (record {
          used = 1;
          sent = omega (arith, sends-attempt cfg next once req' w);
          enough = omega arith;
          bounded = omega arith;
          why = settled e;
        })
      ]

  one_round-Tries :
      (k n : ℕ) (last : Outcome) (again : Outcome → World → Outcome × World) (w : World)
      → ((o : Outcome) (v : World) → Tries cfg req 0 n v (again o v))
      → Tries cfg req 0 (suc n) w (one_round cfg next req k last again w)
  unfolding one_round
  one_round-Tries k n last again w rest =
      unless_stopped-Tries n w (pause cfg req k last.resp w).1 (pause cfg req k last.resp w).0 _
        (sends-pause cfg req k last.resp w quiet) (pause-Aborts k last.resp w)
        (if_ready-Tries n _ (prepare_request req k _) _ (prepare-Aborts k _)
          (λ req'. try_once-Tries k n req' again _ rest))

  loop-Tries :
      (n k : ℕ) (last : Outcome) (w : World) → Tries cfg req 0 n w (loop n cfg next req k last w)
  unfolding loop
  loop-Tries zero k last w = record {
    used = 0;
    sent = omega arith;
    enough = omega arith;
    bounded = omega arith;
    why = exhausted refl;
  }
  loop-Tries (suc n) k last w =
      one_round-Tries k n last (loop n cfg next req (k + 1)) w (λ o v. loop-Tries n (k + 1) o v)

  -- The first round neither waits nor prepares, so it always tries.
  first_loop-Tries :
      (n : ℕ) (last : Outcome) (w : World)
      → 0 < n
      → Tries cfg req 1 n w (loop n cfg next req 0 last w)
  unfolding loop one_round pause prepare_request
  first_loop-Tries zero last w positive = absurd (omega arith)
  first_loop-Tries (suc n) last w positive =
      try_once-Tries 0 n req (loop n cfg next req 1) w (λ o v. loop-Tries n 1 o v)

-- For a request that can be retried, and a policy of at least one attempt, the middleware calls the
-- next round tripper at least once and at most as often as the policy says. It returns because all
-- attempts were used, or because the outcome that it returns is not retryable, or because it gave
-- up between attempts, with the error of the caller's context or of GetBody. A request that cannot
-- be retried is tried exactly once. The hypotheses: the next round tripper sends one request for
-- each call, and the backoff strategy sends none.
pub retry_attempts :
    (cfg : Policy) (next : RoundTripper) (req : Request) (w : World)
    → SendsOnce next
    → IsQuiet cfg
    → 0 < cfg.max_attempts
    → (can_retry cfg req ≡ true → Tries cfg req 1 cfg.max_attempts w (round_trip cfg next req w))
      × (can_retry cfg req ≡ false → sends (round_trip cfg next req w).1 ≡ suc (sends w))
unfolding round_trip
retry_attempts cfg next req w once quiet positive = (
  λ yes_. rw yes_ (first_loop-Tries cfg next req once quiet cfg.max_attempts _ w positive),
  λ no_. rw no_ (sends-attempt cfg next once req w),
)
