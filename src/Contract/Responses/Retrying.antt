-- ===== src/Contract/Responses/Retrying.antt =====
-- The retry middleware leaks the body of no attempt's response (retry.go).
use go_httpclient.Shared.{
  ℕ, zero, suc, ◌+◌, ◌-◌, ◌≡◌, refl, sym, ap, ◌∙◌, true, false, Option, some, arith, inl, inr,
  Bool-cases, ltb, ◌==◌, if◌then◌else◌,
}
use go_httpclient.Shared.Int.{pos, leb_ℤ}
use go_httpclient.Http.Message.{Response, Outcome}
use go_httpclient.Http.World.{World, Request, RoundTripper, drain_and_close}
use go_httpclient.Http.World.Bodies.{
  closing, carried_by, IsClosed, Keeps, OpensNone, OpensNone-drain_and_close, OpensNone-select,
  OpensNone-close_request_body, drained-IsClosed,
}
use go_httpclient.Retry.{
  Policy, Prepared, ready, failed, can_retry, attempt, wait_backoff, pause, prepare_request,
  if_ready, try_once, one_round, loop, round_trip,
}
use go_httpclient.Contract.{
  Honors, Account, before, closed, returned, Accounts, Releases, ReleasesOver, KeepsBodies,
}
use go_httpclient.Contract.Retrying.{Keeps-discard, Keeps-loop}
use go_httpclient.Contract.Responses.{
  under_timeout-Releases, Accounts-none, Accounts-unless_stopped,
}

attempt-Releases : (cfg : Policy) → ReleasesOver (attempt cfg)
unfolding attempt
attempt-Releases cfg next honest release req w =
    elim (Bool-cases (leb_ℤ cfg.attempt_timeout (pos 0))) [
      | inl none_ ↦ rw none_ (release req w)
      | inr some_ ↦ rw some_ (under_timeout-Releases cfg.attempt_timeout next honest release req w)
    ]

OpensNone-pause :
    (cfg : Policy) (req : Request) (k : ℕ) (prev : Option Response) (w : World)
    → KeepsBodies cfg
    → OpensNone w (pause cfg req k prev w).1
unfolding pause wait_backoff
OpensNone-pause cfg req k prev w fair b = elim (Bool-cases (k == 0)) [
  | inl first ↦ rw first
  | inr later ↦ rw later (OpensNone-select req.ctx _ _ b ∙ fair.shut (k - 1) prev w b)
]

-- What the loop does with a response that is not the last: drained and closed, or returned.
abbrev discard : Policy → ℕ → Option Response → World → World
discard cfg k r v = if ltb k (cfg.max_attempts - 1) then drain_and_close r v else v

OpensNone-discard :
    (cfg : Policy) (k : ℕ) (r : Option Response) (v : World) → OpensNone v (discard cfg k r v)
OpensNone-discard cfg k r v b = elim (Bool-cases (ltb k (cfg.max_attempts - 1))) [
  | inl e ↦ rw e (OpensNone-drain_and_close r v b)
  | inr e ↦ rw e
]

discard-IsClosed :
    (cfg : Policy) (k : ℕ) (r : Option Response) (b : ℕ) (v : World)
    → ltb k (cfg.max_attempts - 1) ≡ true
    → carried_by r ≡ some b
    → IsClosed b (discard cfg k r v)
discard-IsClosed cfg k r b v more h = rw more (drained-IsClosed r b v h)

module _ (cfg : Policy) (fair : KeepsBodies cfg) (next : RoundTripper) (honest : Honors next)
    (release : Releases next) where
  -- The accounts of an attempt, once the rest of the loop has run behind it.
  settle-Account :
      (k b : ℕ) (w : World) (out : Outcome × World) (again : Outcome → World → Outcome × World)
      → ((o : Outcome) (v : World) → Keeps v (again o v).1)
      → (ltb k (cfg.max_attempts - 1) ≡ false → (o : Outcome) (v : World) → again o v ≡ (o, v))
      → Account w out b
      → Account w (again out.0 (discard cfg k out.0.resp out.1)) b
  settle-Account k b w out again keeps last (before h) = before h
  settle-Account k b w out again keeps last (closed h) =
      closed (
        keeps _ _ (closing b) (Keeps-discard cfg fair next honest k out.0.resp out.1 (closing b) h))
  settle-Account k b w out again keeps last (returned h) =
      elim (Bool-cases (ltb k (cfg.max_attempts - 1))) [
        | inl more ↦
            closed (keeps _ _ (closing b) (discard-IsClosed cfg k out.0.resp b out.1 more h))
        | inr done ↦ returned (ap (λ r. carried_by r.0.resp) (last done _ _) ∙ h)
      ]

  try_once-Accounts :
      (k : ℕ) (req : Request) (again : Outcome → World → Outcome × World) (w : World)
      → ((o : Outcome) (v : World) → Keeps v (again o v).1)
      → ((o : Outcome) (v : World) → Accounts v (again o v))
      → (ltb k (cfg.max_attempts - 1) ≡ false → (o : Outcome) (v : World) → again o v ≡ (o, v))
      → Accounts w (try_once cfg next k req again w)
  unfolding try_once
  try_once-Accounts k req again w keeps rest last =
      elim (Bool-cases (cfg.is_retryable (attempt cfg next req w).0)) [
        | inl e ↦ rw e (λ b opened. go b (rest out.0 left b opened))
        | inr e ↦ rw e (attempt-Releases cfg next honest release req w)
      ]
    where
      out : Outcome × World
      out = attempt cfg next req w

      left : World
      left = discard cfg k out.0.resp out.1

      go : (b : ℕ) → Account left (again out.0 left) b → Account w (again out.0 left) b
      go b (before h) = settle-Account k b w out again keeps last (
          attempt-Releases cfg next honest release req w b
            (sym (OpensNone-discard cfg k out.0.resp out.1 b) ∙ h))
      go b (closed h) = closed h
      go b (returned h) = returned h

  Accounts-if_ready :
      (req : Request) (p : Prepared) (v : World) (go : Request → World → Outcome × World)
      → ((req' : Request) → Accounts v (go req' v))
      → Accounts v (if_ready req p v go)
  Accounts-if_ready req (ready req') v go rest = rest req'
  Accounts-if_ready req (failed e) v go rest =
      Accounts-none v _ (OpensNone-close_request_body req v)

  -- Behind the last attempt the loop returns what it has.
  last_round :
      (n k : ℕ) (req : Request)
      → k + suc n ≡ cfg.max_attempts
      → ltb k (cfg.max_attempts - 1) ≡ false
      → (o : Outcome) (v : World) → loop n cfg next req (k + 1) o v ≡ (o, v)
  unfolding loop
  last_round zero k req e h o v = refl
  last_round (suc n) k req e h o v = absurd (ground arith)

  loop-Accounts :
      (n k : ℕ) (req : Request) (last : Outcome) (w : World)
      → k + n ≡ cfg.max_attempts
      → Accounts w (loop n cfg next req k last w)
  unfolding loop one_round
  loop-Accounts zero k req last w e = Accounts-none w (last, w) (λ b. refl)
  loop-Accounts (suc n) k req last w e =
      let (stopped, v) = pause cfg req k last.resp w in
      Accounts-unless_stopped req stopped w v
        (λ v.
          if_ready req (prepare_request req k v) v
            (λ req' u. try_once cfg next k req' (loop n cfg next req (k + 1)) u))
        (OpensNone-pause cfg req k last.resp w fair)
        (Accounts-if_ready req (prepare_request req k v) v
          (λ req' u. try_once cfg next k req' (loop n cfg next req (k + 1)) u)
          (λ req'.
            try_once-Accounts k req' (loop n cfg next req (k + 1)) v
              (λ o u. Keeps-loop cfg fair next honest n req (k + 1) o u)
              (λ o u. loop-Accounts n (k + 1) req o u (omega arith)) (last_round n k req e)))

pub retry-Releases : (cfg : Policy) → KeepsBodies cfg → ReleasesOver (round_trip cfg)
unfolding round_trip
retry-Releases cfg fair next honest release req w = elim (Bool-cases (can_retry cfg req)) [
  | inl e ↦
      rw e (loop-Accounts cfg fair next honest release cfg.max_attempts 0 req _ w (omega arith))
  | inr e ↦ rw e (attempt-Releases cfg next honest release req w)
]
