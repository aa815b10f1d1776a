-- ===== src/Retry/Budget.antt =====
-- The caller's deadline and the retries (retry.go, `waitBackoff` and the loop).
use go_httpclient.Shared.{
  ℕ, zero, suc, ◌+◌, ◌-◌, ◌<◌, ◌≡◌, refl, ap, Option, none, some, arith, inl, inr, Bool-cases,
  Option-cases, ◌==◌,
}
use go_httpclient.Shared.Int.{ℤ, pos, ◌≤ℤ◌, ◌<ℤ◌, leb_ℤ, ltb_ℤ, max_int64, ◌+ℤ◌, +ℤ_parts}
use go_httpclient.Http.Error.{Err}
use go_httpclient.Http.Message.{Context, Response, Outcome}
use go_httpclient.Http.World.{World, Request, RoundTripper, done, with_timeout, settle}
use mathlib.Core.Path.{fun_ext}
use go_httpclient.Http.World.Stopping.{unless_stopped_same}
use go_httpclient.Http.World.Select.{select_in_time}
use go_httpclient.Timeout.{under_timeout, has_shorter_deadline, round_trip as bound_time}
use go_httpclient.Timeout.Release.{shorter_bounds, new_bounds}
use go_httpclient.Retry.{
  Policy, Prepared, ready, failed, can_retry, attempt, wait_backoff, pause, prepare_request,
  if_ready, try_once, one_round, loop, round_trip,
}

-- Two round trippers that cannot be told apart until a time.
abbrev pub AgreeUntil : ℤ → RoundTripper → RoundTripper → Type 0
AgreeUntil at f g = (req : Request) (w : World) → w.now ≤ℤ at → f req w ≡ g req w

-- A strategy that waits, and reads the clock at most.
abbrev pub IsPatient : Policy → Type 0
IsPatient cfg =
    (k : ℕ) (r : Option Response) (w : World)
    → (pos 0 <ℤ (cfg.backoff k r w).0) × ((cfg.backoff k r w).1.now ≡ w.now)

module _ (at : ℤ) (f g : RoundTripper) (agree : AgreeUntil at f g) where
  attempt-AgreeUntil :
      (cfg : Policy) (req : Request) (w : World)
      → w.now ≤ℤ at
      → attempt cfg f req w ≡ attempt cfg g req w
  unfolding attempt under_timeout with_timeout
  attempt-AgreeUntil cfg req w early = elim (Bool-cases (leb_ℤ cfg.attempt_timeout (pos 0))) [
    | inl e ↦ rw e (agree req w early)
    | inr e ↦ rw e (rw (agree _ (record w { next_context = w.next_context + 1 }) early))
  ]

  try_once-AgreeUntil :
      (cfg : Policy) (k : ℕ) (req : Request) (again again' : Outcome → World → Outcome × World)
      (w : World)
      → again ≡ again'
      → w.now ≤ℤ at
      → try_once cfg f k req again w ≡ try_once cfg g k req again' w
  unfolding try_once
  try_once-AgreeUntil cfg k req again again' w same early =
      rw (attempt-AgreeUntil cfg req w early, same)

  if_ready-AgreeUntil :
      (cfg : Policy) (k : ℕ) (req : Request) (p : Prepared)
      (again again' : Outcome → World → Outcome × World) (v : World)
      → again ≡ again'
      → v.now ≤ℤ at
      → if_ready req p v (λ req' u. try_once cfg f k req' again u)
        ≡ if_ready req p v (λ req' u. try_once cfg g k req' again' u)
  if_ready-AgreeUntil cfg k req (ready req') again again' v same early =
      try_once-AgreeUntil cfg k req' again again' v same early
  if_ready-AgreeUntil cfg k req (failed e) again again' v same early = refl

-- A wait that is not cut short ends before the context does.
pause_in_time :
    (cfg : Policy) (req : Request) (k : ℕ) (prev : Option Response) (w : World) (at : ℤ) (e : Err)
    → IsPatient cfg
    → 0 < k
    → done req.ctx ≡ some (at, e)
    → (pause cfg req k prev w).0 ≡ none
    → (pause cfg req k prev w).1.now ≤ℤ at
unfolding pause wait_backoff
pause_in_time cfg req k prev w at e patient again is_done h = elim (Bool-cases (k == 0)) [
  | inl first ↦ absurd (ground arith)
  | inr later ↦
      rw later (select_in_time req.ctx _ at e _ is_done (patient (k - 1) prev w).0 (rw later at h))
]

module _ (limit : ℤ) (f g : RoundTripper) (agree : AgreeUntil limit f g) (cfg : Policy)
    (patient : IsPatient cfg) (req : Request) (at : ℤ) (e : Err)
    (is_done : done req.ctx ≡ some (at, e)) (within : at ≤ℤ limit) where
  loop-AgreeUntil :
      (n k : ℕ) (last : Outcome) (w : World)
      → 0 < k
      → loop n cfg f req k last w ≡ loop n cfg g req k last w
  unfolding loop one_round
  loop-AgreeUntil zero k last w again = refl
  loop-AgreeUntil (suc n) k last w again =
      let (stopped, v) = pause cfg req k last.resp w in
      unless_stopped_same req stopped v _ _ (λ passed.
        if_ready-AgreeUntil limit f g agree cfg k req (prepare_request req k v)
          (loop n cfg f req (k + 1)) (loop n cfg g req (k + 1)) v
          (fun_ext (λ o. fun_ext (λ u. loop-AgreeUntil n (k + 1) o u (omega arith))))
          (omega (arith, pause_in_time cfg req k last.resp w at e patient again is_done passed)))

  first_loop-AgreeUntil :
      (n : ℕ) (last : Outcome) (w : World)
      → w.now ≤ℤ limit
      → loop n cfg f req 0 last w ≡ loop n cfg g req 0 last w
  unfolding loop one_round pause prepare_request
  first_loop-AgreeUntil zero last w early = refl
  first_loop-AgreeUntil (suc n) last w early =
      try_once-AgreeUntil limit f g agree cfg 0 req (loop n cfg f req 1) (loop n cfg g req 1) w
        (fun_ext (λ o. fun_ext (λ u. loop-AgreeUntil n 1 o u (omega arith)))) early

  pub retry-AgreeUntil :
      (w : World) → w.now ≤ℤ limit → round_trip cfg f req w ≡ round_trip cfg g req w
  unfolding round_trip
  retry-AgreeUntil w early = elim (Bool-cases (can_retry cfg req)) [
    | inl yes_ ↦ rw yes_ (first_loop-AgreeUntil cfg.max_attempts _ w early)
    | inr no_ ↦ rw no_ (attempt-AgreeUntil limit f g agree cfg req w early)
  ]

-- A context with a deadline is done by then.
done_by :
    (ctx : Context) (dl : ℤ)
    → ctx.deadline ≡ some dl
    → (at : ℤ) × (e : Err) × (done ctx ≡ some (at, e)) × (at ≤ℤ dl)
unfolding done
done_by ctx dl h = elim (Option-cases ctx.cancel_at) [
  | inl never ↦ (dl, Err.deadline_exceeded, rw (never, h), omega arith)
  | inr (c, is) ↦ elim (Bool-cases (ltb_ℤ dl c)) [
    | inl first ↦ (dl, Err.deadline_exceeded, rw (is, h, first), omega arith)
    | inr later ↦ (c, Err.canceled, rw (is, h, later), ground arith)
  ]
]

bounded-AgreeUntil :
    (limit : ℤ) (f g : RoundTripper) (cfg : Policy) (req : Request) (w : World) (dl : ℤ)
    → AgreeUntil limit f g
    → IsPatient cfg
    → req.ctx.deadline ≡ some dl
    → dl ≤ℤ limit
    → w.now ≤ℤ limit
    → round_trip cfg f req w ≡ round_trip cfg g req w
bounded-AgreeUntil limit f g cfg req w dl agree patient h within early =
    let (at, e, is_done, sooner) = done_by req.ctx dl h in
    retry-AgreeUntil limit f g agree cfg patient req at e is_done (omega arith) w early

-- With the timeout middleware outside the retry middleware the timeout bounds the whole operation:
-- no attempt begins later than the timeout after the request. Put as what cannot be observed: two
-- next round trippers that agree on all calls until then give the same outcome and leave the same
-- world. The timeout is positive and below the largest duration, and the backoff strategy gives
-- positive waits and takes no time itself.
pub total_budget :
    (d : ℤ) (cfg : Policy) (f g : RoundTripper) (req : Request) (w : World)
    → pos 0 <ℤ d
    → d <ℤ max_int64
    → IsPatient cfg
    → AgreeUntil (w.now +ℤ d) f g
    → bound_time d (round_trip cfg f) req w ≡ bound_time d (round_trip cfg g) req w
unfolding bound_time under_timeout with_timeout
total_budget d cfg f g req w positive fits patient agree =
    elim (Bool-cases (has_shorter_deadline req.ctx.deadline d w)) [
      | inl shorter ↦ elim (Option-cases req.ctx.deadline) [
        | inl e ↦ absurd (ground arith)
        | inr (dl, e) ↦
            let b = shorter_bounds d req w dl fits e shorter in
            rw shorter (
              bounded-AgreeUntil (w.now +ℤ d) f g cfg req w b.deadline agree patient b.bounded
                b.in_time (omega (arith, +ℤ_parts w.now d)))
      ]
      | inr longer ↦
          let b = new_bounds d req w in
          let (ctx, v) = with_timeout req.ctx d w in
          rw longer (
            ap (settle ctx.id) (
              bounded-AgreeUntil (w.now +ℤ d) f g cfg (record req { ctx = ctx }) v b.deadline agree
                patient b.bounded b.in_time (omega (arith, +ℤ_parts w.now d))))
    ]
