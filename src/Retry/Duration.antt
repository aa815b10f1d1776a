-- ===== src/Retry/Duration.antt =====
-- How long an operation with retries takes (retry.go).
use go_httpclient.Shared.{
  ℕ, zero, suc, ◌+◌, ◌-◌, subst, sym, ◌*◌, ◌≤◌, ◌≡◌, ◌∙◌, Option, none, arith, inl, inr, Bool-cases,
  ◌==◌, ltb,
}
use go_httpclient.Shared.Int.{pos, ◌≤ℤ◌, ◌+ℤ◌, leb_ℤ}
use go_httpclient.Http.Message.{Response, Outcome}
use go_httpclient.Http.World.{
  World, Request, RoundTripper, drain_and_close, settle, select, with_timeout,
}
use go_httpclient.Http.World.Select.{select-now_le}
use go_httpclient.Timeout.{under_timeout}
use go_httpclient.Retry.Clock.{
  Within, IsReadable, Takes, timer_end, SameTimes-settle, SameTimes-select, Takes-same, Takes-none,
  Takes-then, Takes-more, Takes-drain_and_close, Takes-unless_stopped, Takes-if_ready,
}
use go_httpclient.Retry.{
  Policy, can_retry, attempt, wait_backoff, pause, prepare_request, try_once, one_round, loop,
  round_trip,
}

-- A round tripper that takes at most `most` ns where reading a body takes at most `read`, which is
-- so of the bodies of its responses too; and a policy whose waits are at most `wait` ns, with a
-- strategy that takes no time itself.
abbrev pub IsTimely : ℕ → ℕ → RoundTripper → Type 0
IsTimely read most next =
    (req : Request) (w : World) → IsReadable read w → Takes read most w (next req w).1

abbrev pub IsModest : ℕ → Policy → Type 0
IsModest wait cfg =
    (k : ℕ) (r : Option Response) (w : World)
    → ((cfg.backoff k r w).0 ≤ℤ pos wait)
      × ((cfg.backoff k r w).1.now ≡ w.now)
      × ((cfg.backoff k r w).1.read_time ≡ w.read_time)

module _ (cfg : Policy) (next : RoundTripper) (read most wait : ℕ)
    (timely : IsTimely read most next) (modest : IsModest wait cfg) where
  Takes-attempt :
      (req : Request) (w : World) → IsReadable read w → Takes read most w (attempt cfg next req w).1
  unfolding attempt under_timeout with_timeout
  Takes-attempt req w readable = elim (Bool-cases (leb_ℤ cfg.attempt_timeout (pos 0))) [
    | inl e ↦ rw e (timely req w readable)
    | inr e ↦
        let (ctx, v) = with_timeout req.ctx cfg.attempt_timeout w in
        let out = next (record req { ctx = ctx }) v in
        let called = timely (record req { ctx = ctx }) v readable in
        rw e (
          Takes-same read most w out.1 (settle ctx.id out).1 (SameTimes-settle ctx.id out)
            (record { within = called.within; still = called.still }))
  ]

  Takes-pause :
      (req : Request) (k : ℕ) (prev : Option Response) (w : World)
      → IsReadable read w
      → Takes read wait w (pause cfg req k prev w).1
  unfolding pause wait_backoff
  Takes-pause req k prev w readable = elim (Bool-cases (k == 0)) [
    | inl e ↦ rw e (Takes-none read wait w readable)
    | inr e ↦
        let (d, v) = cfg.backoff (k - 1) prev w in
        let (short, same, times) = modest (k - 1) prev w in
        rw e (record {
          within =
              subst (λ at. (select req.ctx d v).1.now ≤ℤ at +ℤ pos wait) same
                (timer_end v.now d _ wait short (select-now_le req.ctx d v));
          still = λ b.
              subst (λ ts. ts b ≤ read) (sym (SameTimes-select req.ctx d v ∙ times)) (readable b);
        })
  ]

  Takes-try_once :
      (k : ℕ) (req : Request) (again : Outcome → World → Outcome × World) (w : World) (rest : ℕ)
      → IsReadable read w
      → ((o : Outcome) (u : World) → IsReadable read u → Takes read rest u (again o u).1)
      → Takes read (most + (read + rest)) w (try_once cfg next k req again w).1
  unfolding try_once
  Takes-try_once k req again w rest readable later =
      let (o, v) = attempt cfg next req w in
      let tried = Takes-attempt req w readable in
      let drained = Takes-drain_and_close read o.resp v tried.still in
      elim (Bool-cases (cfg.is_retryable o)) [
        | inr e ↦ rw e (Takes-more read most _ w v tried (omega arith))
        | inl e ↦ rw e (elim (Bool-cases (ltb k (cfg.max_attempts - 1))) [
          | inl more ↦ rw more (
              Takes-then read most (read + rest) w v _ tried (
                Takes-then read read rest v _ _ drained
                  (later o (drain_and_close o.resp v) drained.still)))
          | inr end ↦ rw end (
              Takes-then read most (read + rest) w v _ tried
                (Takes-more read rest _ v _ (later o v tried.still) (omega arith)))
        ])
      ]

  Takes-one_round :
      (req : Request) (k : ℕ) (last : Outcome) (again : Outcome → World → Outcome × World)
      (w : World) (rest paused : ℕ)
      → ((o : Outcome) (u : World) → IsReadable read u → Takes read rest u (again o u).1)
      → Takes read paused w (pause cfg req k last.resp w).1
      → Takes read (paused + (most + (read + rest))) w (one_round cfg next req k last again w).1
  unfolding one_round
  Takes-one_round req k last again w rest paused later waited =
      let (stopped, v) = pause cfg req k last.resp w in
      Takes-then read paused (most + (read + rest)) w v _ waited (
        Takes-unless_stopped read req stopped v _ (most + (read + rest)) waited.still (
          Takes-if_ready read req (prepare_request req k v) v _ (most + (read + rest)) waited.still
            (λ req'. Takes-try_once k req' again v rest waited.still later)))

  Takes-loop :
      (n k : ℕ) (req : Request) (last : Outcome) (w : World)
      → IsReadable read w
      → Takes read (n * (wait + most + read)) w (loop n cfg next req k last w).1
  unfolding loop
  Takes-loop zero k req last w readable = Takes-none read (0 * (wait + most + read)) w readable
  Takes-loop (suc n) k req last w readable =
      Takes-more read (wait + (most + (read + n * (wait + most + read))))
        (suc n * (wait + most + read)) w _
        (Takes-one_round req k last (loop n cfg next req (k + 1)) w (n * (wait + most + read)) wait
          (λ o u r. Takes-loop n (k + 1) req o u r) (Takes-pause req k last.resp w readable))
        (grind arith)

  Takes-first_loop :
      (n : ℕ) (req : Request) (last : Outcome) (w : World)
      → IsReadable read w
      → Takes read (suc n * (most + read) + n * wait) w (loop (suc n) cfg next req 0 last w).1
  unfolding loop pause
  Takes-first_loop n req last w readable =
      Takes-more read (0 + (most + (read + n * (wait + most + read))))
        (suc n * (most + read) + n * wait) w _
        (Takes-one_round req 0 last (loop n cfg next req 1) w (n * (wait + most + read)) 0
          (λ o u r. Takes-loop n 1 req o u r) (Takes-none read 0 w readable))
        (grind arith)

  -- An operation takes no longer than its attempts, the reading of their responses and the waits
  -- between them: with a next round tripper that takes at most `most` ns for a call, bodies that
  -- take at most `read` ns to read (before the operation, and as the round tripper leaves them), a
  -- policy of n + 1 attempts, and waits of at most `wait` ns from a strategy that takes no time
  -- itself and leaves the bodies alone, the middleware returns within
  -- (n + 1) * (most + read) + n * wait ns, whatever becomes of the attempts.
  pub retry_duration :
      (n : ℕ) (req : Request) (w : World)
      → cfg.max_attempts ≡ suc n
      → IsReadable read w
      → (round_trip cfg next req w).1.now ≤ℤ w.now +ℤ pos (suc n * (most + read) + n * wait)
  unfolding round_trip
  retry_duration n req w attempts readable = elim (Bool-cases (can_retry cfg req)) [
    | inl e ↦
        let fresh : Outcome = record { resp = none; err = none } in
        let bound = suc n * (most + read) + n * wait in
        rw e (
          subst (λ m. Within bound w (loop m cfg next req 0 fresh w).1) (sym attempts)
            (Takes-first_loop n req fresh w readable).within)
    | inr e ↦
        rw e
          (Takes-more read most (suc n * (most + read) + n * wait) w _
            (Takes-attempt req w readable) (grind arith)).within
  ]
