-- ===== src/Contract/Retrying.antt =====
-- The retry middleware keeps to the contract (retry.go).
use go_httpclient.Shared.{
  ℕ, zero, suc, ◌+◌, ◌-◌, ◌<◌, ◌≡◌, Option, some, arith, inl, inr, Bool-cases, ltb, ◌==◌,
  if◌then◌else◌,
}
use go_httpclient.Shared.Int.{pos, leb_ℤ}
use go_httpclient.Http.Message.{Body, Response, Outcome}
use go_httpclient.Http.World.{World, Request, RoundTripper, drain_and_close}
use go_httpclient.Http.World.Bodies.{
  releasing, stream_of, IsReleased, Keeps, Keeps-close_request_body, Keeps-drain_and_close,
  Keeps-select,
}
use go_httpclient.Retry.{
  Policy, Prepared, ready, failed, can_retry, attempt, wait_backoff, pause, prepare_request,
  if_ready, try_once, one_round, loop, round_trip,
}
use go_httpclient.Contract.{Honors, HonorsOver, KeepsBodies}
use go_httpclient.Contract.Layers.{under_timeout-Honors, Keeps-unless_stopped}

pub attempt-Honors : (cfg : Policy) → HonorsOver (attempt cfg)
unfolding attempt
attempt-Honors cfg next honest =
    let bounded = under_timeout-Honors cfg.attempt_timeout next honest in
    record {
      closes = λ req x b w e s. elim (Bool-cases (leb_ℤ cfg.attempt_timeout (pos 0))) [
        | inl none_ ↦ rw none_ (honest.closes req x b w e s)
        | inr some_ ↦ rw some_ (bounded.closes req x b w e s)
      ];
      keeps = λ req w b h. elim (Bool-cases (leb_ℤ cfg.attempt_timeout (pos 0))) [
        | inl none_ ↦ rw none_ (honest.keeps req w b h)
        | inr some_ ↦ rw some_ (bounded.keeps req w b h)
      ];
    }

module _ (cfg : Policy) (fair : KeepsBodies cfg) where
  pub Keeps-pause :
      (req : Request) (k : ℕ) (prev : Option Response) (w : World)
      → Keeps w (pause cfg req k prev w).1
  unfolding pause wait_backoff
  Keeps-pause req k prev w b h = elim (Bool-cases (k == 0)) [
    | inl first ↦ rw first h
    | inr later ↦ rw later (Keeps-select req.ctx _ _ b (fair.keeps (k - 1) prev w b h))
  ]

  module _ (next : RoundTripper) (honest : Honors next) where
    pub Keeps-discard :
        (k : ℕ) (r : Option Response) (v : World)
        → Keeps v (if ltb k (cfg.max_attempts - 1) then drain_and_close r v else v)
    Keeps-discard k r v b h = elim (Bool-cases (ltb k (cfg.max_attempts - 1))) [
      | inl e ↦ rw e (Keeps-drain_and_close r v b h)
      | inr e ↦ rw e h
    ]

    -- Behind the attempt nothing is opened again.
    Keeps-behind :
        (k : ℕ) (req : Request) (again : Outcome → World → Outcome × World) (w : World)
        → ((o : Outcome) (v : World) → Keeps v (again o v).1)
        → Keeps (attempt cfg next req w).1 (try_once cfg next k req again w).1
    unfolding try_once
    Keeps-behind k req again w rest b h =
        elim (Bool-cases (cfg.is_retryable (attempt cfg next req w).0)) [
          | inl e ↦ rw e (rest _ _ b (Keeps-discard k _ _ b h))
          | inr e ↦ rw e h
        ]

    Keeps-if_ready :
        (req : Request) (p : Prepared) (v : World) (go : Request → World → Outcome × World)
        → ((req' : Request) → Keeps v (go req' v).1)
        → Keeps v (if_ready req p v go).1
    Keeps-if_ready req (ready req') v go rest = rest req'
    Keeps-if_ready req (failed e) v go rest = Keeps-close_request_body req v

    Keeps-one_round :
        (req : Request) (k : ℕ) (last : Outcome) (again : Outcome → World → Outcome × World)
        (w : World)
        → ((o : Outcome) (v : World) → Keeps v (again o v).1)
        → Keeps w (one_round cfg next req k last again w).1
    unfolding one_round
    Keeps-one_round req k last again w rest =
        let (stopped, w1) = pause cfg req k last.resp w in
        let go = λ (v : World).
          if_ready req (prepare_request req k v) v (λ req' u. try_once cfg next k req' again u) in
        Keeps-unless_stopped req stopped w w1 go (Keeps-pause req k last.resp w) (
          Keeps-if_ready req (prepare_request req k w1) w1
            (λ req' u. try_once cfg next k req' again u)
            (λ req' b h.
              Keeps-behind k req' again w1 rest b
                ((attempt-Honors cfg next honest).keeps req' w1 b h)))

    pub Keeps-loop :
        (n : ℕ) (req : Request) (k : ℕ) (last : Outcome) (w : World)
        → Keeps w (loop n cfg next req k last w).1
    unfolding loop
    Keeps-loop zero req k last w b h = h
    Keeps-loop (suc n) req k last w b h =
        Keeps-one_round req k last (loop n cfg next req (k + 1)) w
          (λ o v. Keeps-loop n req (k + 1) o v) b h

    -- The first attempt closes the body, and nothing behind it opens it again.
    first_loop-IsReleased :
        (n : ℕ) (req : Request) (x : Body) (b : ℕ) (last : Outcome) (w : World)
        → 0 < n
        → req.body ≡ some x
        → stream_of x ≡ some b
        → IsReleased b (loop n cfg next req 0 last w).1
    unfolding loop one_round pause prepare_request
    first_loop-IsReleased zero req x b last w positive e s = absurd (omega arith)
    first_loop-IsReleased (suc n) req x b last w positive e s =
        Keeps-behind 0 req (loop n cfg next req 1) w (λ o v. Keeps-loop n req 1 o v) (releasing b)
          ((attempt-Honors cfg next honest).closes req x b w e s)

pub retry-Honors :
    (cfg : Policy) → KeepsBodies cfg → 0 < cfg.max_attempts → HonorsOver (round_trip cfg)
unfolding round_trip
retry-Honors cfg fair positive next honest =
    let plain = attempt-Honors cfg next honest in
    record {
      closes = λ req x b w e s. elim (Bool-cases (can_retry cfg req)) [
        | inl e' ↦
            rw e'
              (first_loop-IsReleased cfg fair next honest cfg.max_attempts req x b _ w positive e s)
        | inr e' ↦ rw e' (plain.closes req x b w e s)
      ];
      keeps = λ req w b h. elim (Bool-cases (can_retry cfg req)) [
        | inl e' ↦ rw e' (Keeps-loop cfg fair next honest cfg.max_attempts req 0 _ w b h)
        | inr e' ↦ rw e' (plain.keeps req w b h)
      ];
    }
