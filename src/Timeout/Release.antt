-- ===== src/Timeout/Release.antt =====
-- What the timeout middleware promises (timeout.go): the deadline that it sets, and that the
-- context which it makes is released.
use go_httpclient.Shared.{
  ℕ, ◌≡◌, ◌≢◌, refl, ◌⊎◌, Bool, true, false, none, some, List, [], ◌∷◌, arith, ◌==◌, ◌||◌, inl, inr,
  Option-cases, Bool-cases,
}
use go_httpclient.Shared.Int.{ℤ, ◌+ℤ◌, ◌≤ℤ◌, ◌<ℤ◌, max_int64, sat64, +ℤ_parts, -ℤ_parts}
use go_httpclient.Http.Message.{Outcome}
use go_httpclient.Http.World.{
  Event, World, Request, RoundTripper, canceled, close_body, settle, with_timeout, earlier,
}
use go_httpclient.Timeout.{has_shorter_deadline, round_trip}

-- Whether a context has been cancelled.
abbrev pub is_canceled : ℕ → List Event → Bool
is_canceled c [] = false
is_canceled c (canceled d ∷ es) = c == d || is_canceled c es
is_canceled c (_ ∷ es) = is_canceled c es

-- What a caller does with an outcome: it closes the body of the response, if there is one.
unfoldable pub finish : Outcome × World → World
unfolding close_body
finish (o, w) = elim o.resp [
  | none ↦ w
  | some r ↦ elim r.body [ none ↦ w | some b ↦ close_body b w ]
]

-- `RoundTrip` returns a response or an error.
abbrev pub IsAnswered : Outcome → Type 0
IsAnswered o = (o.resp ≡ none) → (o.err ≡ none) → ⊥

pub settle-releases :
    (c : ℕ) (r : Outcome × World)
    → IsAnswered r.0
    → ((settle c r).0.err ≡ r.0.err)
      × (r.0.err ≢ none → is_canceled c (settle c r).1.events ≡ true)
      × (r.0.err ≡ none → is_canceled c (finish (settle c r)).events ≡ true)
unfolding finish settle
settle-releases c r h = ground arith

-- Where the caller's deadline is not the shorter, and the next round tripper returns a response or
-- an error, the context that the middleware makes does not leak: it has been cancelled on return if
-- the call failed, and otherwise once the caller has closed the body of the response, if it has
-- one.
pub timeout_releases :
    (d : ℤ) (next : RoundTripper) (req : Request) (w : World)
    → has_shorter_deadline req.ctx.deadline d w ≡ false
    → ((r : Request) (v : World) → IsAnswered (next r v).0)
    → let out = round_trip d next req w in
      (out.0.err ≢ none → is_canceled w.next_context out.1.events ≡ true)
      × (out.0.err ≡ none → is_canceled w.next_context (finish out).events ≡ true)
unfolding round_trip with_timeout
timeout_releases d next req w long answered =
    let (ctx, v) = with_timeout req.ctx d w in
    let sent = record req { ctx = ctx } in
    rw long (ground (arith, settle-releases w.next_context (next sent v) (answered sent v)))

-- A request reaches the next round tripper with a deadline.
pub record IsBounded (d : ℤ) (req : Request) (w : World) (sent : Request) : Type 0 where
  pub deadline : ℤ
  pub bounded : sent.ctx.deadline ≡ some deadline
  -- at most the timeout from now
  pub in_time : deadline ≤ℤ w.now +ℤ d
  -- and no later than the caller's own
  pub not_extended : (own : ℤ) → req.ctx.deadline ≡ some own → deadline ≤ℤ own
  -- all else is the caller's
  pub same :
      sent ≡ record req { ctx = record req.ctx { id = sent.ctx.id; deadline = some deadline } }

pub shorter_bounds :
    (d : ℤ) (req : Request) (w : World) (at : ℤ)
    → d <ℤ max_int64
    → req.ctx.deadline ≡ some at
    → has_shorter_deadline req.ctx.deadline d w ≡ true
    → IsBounded d req w req
unfolding sat64
shorter_bounds d req w at fits e h = record {
  deadline = at;
  bounded = e;
  in_time = ground (arith, -ℤ_parts at w.now, +ℤ_parts w.now d);
  not_extended = ground arith;
  same = ground arith;
}

pub new_bounds :
    (d : ℤ) (req : Request) (w : World)
    → IsBounded d req w (record req { ctx = (with_timeout req.ctx d w).0 })
unfolding with_timeout
new_bounds d req w = record {
  deadline = earlier req.ctx.deadline (w.now +ℤ d);
  bounded = refl;
  in_time = ground arith;
  not_extended = λ own e. ground arith;
  same = refl;
}

-- For a timeout below the largest duration the middleware calls the next round tripper once, with
-- the caller's request but for the context, whose deadline is at most the timeout from now and not
-- later than the caller's own.
pub timeout_bounds :
    (d : ℤ) (next : RoundTripper) (req : Request) (w : World)
    → d <ℤ max_int64
    → (sent : Request) × (v : World) × IsBounded d req w sent
      × ((round_trip d next req w ≡ next sent v)
          ⊎ (round_trip d next req w ≡ settle sent.ctx.id (next sent v)))
unfolding round_trip with_timeout
timeout_bounds d next req w fits = elim (Bool-cases (has_shorter_deadline req.ctx.deadline d w)) [
  | inl shorter ↦ elim (Option-cases req.ctx.deadline) [
    | inl e ↦ absurd (ground arith)
    | inr (at, e) ↦ (req, w, shorter_bounds d req w at fits e shorter, inl (rw shorter))
  ]
  | inr longer ↦ (
    record req { ctx = (with_timeout req.ctx d w).0 },
    (with_timeout req.ctx d w).1,
    new_bounds d req w,
    inr (rw longer),
  )
]
