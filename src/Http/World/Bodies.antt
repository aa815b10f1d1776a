-- ===== src/Http/World/Bodies.antt =====
-- Which bodies have been closed: what `Close` on a body, on a request's and on a response's does to
-- the record of events (middleware.go, timeout.go, retry.go).
use go_httpclient.Shared.{
  ℕ, ◌≡◌, refl, ◌∙◌, Bool, true, false, ◌||◌, Option, none, some, List, [], ◌∷◌, arith, inl, inr,
  Option-cases, ◌==◌, ==_refl,
}
use go_httpclient.Shared.Int.{ℤ}
use go_httpclient.Http.Message.{Body, Response, Outcome, Context}
use go_httpclient.Http.World.{
  Event, World, Request, body_closed, body_opened, body_taken, close_body, drain_body,
  close_request_body, drain_and_close, settle, select,
}
use go_httpclient.Http.World.Select.{select-events}

-- The stream that a body reads, behind any number of `cancelBody` wrappers.
abbrev pub stream_of : Body → Option ℕ
stream_of Body.no_body = none
stream_of (Body.stream b) = some b
stream_of (Body.cancel_body x c) = stream_of x

-- What may be known of a stream: that it has been closed; and that nobody else need close it, for
-- it has been closed or the transport has taken it over.
pub data Mark : Type 0 where
  closing : ℕ → Mark
  releasing : ℕ → Mark

abbrev marked_stream : Mark → ℕ
marked_stream (closing b) = b
marked_stream (releasing b) = b

-- Whether the transport's taking over a stream is enough.
abbrev takes : Mark → ℕ → Bool
takes (closing b) c = false
takes (releasing b) c = b == c

abbrev pub is_marked : Mark → List Event → Bool
is_marked k [] = false
is_marked k (body_closed c ∷ es) = marked_stream k == c || is_marked k es
is_marked k (body_taken c ∷ es) = takes k c || is_marked k es
is_marked k (_ ∷ es) = is_marked k es

-- The stream has been closed.
abbrev pub IsClosed : ℕ → World → Type 0
IsClosed b w = is_marked (closing b) w.events ≡ true

-- The stream has been closed, or is the transport's to close.
abbrev pub IsReleased : ℕ → World → Type 0
IsReleased b w = is_marked (releasing b) w.events ≡ true

-- What was closed or released in the first world is so in the second.
abbrev pub Keeps : World → World → Type 0
Keeps w v = (k : Mark) → is_marked k w.events ≡ true → is_marked k v.events ≡ true

pub Keeps-close_body : (x : Body) (w : World) → Keeps w (close_body x w)
unfolding close_body
Keeps-close_body Body.no_body w b h = h
Keeps-close_body (Body.stream c) w b h = ground arith
Keeps-close_body (Body.cancel_body x c) w b h = Keeps-close_body x w b h

pub close_body-IsReleased :
    (x : Body) (b : ℕ) (w : World) → stream_of x ≡ some b → IsReleased b (close_body x w)
unfolding close_body
close_body-IsReleased Body.no_body b w h = ground arith
close_body-IsReleased (Body.stream c) b w h = ground (arith, ==_refl b)
close_body-IsReleased (Body.cancel_body x c) b w h = close_body-IsReleased x b w h

pub close_body-IsClosed :
    (x : Body) (b : ℕ) (w : World) → stream_of x ≡ some b → IsClosed b (close_body x w)
unfolding close_body
close_body-IsClosed Body.no_body b w h = ground arith
close_body-IsClosed (Body.stream c) b w h = ground (arith, ==_refl b)
close_body-IsClosed (Body.cancel_body x c) b w h = close_body-IsClosed x b w h

pub Keeps-drain_body : (x : Body) (w : World) → Keeps w (drain_body x w)
unfolding drain_body
Keeps-drain_body Body.no_body w b h = h
Keeps-drain_body (Body.stream c) w b h = h
Keeps-drain_body (Body.cancel_body x c) w b h = Keeps-drain_body x w b h

pub Keeps-close_request_body : (req : Request) (w : World) → Keeps w (close_request_body req w)
unfolding close_request_body
Keeps-close_request_body req w b h = elim (Option-cases req.body) [
  | inl e ↦ rw e h
  | inr (x, e) ↦ rw e (Keeps-close_body x w b h)
]

pub close_request_body-IsReleased :
    (req : Request) (x : Body) (b : ℕ) (w : World)
    → req.body ≡ some x
    → stream_of x ≡ some b
    → IsReleased b (close_request_body req w)
unfolding close_request_body
close_request_body-IsReleased req x b w e h = rw e (close_body-IsReleased x b w h)

pub Keeps-drain_and_close : (r : Option Response) (w : World) → Keeps w (drain_and_close r w)
unfolding drain_and_close
Keeps-drain_and_close none w b h = h
Keeps-drain_and_close (some r) w b h = elim (Option-cases r.body) [
  | inl e ↦ rw e h
  | inr (x, e) ↦ rw e (Keeps-close_body x _ b (Keeps-drain_body x w b h))
]

pub drain_and_close-IsClosed :
    (r : Response) (x : Body) (b : ℕ) (w : World)
    → r.body ≡ some x
    → stream_of x ≡ some b
    → IsClosed b (drain_and_close (some r) w)
unfolding drain_and_close
drain_and_close-IsClosed r x b w e h = rw e (close_body-IsClosed x b _ h)

pub Keeps-settle : (c : ℕ) (r : Outcome × World) → Keeps r.1 (settle c r).1
unfolding settle
Keeps-settle c r b h = ground arith

pub Keeps-select : (ctx : Context) (d : ℤ) (w : World) → Keeps w (select ctx d w).1
Keeps-select ctx d w b h = rw select-events h

-- The stream of the response's body that an outcome carries.
abbrev pub carried_by : Option Response → Option ℕ
carried_by none = none
carried_by (some r) = elim r.body [ none ↦ none | some x ↦ stream_of x ]

abbrev pub is_opened : ℕ → List Event → Bool
is_opened b [] = false
is_opened b (body_opened c ∷ es) = b == c || is_opened b es
is_opened b (_ ∷ es) = is_opened b es

-- No response's body was opened between the first world and the second.
abbrev pub OpensNone : World → World → Type 0
OpensNone w v = (b : ℕ) → is_opened b v.events ≡ is_opened b w.events

pub OpensNone-close_body : (x : Body) (w : World) → OpensNone w (close_body x w)
unfolding close_body
OpensNone-close_body Body.no_body w b = refl
OpensNone-close_body (Body.stream c) w b = refl
OpensNone-close_body (Body.cancel_body x c) w b = OpensNone-close_body x w b

pub OpensNone-drain_body : (x : Body) (w : World) → OpensNone w (drain_body x w)
unfolding drain_body
OpensNone-drain_body Body.no_body w b = refl
OpensNone-drain_body (Body.stream c) w b = refl
OpensNone-drain_body (Body.cancel_body x c) w b = OpensNone-drain_body x w b

pub OpensNone-close_request_body :
    (req : Request) (w : World) → OpensNone w (close_request_body req w)
unfolding close_request_body
OpensNone-close_request_body req w b = elim (Option-cases req.body) [
  | inl e ↦ rw e
  | inr (x, e) ↦ rw e (OpensNone-close_body x w b)
]

pub OpensNone-drain_and_close :
    (r : Option Response) (w : World) → OpensNone w (drain_and_close r w)
unfolding drain_and_close
OpensNone-drain_and_close none w b = refl
OpensNone-drain_and_close (some r) w b = elim (Option-cases r.body) [
  | inl e ↦ rw e
  | inr (x, e) ↦ rw e (OpensNone-close_body x _ b ∙ OpensNone-drain_body x w b)
]

pub OpensNone-settle : (c : ℕ) (r : Outcome × World) → OpensNone r.1 (settle c r).1
unfolding settle
OpensNone-settle c r b = ground arith

pub OpensNone-select : (ctx : Context) (d : ℤ) (w : World) → OpensNone w (select ctx d w).1
OpensNone-select ctx d w b = rw select-events

pub carried_by-settle :
    (c : ℕ) (r : Outcome × World) → carried_by (settle c r).0.resp ≡ carried_by r.0.resp
unfolding settle
carried_by-settle c r = ground arith

pub none-ne-some : (b : ℕ) → ¬ (none ≡ some b)
none-ne-some b h = ground arith

-- What a response carries is closed by drainAndClose.
pub drained-IsClosed :
    (r : Option Response) (b : ℕ) (w : World)
    → carried_by r ≡ some b
    → IsClosed b (drain_and_close r w)
drained-IsClosed none b w h = ground arith
drained-IsClosed (some r) b w h = elim (Option-cases r.body) [
  | inl e ↦ absurd (none-ne-some b (rw e at h))
  | inr (x, e) ↦ drain_and_close-IsClosed r x b w e (rw e at h)
]
