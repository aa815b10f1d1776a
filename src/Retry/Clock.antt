-- ===== src/Retry/Clock.antt =====
-- How far the clock moves while a response's body is read and closed, and what that leaves
-- (retry.go, `drainAndClose`).
use go_httpclient.Shared.{
  ℕ, ◌+◌, subst, sym, ◌≤◌, ◌≡◌, refl, Option, none, some, arith, inl, inr, Option-cases,
}
use go_httpclient.Shared.Int.{ℤ, pos, ◌≤ℤ◌, ◌+ℤ◌, max_ℤ, +ℤ_parts}
use go_httpclient.Http.Error.{Err}
use go_httpclient.Http.Message.{Body, Response, Outcome, Context}
use go_httpclient.Http.World.{
  World, Request, close_body, drain_body, close_request_body, drain_and_close, settle, select,
  unless_stopped,
}
use go_httpclient.Retry.{Prepared, ready, failed, if_ready}

-- The clock of the second world is at most `d` ns past that of the first.
abbrev pub Within : ℕ → World → World → Type 0
Within d w v = v.now ≤ℤ w.now +ℤ pos d

within_sum : (a b c : ℤ) (d e : ℕ) → b ≤ℤ a +ℤ pos d → c ≤ℤ b +ℤ pos e → c ≤ℤ a +ℤ pos (d + e)
within_sum a b c d e h k =
    omega (arith, +ℤ_parts a (pos d), +ℤ_parts b (pos e), +ℤ_parts a (pos (d + e)))

pub within_self : (a : ℤ) (d : ℕ) → a ≤ℤ a +ℤ pos d
within_self a d = omega (arith, +ℤ_parts a (pos d))

pub timer_end :
    (a d end : ℤ) (wait : ℕ) → d ≤ℤ pos wait → end ≤ℤ max_ℤ a (a +ℤ d) → end ≤ℤ a +ℤ pos wait
timer_end a d end wait h k = ground (arith, +ℤ_parts a d, +ℤ_parts a (pos wait))

within_more : (a b : ℤ) (d e : ℕ) → b ≤ℤ a +ℤ pos d → d ≤ e → b ≤ℤ a +ℤ pos e
within_more a b d e h k = omega (arith, +ℤ_parts a (pos d), +ℤ_parts a (pos e))

-- Reading a body takes at most `read` ns.
abbrev pub IsReadable : ℕ → World → Type 0
IsReadable read w = (b : ℕ) → w.read_time b ≤ read

-- From the first world to the second at most `d` ns pass, and bodies can still be read so fast.
pub record Takes (read d : ℕ) (w v : World) : Type 0 where
  pub within : Within d w v
  pub still : IsReadable read v

-- The two worlds have the same time, and the same times to read bodies.
abbrev pub SameTimes : World → World → Type 0
SameTimes w v = (v.now ≡ w.now) × (v.read_time ≡ w.read_time)

SameTimes-close_body : (b : Body) (w : World) → SameTimes w (close_body b w)
unfolding close_body
SameTimes-close_body Body.no_body w = (refl, refl)
SameTimes-close_body (Body.stream b) w = (refl, refl)
SameTimes-close_body (Body.cancel_body b c) w = SameTimes-close_body b w

SameTimes-close_request_body : (req : Request) (w : World) → SameTimes w (close_request_body req w)
unfolding close_request_body
SameTimes-close_request_body req w = elim (Option-cases req.body) [
  | inl e ↦ rw e (refl, refl)
  | inr (b, e) ↦ rw e (SameTimes-close_body b w)
]

pub SameTimes-settle : (c : ℕ) (r : Outcome × World) → SameTimes r.1 (settle c r).1
unfolding settle
SameTimes-settle c r = (ground arith, ground arith)

pub SameTimes-select :
    (ctx : Context) (d : ℤ) (w : World) → (select ctx d w).1.read_time ≡ w.read_time
unfolding select
SameTimes-select ctx d w = ground arith

pub Takes-same : (read d : ℕ) (w v u : World) → SameTimes v u → Takes read d w v → Takes read d w u
Takes-same read d w v u same h = record {
  within = subst (λ at. at ≤ℤ w.now +ℤ pos d) (sym same.0) h.within;
  still = λ b. subst (λ times. times b ≤ read) (sym same.1) (h.still b);
}

pub Takes-none : (read d : ℕ) (w : World) → IsReadable read w → Takes read d w w
Takes-none read d w readable = record { within = within_self w.now d; still = readable }

pub Takes-then :
    (read d e : ℕ) (w v u : World) → Takes read d w v → Takes read e v u → Takes read (d + e) w u
Takes-then read d e w v u h k = record {
  within = within_sum w.now v.now u.now d e h.within k.within;
  still = k.still;
}

pub Takes-more : (read d e : ℕ) (w v : World) → Takes read d w v → d ≤ e → Takes read e w v
Takes-more read d e w v h more = record {
  within = within_more w.now v.now d e h.within more;
  still = h.still;
}

Takes-drain_body :
    (read : ℕ) (b : Body) (w : World) → IsReadable read w → Takes read read w (drain_body b w)
unfolding drain_body
Takes-drain_body read Body.no_body w readable = Takes-none read read w readable
Takes-drain_body read (Body.stream b) w readable = record {
  within = within_more w.now _ (w.read_time b) read (omega arith) (readable b);
  still = readable;
}
Takes-drain_body read (Body.cancel_body b c) w readable = Takes-drain_body read b w readable

pub Takes-drain_and_close :
    (read : ℕ) (r : Option Response) (w : World)
    → IsReadable read w
    → Takes read read w (drain_and_close r w)
unfolding drain_and_close
Takes-drain_and_close read none w readable = Takes-none read read w readable
Takes-drain_and_close read (some r) w readable = elim (Option-cases r.body) [
  | inl e ↦ rw e (Takes-none read read w readable)
  | inr (b, e) ↦ rw e (
      Takes-same read read w (drain_body b w) _ (SameTimes-close_body b (drain_body b w))
        (Takes-drain_body read b w readable))
]

pub Takes-unless_stopped :
    (read : ℕ) (req : Request) (o : Option Err) (v : World) (go : World → Outcome × World) (d : ℕ)
    → IsReadable read v
    → Takes read d v (go v).1
    → Takes read d v (unless_stopped req o v go).1
Takes-unless_stopped read req none v go d readable h = h
Takes-unless_stopped read req (some e) v go d readable h =
    Takes-same read d v v _ (SameTimes-close_request_body req v) (Takes-none read d v readable)

pub Takes-if_ready :
    (read : ℕ) (req : Request) (p : Prepared) (v : World) (go : Request → World → Outcome × World)
    (d : ℕ)
    → IsReadable read v
    → ((req' : Request) → Takes read d v (go req' v).1)
    → Takes read d v (if_ready req p v go).1
Takes-if_ready read req (ready req') v go d readable h = h req'
Takes-if_ready read req (failed e) v go d readable h =
    Takes-same read d v v _ (SameTimes-close_request_body req v) (Takes-none read d v readable)
