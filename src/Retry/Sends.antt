-- ===== src/Retry/Sends.antt =====
-- How the parts of the retry middleware change the number of requests sent: only a call of the next
-- round tripper does.
use go_httpclient.Shared.{
  ℕ, suc, ◌≡◌, refl, ◌∙◌, ap, Bool, true, false, Option, none, some, arith, inl, inr, Bool-cases,
  Option-cases, count, ◌==◌,
}
use go_httpclient.Shared.Int.{ℤ, leb_ℤ, pos}
use go_httpclient.Http.Message.{Body, Response, Outcome, Context}
use go_httpclient.Http.World.{
  Event, World, Request, RoundTripper, sent, select, settle, close_body, close_request_body,
  drain_body, drain_and_close,
}
use go_httpclient.Http.World.Select.{select-events}
use go_httpclient.Timeout.{under_timeout}
use go_httpclient.Retry.{Policy, attempt, wait_backoff, pause}

abbrev is_sent : Event → Bool
is_sent sent = true
is_sent _ = false

-- How many requests have been sent.
abbrev pub sends : World → ℕ
sends w = count is_sent w.events

-- A round tripper that sends one request for each call.
abbrev pub SendsOnce : RoundTripper → Type 0
SendsOnce next = (req : Request) (w : World) → sends (next req w).1 ≡ suc (sends w)

-- A backoff strategy sends nothing.
abbrev pub IsQuiet : Policy → Type 0
IsQuiet cfg = (k : ℕ) (r : Option Response) (w : World) → sends (cfg.backoff k r w).1 ≡ sends w

sends-close_body : (b : Body) (w : World) → sends (close_body b w) ≡ sends w
unfolding close_body
sends-close_body Body.no_body w = refl
sends-close_body (Body.stream b) w = omega arith
sends-close_body (Body.cancel_body b c) w = omega (arith, sends-close_body b w)

sends-drain_body : (b : Body) (w : World) → sends (drain_body b w) ≡ sends w
unfolding drain_body
sends-drain_body Body.no_body w = refl
sends-drain_body (Body.stream b) w = omega arith
sends-drain_body (Body.cancel_body b c) w = sends-drain_body b w

pub sends-close_request_body :
    (req : Request) (w : World) → sends (close_request_body req w) ≡ sends w
unfolding close_request_body
sends-close_request_body req w = elim (Option-cases req.body) [
  | inl e ↦ rw e
  | inr (b, e) ↦ rw e (sends-close_body b w)
]

pub sends-drain_and_close :
    (r : Option Response) (w : World) → sends (drain_and_close r w) ≡ sends w
unfolding drain_and_close
sends-drain_and_close none w = refl
sends-drain_and_close (some r) w = elim (Option-cases r.body) [
  | inl e ↦ rw e
  | inr (b, e) ↦ rw e (sends-close_body b (drain_body b w) ∙ sends-drain_body b w)
]

sends-settle : (c : ℕ) (r : Outcome × World) → sends (settle c r).1 ≡ sends r.1
unfolding settle
sends-settle c r = ground arith

sends-select : (ctx : Context) (d : ℤ) (w : World) → sends (select ctx d w).1 ≡ sends w
sends-select ctx d w = ap (count is_sent) (select-events ctx d w)

pub sends-attempt :
    (cfg : Policy) (next : RoundTripper)
    → SendsOnce next
    → (req : Request) (w : World) → sends (attempt cfg next req w).1 ≡ suc (sends w)
unfolding attempt under_timeout
sends-attempt cfg next once req w = elim (Bool-cases (leb_ℤ cfg.attempt_timeout (pos 0))) [
  | inl e ↦ rw e (once req w)
  | inr e ↦ rw e (sends-settle _ _ ∙ once _ _)
]

pub sends-pause :
    (cfg : Policy) (req : Request) (k : ℕ) (prev : Option Response) (w : World)
    → IsQuiet cfg
    → sends (pause cfg req k prev w).1 ≡ sends w
unfolding pause wait_backoff
sends-pause cfg req k prev w quiet = elim (Bool-cases (k == 0)) [
  | inl e ↦ rw e
  | inr e ↦ rw e (sends-select _ _ _ ∙ quiet _ _ _)
]
