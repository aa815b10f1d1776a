-- ===== src/Http/World.antt =====
-- The world of a round trip: the clock, the breakers that pointers lead to, what the environment
-- decides, and a record of what was done. A function of the program takes the world and returns the
-- world that it leaves.
pub mod Select
pub mod Stopping
pub mod Bodies
use go_httpclient.Shared.{
  ℕ, suc, ◌+◌, Bool, true, false, Option, none, some, List, [], ◌∷◌, String, if◌then◌else◌, update,
}
use go_httpclient.Shared.Int.{ℤ, pos, ◌+ℤ◌, ltb_ℤ, leb_ℤ, min_ℤ, max_ℤ}
use go_httpclient.Http.Error.{Err}
use go_httpclient.Http.Message.{Body, Response, Outcome, Context, Header, refuse}
use go_httpclient.Breaker.{CircuitBreaker, StateTransition}

-- metrics.go: `MetricEvent`
pub record MetricEvent : Type 0 where
  pub method : String
  pub host : String
  pub path : String
  pub status_code : ℕ
  pub duration : ℤ
  pub bytes_sent : ℤ
  pub bytes_received : ℤ
  pub error : Option Err
  pub success : Bool

-- logging.go: `LogEntry`
pub record LogEntry : Type 0 where
  pub method : String
  pub url : String
  pub status_code : ℕ
  pub duration : ℤ
  pub error : Option Err

-- What can be observed from outside. The first three are the transport's: a request has left, a
-- response's body has been opened, and the transport has taken over a request's body, which it
-- closes, perhaps in a goroutine after it has returned.
pub data Event : Type 0 where
  sent : Event
  body_opened : ℕ → Event
  body_taken : ℕ → Event
  body_drained : ℕ → Event
  body_closed : ℕ → Event
  canceled : ℕ → Event
  state_changed : StateTransition → Event
  -- `OnInvalidConfig` was called for a component
  invalid_config : String → Event
  -- a `MetricsRecorder` or a `Logger` was called
  recorded : MetricEvent → Event
  logged : LogEntry → Event
  -- a nil pointer was dereferenced
  panicked : Event

pub record World : Type 0 where
  -- nanoseconds from the Unix epoch
  pub now : ℤ
  -- whether `OnInvalidConfig` is set
  pub on_invalid_config : Bool
  -- which case a `select` takes when both are ready; the context's, when the list is used up
  pub coins : List Bool
  -- the latest first
  pub events : List Event
  pub breakers : ℕ → CircuitBreaker
  -- how many random numbers have been drawn
  pub draws : ℕ
  -- the `lastBackoff` of each decorrelated strategy
  pub last_backoff : ℕ → ℤ
  -- the `retryAt` of each rate-limiting middleware
  pub retry_at : ℕ → ℤ
  -- how long the reading of each body takes, in ns
  pub read_time : ℕ → ℕ
  -- the number of the next context
  pub next_context : ℕ

abbrev pub emit : Event → World → World
emit e w = record w { events = e ∷ w.events }

-- A new body, or an error.
pub data Fetched : Type 0 where
  ok : Body → Fetched
  err : Err → Fetched

-- `http.Request`, with its URL's parts. `get_body` makes a new body and leaves the world alone.
pub record Request : Type 0 where
  pub method : String
  -- its URL as a text, with the host and the path in it
  pub url : String
  pub host : String
  pub path : String
  pub header : Header
  pub body : Option Body
  pub get_body : Option (World → Fetched)
  pub content_length : ℤ
  pub ctx : Context

abbrev pub RoundTripper : Type 0
RoundTripper = Request → World → Outcome × World

abbrev pub Middleware : Type 0
Middleware = RoundTripper → RoundTripper

-- The `CancelFunc` of a context.
unfoldable pub cancel : ℕ → World → World
cancel c w = emit (canceled c) w

-- `Close` of a body; that of timeout.go's `cancelBody` closes the body inside and then cancels.
unfoldable pub close_body : Body → World → World
unfolding cancel
close_body Body.no_body w = w
close_body (Body.stream b) w = emit (body_closed b) w
close_body (Body.cancel_body b c) w = cancel c (close_body b w)

-- Reading a body to its end, or up to a limit, which takes its time.
unfoldable pub drain_body : Body → World → World
drain_body Body.no_body w = w
drain_body (Body.stream b) w =
    emit (body_drained b) (record w { now = w.now +ℤ pos (w.read_time b) })
drain_body (Body.cancel_body b c) w = drain_body b w

-- `closeRequestBody` of middleware.go; to close `http.NoBody` does nothing either.
unfoldable pub close_request_body : Request → World → World
unfolding close_body
close_request_body req w = elim req.body [ none ↦ w | some b ↦ close_body b w ]

-- `if err := …; err != nil { closeRequestBody(req); return nil, err }`, and then the rest.
abbrev pub unless_stopped :
    Request → Option Err → World → (World → Outcome × World) → Outcome × World
unless_stopped req none w go = go w
unless_stopped req (some e) w go = (refuse e, close_request_body req w)

-- `drainAndClose` of retry.go.
unfoldable pub drain_and_close : Option Response → World → World
unfolding close_body drain_body
drain_and_close none w = w
drain_and_close (some r) w = elim r.body [ none ↦ w | some b ↦ close_body b (drain_body b w) ]

-- The earlier of two deadlines.
abbrev pub earlier : Option ℤ → ℤ → ℤ
earlier none b = b
earlier (some a) b = min_ℤ a b

-- `context.WithTimeout`: the parent's deadline stays if it is the earlier, and the parent's end is
-- the child's.
unfoldable pub with_timeout : Context → ℤ → World → Context × World
with_timeout ctx d w = (
  record ctx { id = w.next_context; deadline = some (earlier ctx.deadline (w.now +ℤ d)) },
  record w { next_context = w.next_context + 1 },
)

-- When a context is done, and its `Err` then.
unfoldable pub done : Context → Option (ℤ × Err)
done ctx = elim ctx.cancel_at [
  | none ↦ elim ctx.deadline [ none ↦ none | some d ↦ some (d, Err.deadline_exceeded) ]
  | some c ↦ elim ctx.deadline [
    | none ↦ some (c, Err.canceled)
    | some d ↦ if ltb_ℤ d c then some (d, Err.deadline_exceeded) else some (c, Err.canceled)
  ]
]

abbrev toss : Err → World → Option Err × World
toss e w = elim w.coins [
  | [] ↦ (some e, w)
  | heads ∷ rest ↦ (if heads then some e else none, record w { coins = rest })
]

-- `select` between a context's end, at `at` with `Err` `e`, and a timer that fires at `fire`.
select_at : ℤ → ℤ × Err → World → Option Err × World
select_at fire (at, e) w =
    let end = max_ℤ w.now at in
    if ltb_ℤ end fire
    then (some e, record w { now = end })
    else if ltb_ℤ fire end
    then (none, record w { now = fire })
    else toss e (record w { now = fire })

select_with : Option (ℤ × Err) → ℤ → World → Option Err × World
unfolding select_at
select_with none fire w = (none, record w { now = fire })
select_with (some end) fire w = select_at fire end w

-- A timer of duration `d`, and `select` between it and the context: `none` if the timer fired, else
-- the context's `Err`.
unfoldable pub select : Context → ℤ → World → Option Err × World
unfolding select_with
select ctx d w = select_with (done ctx) (max_ℤ w.now (w.now +ℤ d)) w

-- What timeout.go, retry.go and request.go do behind a call made under a new context: cancel it at
-- once if the call failed or has no body, else leave that to the `Close` of the body. Where there
-- is no error and no response either, the code dereferences nil.
unfoldable pub settle : ℕ → Outcome × World → Outcome × World
unfolding cancel
settle c (o, w) = elim o.err [
  | some e ↦ (o, cancel c w)
  | none ↦ elim o.resp [
    | none ↦ (o, emit panicked w)
    | some r ↦ elim r.body [
      | none ↦ (o, cancel c w)
      | some b ↦ (record o { resp = some (record r { body = some (Body.cancel_body b c) }) }, w)
    ]
  ]
]
