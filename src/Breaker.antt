-- ===== src/Breaker.antt =====
-- circuitbreaker.go: the state machine under the breaker's mutex. Each operation here is a locked
-- section, so what concurrent requests do to a breaker is a sequence of calls of these operations.
-- The counters are ints that stay at most the setting they are compared with, so `++` on them does
-- not wrap; `generation` is a uint64 and wraps. The switches' default branches serve states other
-- than the three constants, which nothing assigns.
pub mod Invariant
pub mod Concurrent
pub mod Transitions
pub mod Recovery
pub mod RoundTrip
pub mod Trips
use go_httpclient.Shared.{
  ℕ, suc, ◌+◌, ◌-◌, ◌*◌, ◌%◌, ◌^◌, Bool, true, false, not, Option, none, some, String, ltb, leb,
  ◌==◌, if◌then◌else◌,
}
use go_httpclient.Shared.Int.{ℤ, pos, negsuc, pos_part, ◌-ℤ◌, leb_ℤ, sat64}
use go_httpclient.Http.Error.{Err}
use go_httpclient.Http.Message.{Response, Outcome}
use go_httpclient.ErrorClass.Classify.{kind_of, is_kind_canceled}

pub data CircuitState : Type 0 where
  closed opened half_open : CircuitState

-- `CircuitState.String`
unfoldable pub state_string : CircuitState → String
state_string closed = "closed"
state_string opened = "open"
state_string half_open = "half-open"

-- `CircuitBreakerConfig`, as the caller writes it. Of `OnStateChange` only whether it is set
-- matters here: its calls are recorded by the world.
pub record CircuitBreakerConfig : Type 0 where
  pub failure_threshold : ℤ
  pub reset_timeout : ℤ
  pub is_failure : Option (Outcome → Bool)
  pub max_half_open_requests : ℤ
  pub success_threshold : ℤ
  pub on_state_change : Bool

-- The same with the defaults applied: the ints are positive.
pub record Settings : Type 0 where
  pub failure_threshold : ℕ
  pub reset_timeout : ℤ
  pub is_failure : Outcome → Bool
  pub max_half_open_requests : ℕ
  pub success_threshold : ℕ
  pub on_state_change : Bool

pub record CircuitBreaker : Type 0 where
  pub cfg : Settings
  pub state : CircuitState
  pub generation : ℕ
  pub failures : ℕ
  pub last_failure_time : ℤ
  pub half_open_in_flight : ℕ
  pub half_open_success : ℕ

pub record StateTransition : Type 0 where
  pub from : CircuitState
  pub to : CircuitState

-- `resp != nil && resp.StatusCode >= 500`
abbrev pub is_server_error : Option Response → Bool
is_server_error none = false
is_server_error (some r) = leb 500 r.status_code

-- `DefaultIsFailure`
unfoldable pub default_is_failure : Outcome → Bool
unfolding kind_of
default_is_failure o = elim o.err [
  | some e ↦ not (is_kind_canceled (kind_of e))
  | none ↦ is_server_error o.resp
]

-- `time.Time{}`, 1 January of year 1, in nanoseconds from the Unix epoch.
abbrev pub zero_time : ℤ
zero_time = negsuc (62_135_596_800 * 1_000_000_000 - 1)

abbrev pub second : ℕ
second = 1_000_000_000

-- `if n <= 0 { n = d }`
abbrev pub positive_or : ℤ → ℕ → ℕ
positive_or n d = if leb_ℤ n (pos 0) then d else pos_part n

abbrev is_failure_or : Option (Outcome → Bool) → (Outcome → Bool) → Outcome → Bool
is_failure_or none d = d
is_failure_or (some f) d = f

unfoldable pub with_defaults : CircuitBreakerConfig → Settings
unfolding default_is_failure
with_defaults cfg = record {
  failure_threshold = positive_or cfg.failure_threshold 5;
  reset_timeout = pos (positive_or cfg.reset_timeout (30 * second));
  is_failure = is_failure_or cfg.is_failure default_is_failure;
  max_half_open_requests = positive_or cfg.max_half_open_requests 1;
  success_threshold = positive_or cfg.success_threshold 1;
  on_state_change = cfg.on_state_change;
}

-- `newCircuitBreaker`
unfoldable pub new_circuit_breaker : CircuitBreakerConfig → CircuitBreaker
unfolding with_defaults
new_circuit_breaker cfg = record {
  cfg = with_defaults cfg;
  state = closed;
  generation = 0;
  failures = 0;
  last_failure_time = zero_time;
  half_open_in_flight = 0;
  half_open_success = 0;
}

-- `setState`: the transition, if somebody listens, and the new breaker.
unfoldable pub set_state : CircuitState → CircuitBreaker → Option StateTransition × CircuitBreaker
set_state to cb = (
  if cb.cfg.on_state_change then some (record { from = cb.state; to = to }) else none,
  record cb { state = to; generation = (cb.generation + 1) % 2 ^ 64 },
)

-- What `tryAdmit` returns.
pub record Admission : Type 0 where
  pub admitted : Bool
  pub gen : ℕ
  pub transition : Option StateTransition

abbrev decide_admission : Bool → CircuitBreaker → Admission
decide_admission b cb = record { admitted = b; gen = cb.generation; transition = none }

admit_open : ℤ → CircuitBreaker → Admission × CircuitBreaker
unfolding set_state sat64 ◌-ℤ◌
admit_open now cb =
    if leb_ℤ cb.cfg.reset_timeout (sat64 (now -ℤ cb.last_failure_time))
    then (let (t, cb') = set_state half_open cb in
        let cb'' = record cb' { half_open_success = 0; half_open_in_flight = 1 } in
        (record { admitted = true; gen = cb''.generation; transition = t }, cb''))
    else (decide_admission false cb, cb)

admit_half_open : CircuitBreaker → Admission × CircuitBreaker
admit_half_open cb =
    if ltb cb.half_open_in_flight cb.cfg.max_half_open_requests
    then (decide_admission true cb, record cb { half_open_in_flight = cb.half_open_in_flight + 1 })
    else (decide_admission false cb, cb)

admit_in : CircuitState → ℤ → CircuitBreaker → Admission × CircuitBreaker
unfolding admit_open admit_half_open
admit_in closed now cb = (decide_admission true cb, cb)
admit_in opened now cb = admit_open now cb
admit_in half_open now cb = admit_half_open cb

-- `tryAdmit` at a reading of the clock.
unfoldable pub try_admit : ℤ → CircuitBreaker → Admission × CircuitBreaker
unfolding admit_in
try_admit now cb = admit_in cb.state now cb

-- `recordClosedResult`
unfoldable pub record_closed_result :
    ℤ → Bool → CircuitBreaker → Option StateTransition × CircuitBreaker
unfolding set_state
record_closed_result now is_failure cb =
    if is_failure
    then (let cb' = record cb { failures = cb.failures + 1; last_failure_time = now } in
        if leb cb.cfg.failure_threshold cb'.failures then set_state opened cb' else (none, cb'))
    else (none, record cb { failures = 0 })

-- `recordHalfOpenResult`; `-` stops at 0 as its test does.
unfoldable pub record_half_open_result :
    ℤ → Bool → CircuitBreaker → Option StateTransition × CircuitBreaker
unfolding set_state
record_half_open_result now is_failure cb =
    let landed = record cb { half_open_in_flight = cb.half_open_in_flight - 1 } in
    if is_failure
    then (let (t, cb') = set_state opened landed in
        (
          t,
          record cb' {
            last_failure_time = now;
            failures = cb.cfg.failure_threshold;
            half_open_success = 0;
            half_open_in_flight = 0;
          },
        ))
    else (let counted = record landed { half_open_success = landed.half_open_success + 1 } in
        if ltb counted.half_open_success cb.cfg.success_threshold
        then (none, counted)
        else (let (t, cb') = set_state closed counted in
            (t, record cb' { failures = 0; half_open_success = 0; half_open_in_flight = 0 })))

record_in : CircuitState → ℤ → Bool → CircuitBreaker → Option StateTransition × CircuitBreaker
unfolding record_closed_result record_half_open_result
record_in closed now is_failure cb = record_closed_result now is_failure cb
record_in half_open now is_failure cb = record_half_open_result now is_failure cb
record_in opened now is_failure cb = (none, cb)

-- The locked section of `applyResult`: a verdict on a request that was admitted under `gen`.
unfoldable pub apply_verdict :
    ℤ → Bool → ℕ → CircuitBreaker → Option StateTransition × CircuitBreaker
unfolding record_in
apply_verdict now is_failure gen cb =
    if gen == cb.generation then record_in cb.state now is_failure cb else (none, cb)

-- `applyResult`
unfoldable pub apply_result :
    ℤ → Outcome → ℕ → CircuitBreaker → Option StateTransition × CircuitBreaker
apply_result now o gen cb = apply_verdict now (cb.cfg.is_failure o) gen cb
