-- ===== src/Examples/Composing.antt =====
-- The properties of clients of several layers, at a client and at an outage.
use go_httpclient.Shared.{
  ℕ, ◌+◌, ◌*◌, ◌≤◌, ◌<◌, ◌≡◌, refl, sym, ap, ◌∙◌, ◌==◌, ◌||◌, ◌⊎◌, arith, Bool, true, false, some,
  none, Option, Option-cases, ==_refl, List, [], ◌∷◌, inl, inr, Bool-cases, if◌then◌else◌,
}
use go_httpclient.Shared.Int.{pos, leb_ℤ, ◌≤ℤ◌, ◌+ℤ◌, +ℤ_parts}
use go_httpclient.Http.Error.{Err, Errno}
use go_httpclient.Http.Message.{get, Body, answer, refuse}
use go_httpclient.Http.World.{
  invalid_config, drain_and_close, select, settle, with_timeout, World, RoundTripper, emit, sent,
  body_opened, body_taken, close_request_body, done,
}
use go_httpclient.Http.World.Bodies.{
  is_opened, stream_of, IsReleased, Keeps, Keeps-close_request_body, close_request_body-IsReleased,
  OpensNone-close_request_body,
}
use go_httpclient.ErrorClass.Classify.{kind_of, kind_is_retryable}
use go_httpclient.Breaker.{
  apply_result, apply_verdict, try_admit, CircuitBreaker, new_circuit_breaker, with_defaults,
  default_is_failure,
}
use go_httpclient.Breaker.RoundTrip.{
  publish, record_result, allow_request, round_trip as break_circuit,
}
use go_httpclient.Timeout.{under_timeout, round_trip as bound_time}
use go_httpclient.RateLimit.{note_value, note_retry_after, acquire, await_window, RateLimiter}
use go_httpclient.Backoff.{constant_backoff}
use go_httpclient.Backoff.Jitter.{decorrelated_jitter_backoff, jitter_bounds}
use go_httpclient.Retry.{
  Policy, wait_backoff, is_retryable_status, attempt, default_is_retryable, try_once,
  prepare_request, pause, one_round, loop, can_retry, round_trip, is_idempotent,
}
use go_httpclient.Retry.Sends.{sends}
use go_httpclient.Retry.Duration.{IsTimely, IsModest, retry_duration}
use go_httpclient.Retry.Budget.{IsPatient, AgreeUntil, total_budget}
use go_httpclient.Retry.Cutoff.{outage_cuts_retries}
use go_httpclient.Retry.Cutoff.Failing.{IsDown}
use go_httpclient.Retry.Cutoff.Rounds.{IsBrisk}
use go_httpclient.Diagnostics.Reports.{Part, make_all, reports, inert_parts_reported}
use go_httpclient.Client.{
  new, chain, chain_loop, apply_options, apply_option, apply_at, default_config,
}
use go_httpclient.Contract.{Honors, Releases, Account, before, returned, IsOpenHanded, KeepsBodies}
use go_httpclient.Contract.Chain.{
  Layer, AllFair, client_of, client_closes_bodies, no_response_leaks,
}
use go_httpclient.Examples.{
  billionths, world, world_at, small_config, request, posting, busy, failing, busy_response,
  no_date,
}
use go_httpclient.Examples.Retrying.{three_times}

-- A transport that closes the request's body, and opens the one of its answer.
abbrev pub attentive : ℕ → RoundTripper
attentive status req w = (
  answer (record busy_response { status_code = status }),
  emit (body_opened 5) (emit sent (close_request_body req w)),
)

pub attentive-Honors : (status : ℕ) → Honors (attentive status)
attentive-Honors status = record {
  closes = λ req x b w e s. close_request_body-IsReleased req x b w e s;
  keeps = λ req w b h. Keeps-close_request_body req w b h;
}

opened_by_answer :
    (b : ℕ) (earlier : Bool) → ((b == 5) || earlier) ≡ true → (b ≡ 5) ⊎ (earlier ≡ true)
opened_by_answer b earlier h = ground arith

pub attentive-Releases : (status : ℕ) → Releases (attentive status)
attentive-Releases status req w b h =
    elim (opened_by_answer b (is_opened b (close_request_body req w).events) h) [
      | inl same ↦ returned (ap some (sym same))
      | inr earlier ↦ before (sym (OpensNone-close_request_body req w b) ∙ earlier)
    ]

-- A limiter that always has a token.
abbrev pub free : RateLimiter
free = record { wait_context = λ c w. (none, w); try_acquire = λ w. (true, w) }

free-IsOpenHanded : IsOpenHanded free
free-IsOpenHanded = record {
  waits = λ c w b h. h;
  tries = λ w b h. h;
  waits_shut = λ c w b. refl;
  tries_shut = λ w b. refl;
}

three_times-KeepsBodies : KeepsBodies three_times
unfolding constant_backoff
three_times-KeepsBodies = record { keeps = λ k r w b h. h; shut = λ k r w b. refl }

abbrev pub layers : List Layer
layers =
    Layer.timed (pos 1000)
    ∷ Layer.retrying three_times
    ∷ Layer.breaking 0
    ∷ Layer.limiting no_date free false true 0
    ∷ []

layers-AllFair : AllFair layers
layers-AllFair = (tt, ((three_times-KeepsBodies, omega arith), (tt, (free-IsOpenHanded, tt))))

-- A transport that takes the request's body over and closes it after it has returned.
abbrev take_over : Option Body → World → World
take_over none w = w
take_over (some x) w = elim (stream_of x) [ none ↦ w | some b ↦ emit (body_taken b) w ]

abbrev leisurely : RoundTripper
leisurely req w = (answer busy_response, emit sent (take_over req.body w))

Keeps-take_over : (x : Option Body) (w : World) → Keeps w (take_over x w)
Keeps-take_over none w k h = h
Keeps-take_over (some x) w k h = elim (Option-cases (stream_of x)) [
  | inl e ↦ rw (take_over, e) h
  | inr (b, e) ↦ rw (take_over, e) (ground arith)
]

take_over-IsReleased :
    (x : Body) (b : ℕ) (w : World) → stream_of x ≡ some b → IsReleased b (take_over (some x) w)
take_over-IsReleased x b w e = rw (take_over, e) (ground (arith, ==_refl b))

leisurely-Honors : Honors leisurely
leisurely-Honors = record {
  closes = λ req x b w e s. rw e (take_over-IsReleased x b w s);
  keeps = λ req w. Keeps-take_over req.body w;
}

client_closes_bodies_example : IsReleased 7 (client_of leisurely layers posting world).1
client_closes_bodies_example =
    client_closes_bodies leisurely layers posting (Body.stream 7) 7 world layers-AllFair
      leisurely-Honors refl refl

five_open : is_opened 5 (client_of (attentive 503) layers request world).1.events ≡ true
unfolding bound_time under_timeout with_timeout settle round_trip can_retry constant_backoff
    is_idempotent loop one_round pause prepare_request try_once default_is_retryable attempt
    is_retryable_status wait_backoff select done drain_and_close break_circuit allow_request
    record_result publish try_admit apply_verdict apply_result new_circuit_breaker with_defaults
    go_httpclient.RateLimit.round_trip await_window acquire note_retry_after new chain chain_loop
    apply_options apply_option close_request_body note_value get apply_at default_config
    default_is_failure ◌+ℤ◌ kind_is_retryable
five_open = refl

no_response_leaks_example : Account world (client_of (attentive 503) layers request world) 5
no_response_leaks_example =
    no_response_leaks (attentive 503) layers request 5 world layers-AllFair (attentive-Honors 503)
      (attentive-Releases 503) five_open

-- The same transport as `busy` until time 50, and a failing one from then on.
abbrev soon_failing : RoundTripper
soon_failing req w = if leb_ℤ w.now (pos 50) then busy req w else failing req w

soon_failing-AgreeUntil : AgreeUntil (pos 50) busy soon_failing
soon_failing-AgreeUntil req w early = elim (Bool-cases (leb_ℤ w.now (pos 50))) [
  | inl e ↦ rw e refl
  | inr e ↦ absurd (ground arith)
]

three_times-IsPatient : IsPatient three_times
unfolding constant_backoff
three_times-IsPatient k r w = (omega arith, refl)

total_budget_example :
    bound_time (pos 30) (round_trip three_times busy) request world
    ≡ bound_time (pos 30) (round_trip three_times soon_failing) request world
unfolding ◌+ℤ◌
total_budget_example =
    total_budget (pos 30) three_times busy soon_failing request world (omega arith) (omega arith)
      three_times-IsPatient soon_failing-AgreeUntil

-- An outage, and a breaker that opens at the second failure.
abbrev refused_by_host : Err
refused_by_host = Err.errno Errno.econnrefused

abbrev down : RoundTripper
down req w = (refuse refused_by_host, emit sent w)

abbrev second_failure : CircuitBreaker
second_failure = new_circuit_breaker (record small_config { failure_threshold = pos 2 })

abbrev outage : World
outage = world_at (pos 20) second_failure

down-IsDown : IsDown 0 down refused_by_host
down-IsDown = record { fails = λ req w. refl; sent = λ req w. omega arith; apart = λ req w. refl }

-- The default policy's number of attempts, with random waits from a strategy that keeps a state.
abbrev jittered : Policy
jittered = record three_times {
  backoff = decorrelated_jitter_backoff billionths (λ n. 0) 0 (pos 50) (pos 80);
}

jittered-IsBrisk : IsBrisk jittered (pos 100)
unfolding decorrelated_jitter_backoff
jittered-IsBrisk = record {
  unbounded = refl;
  predicate = refl;
  lasting = omega arith;
  brief = λ k r w.
      let bounds =
        jitter_bounds billionths (λ n. 0) (constant_backoff (pos 50)) 1 0 (pos 50) (pos 80) k r w in
      omega (arith, bounds.1 (omega arith));
  prompt = λ k r w. elim (Bool-cases (k == 0)) [ inl e ↦ rw e refl | inr e ↦ rw e refl ];
  quiet = λ k r w. elim (Bool-cases (k == 0)) [ inl e ↦ rw e refl | inr e ↦ rw e refl ];
  apart = λ k r w. elim (Bool-cases (k == 0)) [ inl e ↦ rw e refl | inr e ↦ rw e refl ];
}

outage_cuts_retries_example :
    let out = round_trip jittered (break_circuit 0 down) request outage in
    (3 ≤ 2 → (sends out.1 ≡ sends outage + 3) × (out.0 ≡ refuse refused_by_host))
    × (2 < 3 → (sends out.1 ≡ sends outage + 2) × (out.0 ≡ refuse Err.circuit_open))
unfolding kind_of kind_is_retryable can_retry is_idempotent done new_circuit_breaker with_defaults
    default_is_failure
outage_cuts_retries_example =
    outage_cuts_retries jittered 0 down refused_by_host request outage 1 down-IsDown refl refl refl
      refl (omega arith) refl refl refl jittered-IsBrisk

-- A client without a limiter and with a timeout of 0, around a timeout of 30 ns.
abbrev parts : List Part
parts =
    Part.rate_limit_of (record { limiter = none; wait_on_limit = true; respect_retry_after = true })
      0
    ∷ Part.timeout_of (pos 30)
    ∷ Part.timeout_of (pos 0)
    ∷ []

inert_parts_reported_example :
    ((make_all no_date parts world).1.events
      ≡ invalid_config "Timeout" ∷ invalid_config "RateLimit" ∷ [])
    × (chain busy (make_all no_date parts world).0
        ≡ chain busy (make_all no_date (Part.timeout_of (pos 30) ∷ []) world).0)
    × (reports (Part.timeout_of (pos 30) ∷ []) [] ≡ [])
inert_parts_reported_example = inert_parts_reported no_date busy parts world world

-- A world in which reading a body takes 7 ns.
abbrev slow_world : World
slow_world = record world { read_time = λ b. 7 }

-- `busy` takes no time.
busy-IsTimely : IsTimely 7 5 busy
busy-IsTimely req w readable = record {
  within = omega (arith, +ℤ_parts w.now (pos 5));
  still = readable;
}

three_times-IsModest : IsModest 50 three_times
unfolding constant_backoff
three_times-IsModest k r w = (omega arith, refl, refl)

retry_duration_example :
    (round_trip three_times busy request slow_world).1.now ≤ℤ pos 20 +ℤ pos (3 * (5 + 7) + 2 * 50)
retry_duration_example =
    retry_duration three_times busy 7 5 50 busy-IsTimely three_times-IsModest 2 request slow_world
      refl (λ b. omega arith)
