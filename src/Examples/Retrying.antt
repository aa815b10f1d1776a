-- ===== src/Examples/Retrying.antt =====
-- The properties of the retry middleware, at policies.
use go_httpclient.Shared.{suc, ◌≡◌, refl, arith, true, false, some, none}
use go_httpclient.Shared.Int.{pos, ◌≤ℤ◌, ◌<ℤ◌, ◌-ℤ◌, sat64}
use go_httpclient.Http.Error.{Err}
use go_httpclient.Http.Message.{Outcome, refuse}
use go_httpclient.Http.World.{Request, done, close_request_body, select, drain_and_close}
use go_httpclient.ErrorClass.Wrapping.{Wraps}
use go_httpclient.Breaker.{
  opened, default_is_failure, with_defaults, new_circuit_breaker, apply_verdict,
}
use go_httpclient.Breaker.RoundTrip.{round_trip as break_circuit}
use go_httpclient.Backoff.{constant_backoff}
use go_httpclient.Retry.{
  Policy, default_is_retryable, can_retry, loop, round_trip, is_idempotent, one_round, pause,
  prepare_request, try_once, attempt, is_retryable_status, wait_backoff,
}
use go_httpclient.Retry.Sends.{SendsOnce, IsQuiet, sends}
use go_httpclient.Retry.Attempts.{Tries, retry_attempts}
use go_httpclient.Retry.Protection.{default_predicates, open_breaker_not_retried}
use go_httpclient.Examples.{
  world, world_at, tripped_breaker, request, posting, busy, canceled_context,
}

abbrev pub three_times : Policy
three_times = record {
  max_attempts = 3;
  attempt_timeout = pos 0;
  backoff = constant_backoff (pos 50);
  is_retryable = default_is_retryable;
  retry_all_methods = false;
}

busy-SendsOnce : SendsOnce busy
busy-SendsOnce req w = omega arith

three_times-IsQuiet : IsQuiet three_times
unfolding constant_backoff
three_times-IsQuiet k r w = refl

-- A GET against a server that is always busy is sent three times.
three_sent : sends (round_trip three_times busy request world).1 ≡ 3
unfolding round_trip can_retry constant_backoff is_idempotent loop one_round pause prepare_request
    try_once default_is_retryable attempt is_retryable_status wait_backoff select done
    drain_and_close
three_sent = refl

retry_attempts_example :
    (can_retry three_times request ≡ true
      → Tries three_times request 1 3 world (round_trip three_times busy request world))
    × (can_retry three_times request ≡ false
        → sends (round_trip three_times busy request world).1 ≡ suc (sends world))
retry_attempts_example =
    retry_attempts three_times busy request world busy-SendsOnce three_times-IsQuiet (omega arith)

abbrev canceled_outcome : Outcome
canceled_outcome = refuse (Err.wrapped Err.canceled)

default_predicates_example :
    (default_is_retryable canceled_outcome ≡ true → default_is_failure canceled_outcome ≡ true)
    × (Wraps Err.circuit_open (Err.wrapped Err.canceled)
        → default_is_retryable canceled_outcome ≡ false)
    × (Wraps Err.rate_limited (Err.wrapped Err.canceled)
        → default_is_retryable canceled_outcome ≡ false)
    × (Wraps Err.canceled (Err.wrapped Err.canceled)
        → (default_is_retryable canceled_outcome ≡ false)
          × (default_is_failure canceled_outcome ≡ false))
default_predicates_example = default_predicates canceled_outcome (Err.wrapped Err.canceled) refl

tripped_state : tripped_breaker.state ≡ opened
unfolding new_circuit_breaker apply_verdict with_defaults
tripped_state = refl

too_early :
    ¬ (tripped_breaker.cfg.reset_timeout ≤ℤ sat64 (pos 20 -ℤ tripped_breaker.last_failure_time))
unfolding new_circuit_breaker apply_verdict with_defaults sat64 ◌-ℤ◌
too_early = omega arith

open_breaker_not_retried_example :
    round_trip three_times (break_circuit 0 busy) request (world_at (pos 20) tripped_breaker)
    ≡ (refuse Err.circuit_open, close_request_body request (world_at (pos 20) tripped_breaker))
open_breaker_not_retried_example =
    open_breaker_not_retried three_times 0 busy request (world_at (pos 20) tripped_breaker)
      (omega arith) refl refl tripped_state too_early

abbrev giving_up : Request
giving_up = record posting { ctx = canceled_context }

already_done : done canceled_context ≡ some (pos 15, Err.canceled)
unfolding done
already_done = refl

constant_keeps_time : pos 15 ≤ℤ (constant_backoff (pos 50) 0 none world).1.now
unfolding constant_backoff
constant_keeps_time = omega arith

constant_positive : pos 0 <ℤ (constant_backoff (pos 50) 0 none world).0
unfolding constant_backoff
constant_positive = omega arith
