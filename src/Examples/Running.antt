-- ===== src/Examples/Running.antt =====
-- The example program, with a transport that answers each request.
use go_httpclient.Shared.{◌≡◌, refl, true, ◌⊎◌, inl, [], ◌∷◌}
use go_httpclient.Http.World.{
  World, with_timeout, settle, select, done, drain_and_close, close_request_body, close_body,
  drain_body, cancel,
}
use go_httpclient.Timeout.{under_timeout, timeout, round_trip as bound_time}
use go_httpclient.Breaker.{
  apply_result, apply_verdict, try_admit, new_circuit_breaker, default_is_failure,
  with_defaults as breaker_defaults,
}
use go_httpclient.Breaker.RoundTrip.{
  publish, record_result, allow_request, circuit_breaker, new_shared, round_trip as break_circuit,
}
use go_httpclient.Retry.{
  wait_backoff, is_retryable_status, attempt, default_is_retryable, try_once, prepare_request,
  pause, one_round, loop, can_retry, retry, with_defaults, round_trip, is_idempotent,
}
use go_httpclient.Client.{
  new, chain, chain_loop, apply_options, apply_option, apply_at, default_config, do_request,
}
use go_httpclient.Request.{
  new_builder, set_header, set_user_agent, set_accept, set_context, set_query_param,
  set_query_params, set_path_param, set_body_marshaled, set_content_type, set_body_bytes,
  set_values, put_param,
}
use go_httpclient.Request.Setters.{apply_setter}
use go_httpclient.Request.Execute.{
  build, resolve_body, new_request, with_replay, apply_query, apply_path_params, execute_method,
}
use go_httpclient.ErrorClass.Classify.{kind_is_retryable}
use go_httpclient.Shared.Int.{◌+ℤ◌}
use go_httpclient.Http.World.Bodies.{is_opened, IsClosed}
use go_httpclient.Request.{marshaled}
use go_httpclient.Contract.Exclusive.{IsExclusive}
use go_httpclient.Basic.{
  run, basic_client, simple_get, get_with_query_params, post_json, path_params, custom_headers,
  show,
}
use go_httpclient.Basic.Leaks.{example_leaks_nothing}
use go_httpclient.Examples.{world, billionths}
use go_httpclient.Examples.Building.{plain_net}
use go_httpclient.Examples.Composing.{attentive, attentive-Honors, attentive-Releases}

-- The world that the program leaves.
abbrev end : World
end =
    run billionths (λ n. 0) plain_net (λ k. k) (λ s. s) (attentive 200) (marshaled (1 ∷ [])) 0 world

attentive-IsExclusive : IsExclusive (attentive 200)
attentive-IsExclusive req w = inl refl

five_opened : is_opened 5 end.events ≡ true
unfolding run basic_client simple_get get_with_query_params post_json path_params custom_headers
    show execute_method build apply_query apply_path_params resolve_body new_request with_replay
    new_builder apply_setter set_header set_user_agent set_accept set_context set_query_param
    set_query_params set_path_param set_body_marshaled set_content_type set_body_bytes set_values
    put_param do_request new chain chain_loop apply_options apply_option apply_at default_config
    timeout bound_time under_timeout with_timeout settle circuit_breaker new_shared break_circuit
    allow_request record_result publish try_admit apply_verdict apply_result new_circuit_breaker
    breaker_defaults default_is_failure retry with_defaults round_trip can_retry is_idempotent loop
    one_round pause prepare_request try_once default_is_retryable is_retryable_status attempt
    wait_backoff select done drain_and_close close_request_body close_body drain_body cancel ◌+ℤ◌
    kind_is_retryable
five_opened = refl

example_leaks_nothing_example : (is_opened 5 world.events ≡ true) ⊎ IsClosed 5 end
example_leaks_nothing_example =
    example_leaks_nothing billionths (λ n. 0) plain_net (λ k. k) (λ s. s) (attentive 200)
      (marshaled (1 ∷ [])) 0 world 5 (attentive-Honors 200) (attentive-Releases 200)
      attentive-IsExclusive five_opened
