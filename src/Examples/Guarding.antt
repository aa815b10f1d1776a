-- ===== src/Examples/Guarding.antt =====
-- The breakers of a client, at a client.
use go_httpclient.Breaker.Invariant.{IsValid, new_circuit_breaker-IsValid}
use go_httpclient.Backoff.{constant_backoff}
use go_httpclient.Contract.Chain.{client_of}
use go_httpclient.Contract.Breakers.{AllValid, AllValid-same, close_request_body-breakers}
use go_httpclient.Contract.Breakers.Layers.{IsSafe, IsSafeLimiter, IsSafePolicy}
use go_httpclient.Contract.Breakers.Client.{AllSafe, client_keeps_breakers}
use go_httpclient.Http.World.{close_request_body}
use go_httpclient.Examples.{world, small_config, posting}
use go_httpclient.Examples.Retrying.{three_times}
use go_httpclient.Examples.Composing.{attentive, free, layers}

attentive-IsSafe : IsSafe (attentive 503)
attentive-IsSafe req w valid =
    AllValid-same w (close_request_body req w) (close_request_body-breakers req w) valid

free-IsSafeLimiter : IsSafeLimiter free
free-IsSafeLimiter = record { waits = λ c w valid. valid; tries = λ w valid. valid }

three_times-IsSafePolicy : IsSafePolicy three_times
unfolding constant_backoff
three_times-IsSafePolicy k r w valid = valid

layers-AllSafe : AllSafe layers
layers-AllSafe = (tt, (three_times-IsSafePolicy, (tt, (free-IsSafeLimiter, tt))))

world-AllValid : AllValid world
world-AllValid q = new_circuit_breaker-IsValid small_config

client_keeps_breakers_example :
    IsValid ((client_of (attentive 503) layers posting world).1.breakers 0)
client_keeps_breakers_example =
    client_keeps_breakers (attentive 503) layers posting world 0 layers-AllSafe attentive-IsSafe
      world-AllValid
