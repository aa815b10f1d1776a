-- ===== src/Lib.antt =====
-- rhttp, the resilient HTTP client of this repository: a client that sends a request through a
-- chain of middleware around a transport. Each middleware is a function on round trippers, and a
-- round tripper takes a request and a world and returns an outcome (a response or an error) and
-- the world that it leaves.
--
-- The parts, and the files they model:
--   Shared         the native numbers, int64 and its wrap-around, float64 as a parameter, strconv.Atoi
--   Http           what the program uses of net/http and context: bodies, responses, contexts and their
--                  deadlines, and the world with its clock, its pointers and its record of events;
--                  drainAndClose of retry.go, closeRequestBody of middleware.go, cancelBody of timeout.go
--   Diagnostics    diagnostics.go, and the configurations that a constructor cannot apply
--   ErrorClass     errorclass.go and errors.go: `kind_of` is classifyError; `any_node` and `find_node`
--                  are errors.Is and errors.As on the tree of an error
--   Breaker        circuitbreaker.go: `try_admit` and `apply_verdict` are the two locked sections,
--                  Breaker/RoundTrip the middleware over a breaker at a pointer, Breaker/Concurrent the
--                  interleavings of requests as sequences of locked sections
--   Timeout        timeout.go
--   Backoff        backoff.go; Backoff/Jitter has the strategies with random numbers
--   Retry          retry.go: `loop` is the loop of RoundTrip, `one_round` its body; Retry/Budget puts
--                  it inside a timeout, Retry/Cutoff around a breaker in an outage, Retry/Duration
--                  bounds its time (Retry/Clock: the clock and the reading of bodies)
--   RateLimit      ratelimit.go: the middleware over any limiter; RateLimit/Bucket is TokenBucket,
--                  on what Bucket/Rounding asks of float64
--   Client         client.go, options.go and `chain` of middleware.go
--   Request        request.go: the builder; Request/Execute has bufferBody, resolveBody and execute,
--                  Request/Setters the methods that return the builder as one type
--   Contract       the RoundTripper contract (a request's body is closed, perhaps by the transport
--                  after it has returned), which each middleware keeps over a round tripper that
--                  keeps it, and so a client of any layers; Contract/Breakers does the same for the
--                  breakers' invariant
--   Observability  metrics.go, logging.go and decode.go
--   Basic          examples/basic/main.go: a client of three layers, and five requests through it
--   Examples       the data of the trials, and the properties at that data
--
-- The parts meet in three ways. The middleware of one part is the next round tripper of another.
-- Retry and Breaker decide by the kind that ErrorClass gives to an error. A middleware that
-- refuses a request closes its body by `close_request_body`.
--
-- Numbers: an int64 duration is an integer, `wrap64` is what arithmetic on it does, and `sat64` what
-- the difference of two times does, which Go saturates. A counter that stays below a setting is a
-- natural number. The breaker's generation wraps at 2^64, and the run of a breaker is bounded by that.
-- Loops: the retry loop has as many rounds as the policy has attempts; classifyError has one more
-- than the depth of the error as its fuel, since each call goes to an error of smaller depth; the
-- loop of WaitContext has fuel, one for each attempt to take a token, and answers `none` where that
-- runs out.
--
-- Parameters, for code that is not in this repository: float64 (`Float64`), rand.Float64 (`rand`),
-- http.ParseTime (`parse_time`), the JSON decoder (`decode`), net/url and http.NewRequest (`Net`),
-- the transport, GetBody of a request, and the callers' functions. The clock moves in a wait, while a
-- response's body is read, and in what a parameter does. float64 rounds: `IsRounded` is what the
-- bucket's theorems ask of it.
--
-- Not modelled: what the transport reads of a body that is streamed; the settings of
-- DefaultTransport (transport.go); the texts of errors and of diagnostics; the limit of 256 KiB up
-- to which a body is drained (the time that its reading takes is a field of the world); the order in
-- which Go ranges over a map, which is that of the list here and the same in each execution; what the example prints; the benchmarks. A panic is recorded as an
-- event, and the model goes on behind it. A mutex is modelled by the atomicity of what it guards.
pub mod Shared
pub mod Http
pub mod Diagnostics
pub mod ErrorClass
pub mod Breaker
pub mod Timeout
pub mod Backoff
pub mod Retry
pub mod Client
pub mod RateLimit
pub mod Observability
pub mod Request
pub mod Contract
pub mod Basic
pub mod Examples
