-- ===== src/ErrorClass/Walk.antt =====
-- The walks of `errors.Is` and `errors.As` over an error, and the tests that errorclass.go makes
-- of its nodes. The methods `Timeout` are those of the standard library's error types.
use go_httpclient.Shared.{
  ℕ, suc, Bool, true, false, ◌||◌, Option, none, some, String, if◌then◌else◌,
}
use Prim.Native.Nat.{max}
use go_httpclient.Http.Error.{Err, Errno}

abbrev pub or_else {ℓ} : {A : Type ℓ} → Option A → Option A → Option A
or_else none y = y
or_else (some a) y = some a

-- `errors.As`: the first node, in pre-order, of the type that `f` recognises.
unfoldable pub find_node {ℓ} : {A : Type ℓ} → (Err → Option A) → Err → Option A
find_node f (Err.url_error e) = or_else (f (Err.url_error e)) (find_node f e)
find_node f (Err.op_error op e) = or_else (f (Err.op_error op e)) (find_node f e)
find_node f (Err.syscall_error e) = or_else (f (Err.syscall_error e)) (find_node f e)
find_node f (Err.certificate_verification e) =
    or_else (f (Err.certificate_verification e)) (find_node f e)
find_node f (Err.wrapped e) = or_else (f (Err.wrapped e)) (find_node f e)
find_node f (Err.joined a b) =
    or_else (f (Err.joined a b)) (or_else (find_node f a) (find_node f b))
find_node f (Err.classified k e) = or_else (f (Err.classified k e)) (find_node f e)
find_node f e = f e

-- `errors.Is`: whether some node passes a test.
unfoldable pub any_node : (Err → Bool) → Err → Bool
any_node p (Err.url_error e) = p (Err.url_error e) || any_node p e
any_node p (Err.op_error op e) = p (Err.op_error op e) || any_node p e
any_node p (Err.syscall_error e) = p (Err.syscall_error e) || any_node p e
any_node p (Err.certificate_verification e) = p (Err.certificate_verification e) || any_node p e
any_node p (Err.wrapped e) = p (Err.wrapped e) || any_node p e
any_node p (Err.joined a b) = p (Err.joined a b) || (any_node p a || any_node p b)
any_node p (Err.classified k e) = p (Err.classified k e) || any_node p e
any_node p e = p e

abbrev pub is_deadline_exceeded : Err → Bool
is_deadline_exceeded Err.deadline_exceeded = true
is_deadline_exceeded (Err.custom c) = c.is_deadline
is_deadline_exceeded _ = false

abbrev pub is_context_canceled : Err → Bool
is_context_canceled Err.canceled = true
is_context_canceled (Err.custom c) = c.is_canceled
is_context_canceled _ = false

abbrev pub is_circuit_open : Err → Bool
is_circuit_open Err.circuit_open = true
is_circuit_open _ = false

abbrev pub is_rate_limited : Err → Bool
is_rate_limited Err.rate_limited = true
is_rate_limited _ = false

-- ECONNREFUSED, ECONNRESET, EHOSTUNREACH and ENETUNREACH
abbrev pub is_connection_errno : Err → Bool
is_connection_errno (Err.errno Errno.econnrefused) = true
is_connection_errno (Err.errno Errno.econnreset) = true
is_connection_errno (Err.errno Errno.ehostunreach) = true
is_connection_errno (Err.errno Errno.enetunreach) = true
is_connection_errno _ = false

abbrev pub errno_timeout : Errno → Bool
errno_timeout Errno.etimedout = true
errno_timeout Errno.eagain = true
errno_timeout _ = false

abbrev pub ok_and : Option Bool → Bool
ok_and none = false
ok_and (some b) = b

-- What the method `Timeout() bool` of an error answers; `none` if it has no such method.
unfoldable pub timeout_method : Err → Option Bool
timeout_method Err.deadline_exceeded = some true
timeout_method (Err.errno n) = some (errno_timeout n)
timeout_method (Err.url_error e) = some (ok_and (timeout_method e))
timeout_method Err.url_error_nil = some false
timeout_method (Err.op_error op e) = some (ok_and (timeout_method e))
timeout_method (Err.syscall_error e) = some (ok_and (timeout_method e))
timeout_method (Err.dns_error timeout not_found) = some timeout
timeout_method (Err.custom c) = c.timeout
timeout_method _ = none

-- `url.Error`, as `classifyError` uses it: `Timeout()` and `Err`.
pub record UrlError : Type 0 where
  pub timeout : Bool
  pub inner : Option Err

unfoldable pub as_url_error : Err → Option UrlError
unfolding timeout_method
as_url_error (Err.url_error e) =
    some (record { timeout = ok_and (timeout_method e); inner = some e })
as_url_error Err.url_error_nil = some (record { timeout = false; inner = none })
as_url_error _ = none

-- `net.Error`, given by the answer of its `Timeout()`.
unfoldable pub as_net_error : Err → Option Bool
unfolding timeout_method
as_net_error Err.deadline_exceeded = some true
as_net_error (Err.errno n) = timeout_method (Err.errno n)
as_net_error (Err.url_error e) = timeout_method (Err.url_error e)
as_net_error Err.url_error_nil = some false
as_net_error (Err.op_error op e) = timeout_method (Err.op_error op e)
as_net_error (Err.dns_error t n) = some t
as_net_error (Err.custom c) = if c.is_net then some (ok_and c.timeout) else none
as_net_error _ = none

-- `net.DNSError`, given by its `IsNotFound`.
abbrev pub as_dns_error : Err → Option Bool
as_dns_error (Err.dns_error t not_found) = some not_found
as_dns_error _ = none

abbrev pub is_certificate_verification : Err → Bool
is_certificate_verification (Err.certificate_verification e) = true
is_certificate_verification _ = false

abbrev pub is_unknown_authority : Err → Bool
is_unknown_authority Err.unknown_authority = true
is_unknown_authority _ = false

abbrev pub is_certificate_invalid : Err → Bool
is_certificate_invalid Err.certificate_invalid = true
is_certificate_invalid _ = false

abbrev pub is_hostname : Err → Bool
is_hostname Err.hostname = true
is_hostname _ = false

-- `net.OpError`, given by its `Op`.
abbrev pub as_op_error : Err → Option String
as_op_error (Err.op_error op e) = some op
as_op_error _ = none

-- How deep the wrapping goes: a bound on the recursion of `classifyError`.
unfoldable pub depth : Err → ℕ
depth (Err.url_error e) = suc (depth e)
depth (Err.op_error op e) = suc (depth e)
depth (Err.syscall_error e) = suc (depth e)
depth (Err.certificate_verification e) = suc (depth e)
depth (Err.wrapped e) = suc (depth e)
depth (Err.joined a b) = suc (max (depth a) (depth b))
depth (Err.classified k e) = suc (depth e)
depth _ = 0
