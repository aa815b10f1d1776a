-- ===== src/Http/Error.antt =====
-- Go's error values as far as errorclass.go tells them apart: the package's sentinels (errors.go),
-- those of context, net, net/url, crypto/tls, crypto/x509 and syscall, and the wrappers that
-- `errors.Is` and `errors.As` walk through. An interface value that is nil is `none`.
use go_httpclient.Shared.{ℕ, Bool, Option, String}

-- errorclass.go: `ErrorKind`
pub data ErrorKind : Type 0 where
  unknown timeout canceled connection dns tls dns_not_found circuit_open rate_limited : ErrorKind

pub data Errno : Type 0 where
  econnrefused econnreset ehostunreach enetunreach etimedout eagain other : Errno

-- An error type of another package that wraps nothing. `timeout` is the answer of its `Timeout`
-- method, if it has one; `is_net` says that it is a `net.Error` (a `Timeout` and a `Temporary`
-- method); the other two are what its `Is` method answers for the two errors of context.
pub record CustomError : Type 0 where
  pub timeout : Option Bool
  pub is_net : Bool
  pub is_deadline : Bool
  pub is_canceled : Bool

pub data Err : Type 0 where
  circuit_open rate_limited invalid_request invalid_rate_limit : Err
  deadline_exceeded canceled : Err
  errno : Errno → Err
  -- `*url.Error`, with and without an `Err`
  url_error : Err → Err
  url_error_nil : Err
  -- `*net.OpError`: its `Op` and its `Err`
  op_error : String → Err → Err
  -- `*os.SyscallError`
  syscall_error : Err → Err
  -- `*net.DNSError`: `IsTimeout` and `IsNotFound`
  dns_error : Bool → Bool → Err
  -- `*tls.CertificateVerificationError` wraps the verifier's error
  certificate_verification : Err → Err
  unknown_authority certificate_invalid hostname : Err
  -- `fmt.Errorf` with one `%w`; `errors.Join` and `fmt.Errorf` with several
  wrapped : Err → Err
  joined : Err → Err → Err
  -- `*ClassifiedError`, with and without an `Err`
  classified : ErrorKind → Err → Err
  classified_nil : ErrorKind → Err
  custom : CustomError → Err
  -- any other error that wraps nothing
  plain : ℕ → Err
