-- ===== src/ErrorClass/Classify.antt =====
-- errorclass.go from `ErrorKind.String` to the end: the classification and its predicates.
use go_httpclient.Shared.{
  ℕ, zero, suc, Bool, true, false, ◌||◌, Option, none, some, String, if◌then◌else◌,
}
use text.Mathlib.Text.{◌==◌ as str_eq}
use go_httpclient.Http.Error.{Err, ErrorKind}
use go_httpclient.ErrorClass.Walk.{
  find_node, any_node, is_deadline_exceeded, is_context_canceled, is_circuit_open, is_rate_limited,
  is_connection_errno, UrlError, as_url_error, as_net_error, as_dns_error,
  is_certificate_verification, is_unknown_authority, is_certificate_invalid, is_hostname,
  as_op_error, depth,
}

-- `ErrorKind.String`
unfoldable pub kind_string : ErrorKind → String
kind_string ErrorKind.timeout = "timeout"
kind_string ErrorKind.canceled = "canceled"
kind_string ErrorKind.connection = "connection"
kind_string ErrorKind.dns = "dns"
kind_string ErrorKind.dns_not_found = "dns_not_found"
kind_string ErrorKind.tls = "tls"
kind_string ErrorKind.circuit_open = "circuit_open"
kind_string ErrorKind.rate_limited = "rate_limited"
kind_string _ = "unknown"

-- `ErrorKind.IsRetryable`
unfoldable pub kind_is_retryable : ErrorKind → Bool
kind_is_retryable ErrorKind.timeout = true
kind_is_retryable ErrorKind.connection = true
kind_is_retryable ErrorKind.dns = true
kind_is_retryable _ = false

-- `if kind := k; kind != ErrKindUnknown { return kind }`, and then the rest.
abbrev pub or_kind : ErrorKind → ErrorKind → ErrorKind
or_kind ErrorKind.unknown rest = rest
or_kind k _ = k

unfoldable pub classify_tls : Err → ErrorKind
unfolding any_node
classify_tls e =
    if any_node is_certificate_verification e
    then ErrorKind.tls
    else if any_node is_unknown_authority e
    then ErrorKind.tls
    else if any_node is_certificate_invalid e
    then ErrorKind.tls
    else if any_node is_hostname e
    then ErrorKind.tls
    else ErrorKind.unknown

abbrev pub is_connection_op : Option String → Bool
is_connection_op none = false
is_connection_op (some op) = str_eq op "dial" || (str_eq op "read" || str_eq op "write")

unfoldable pub classify_connection : Err → ErrorKind
unfolding any_node find_node
classify_connection e =
    if any_node is_connection_errno e
    then ErrorKind.connection
    else if is_connection_op (find_node as_op_error e)
    then ErrorKind.connection
    else ErrorKind.unknown

unfoldable pub classify_sentinel : Err → ErrorKind
classify_sentinel Err.circuit_open = ErrorKind.circuit_open
classify_sentinel Err.rate_limited = ErrorKind.rate_limited
classify_sentinel _ = ErrorKind.unknown

unfoldable pub classify_wrapped_sentinel : Err → ErrorKind
unfolding any_node
classify_wrapped_sentinel e =
    if any_node is_circuit_open e
    then ErrorKind.circuit_open
    else if any_node is_rate_limited e
    then ErrorKind.rate_limited
    else ErrorKind.unknown

-- `errors.As(err, &netErr) && netErr.Timeout()`
abbrev pub is_net_timeout : Option Bool → Bool
is_net_timeout none = false
is_net_timeout (some t) = t

abbrev pub dns_kind : Option Bool → ErrorKind → ErrorKind
dns_kind none rest = rest
dns_kind (some not_found) rest = if not_found then ErrorKind.dns_not_found else ErrorKind.dns

-- `classifyError` behind its block on `*url.Error`.
unfoldable pub classify_transport : Err → ErrorKind
unfolding find_node as_net_error classify_tls classify_connection classify_wrapped_sentinel
classify_transport e =
    if is_net_timeout (find_node as_net_error e)
    then ErrorKind.timeout
    else dns_kind (find_node as_dns_error e)
        (or_kind (classify_tls e) (or_kind (classify_connection e) (classify_wrapped_sentinel e)))

-- The block on `*url.Error`; `again` is the recursive call.
abbrev pub url_kind : (Err → ErrorKind) → Option UrlError → ErrorKind → ErrorKind
url_kind again none rest = rest
url_kind again (some u) rest =
    if u.timeout then ErrorKind.timeout else elim u.inner [ none ↦ rest | some e ↦ again e ]

-- One call of `classifyError` on an error that is not nil.
unfoldable pub classify_step : (Err → ErrorKind) → Err → ErrorKind
unfolding classify_sentinel any_node find_node as_url_error classify_transport
classify_step again e = or_kind (classify_sentinel e) (
    if any_node is_deadline_exceeded e
    then ErrorKind.timeout
    else if any_node is_context_canceled e
    then ErrorKind.canceled
    else url_kind again (find_node as_url_error e) (classify_transport e))

-- `classifyError`, with fuel for its recursion.
unfoldable pub classify_error : ℕ → Err → ErrorKind
unfolding classify_step
classify_error zero e = ErrorKind.unknown
classify_error (suc f) e = classify_step (classify_error f) e

-- `Classify(err).Kind`. The recursion goes into a part of the error, so its depth bounds it.
unfoldable pub kind_of : Err → ErrorKind
unfolding classify_error depth
kind_of e = classify_error (suc (depth e)) e

-- `Classify`: nil for nil, else the error wrapped with its kind.
unfoldable pub classify : Option Err → Option Err
unfolding kind_of
classify none = none
classify (some e) = some (Err.classified (kind_of e) e)

-- The predicates `IsTimeout` to `IsRetryable` are false at nil and test the kind elsewhere.
abbrev on_kind : (ErrorKind → Bool) → Option Err → Bool
on_kind p none = false
on_kind p (some e) = p (kind_of e)

abbrev is_kind_timeout : ErrorKind → Bool
is_kind_timeout ErrorKind.timeout = true
is_kind_timeout _ = false

abbrev pub is_kind_canceled : ErrorKind → Bool
is_kind_canceled ErrorKind.canceled = true
is_kind_canceled _ = false

abbrev is_kind_connection : ErrorKind → Bool
is_kind_connection ErrorKind.connection = true
is_kind_connection _ = false

abbrev is_kind_dns : ErrorKind → Bool
is_kind_dns ErrorKind.dns = true
is_kind_dns ErrorKind.dns_not_found = true
is_kind_dns _ = false

abbrev is_kind_dns_not_found : ErrorKind → Bool
is_kind_dns_not_found ErrorKind.dns_not_found = true
is_kind_dns_not_found _ = false

abbrev is_kind_tls : ErrorKind → Bool
is_kind_tls ErrorKind.tls = true
is_kind_tls _ = false

unfoldable pub is_timeout : Option Err → Bool
unfolding kind_of
is_timeout = on_kind is_kind_timeout

unfoldable pub is_canceled : Option Err → Bool
unfolding kind_of
is_canceled = on_kind is_kind_canceled

unfoldable pub is_connection : Option Err → Bool
unfolding kind_of
is_connection = on_kind is_kind_connection

unfoldable pub is_dns : Option Err → Bool
unfolding kind_of
is_dns = on_kind is_kind_dns

unfoldable pub is_dns_not_found : Option Err → Bool
unfolding kind_of
is_dns_not_found = on_kind is_kind_dns_not_found

unfoldable pub is_tls : Option Err → Bool
unfolding kind_of
is_tls = on_kind is_kind_tls

unfoldable pub is_retryable : Option Err → Bool
unfolding kind_of kind_is_retryable
is_retryable = on_kind kind_is_retryable
