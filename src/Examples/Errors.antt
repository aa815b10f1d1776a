-- ===== src/Examples/Errors.antt =====
-- The properties of the classification, at errors.
use go_httpclient.Shared.{◌≡◌, refl, true, false}
use go_httpclient.Http.Error.{Err, Errno, ErrorKind}
use go_httpclient.ErrorClass.Classify.{kind_of}
use go_httpclient.ErrorClass.Wrapping.{behind_format, behind_classified, bare, kind_of-Wraps}
use go_httpclient.ErrorClass.UrlError.{kind_of-url_error}

abbrev dial_refused : Err
dial_refused = Err.op_error "dial" (Err.syscall_error (Err.errno Errno.econnrefused))

dial_refused_kind : kind_of dial_refused ≡ ErrorKind.connection
unfolding kind_of
dial_refused_kind = refl

not_found_kind : kind_of (Err.url_error (Err.dns_error false true)) ≡ ErrorKind.dns_not_found
unfolding kind_of
not_found_kind = refl

kind_of-Wraps_example :
    kind_of (Err.wrapped (Err.classified ErrorKind.dns Err.circuit_open)) ≡ kind_of Err.circuit_open
kind_of-Wraps_example =
    kind_of-Wraps Err.circuit_open _ (behind_format (behind_classified ErrorKind.dns bare))

kind_of-url_error_example : kind_of (Err.url_error dial_refused) ≡ kind_of dial_refused
kind_of-url_error_example = kind_of-url_error dial_refused tt
