-- ===== src/ErrorClass/UrlError.antt =====
-- The `*url.Error` in which net/http wraps what a transport returns (errorclass.go, the block of
-- `classifyError` on `*url.Error`).
use go_httpclient.Shared.{◌≡◌, refl, sym, true, some, arith, inl, inr, Bool-cases}
use go_httpclient.Http.Error.{Err, ErrorKind}
use go_httpclient.ErrorClass.Walk.{
  find_node, any_node, as_url_error, as_net_error, timeout_method, ok_and, depth,
  is_deadline_exceeded, is_context_canceled,
}
use go_httpclient.ErrorClass.Classify.{
  classify_sentinel, classify_error, kind_of, is_net_timeout, classify_transport, url_kind,
}

-- Every error of another package whose `Timeout` method answers true is a `net.Error`.
abbrev pub TimeoutsAreNet : Err → Type 0
TimeoutsAreNet (Err.url_error e) = TimeoutsAreNet e
TimeoutsAreNet (Err.op_error op e) = TimeoutsAreNet e
TimeoutsAreNet (Err.syscall_error e) = TimeoutsAreNet e
TimeoutsAreNet (Err.custom c) = c.timeout ≡ some true → c.is_net ≡ true
TimeoutsAreNet _ = Unit {0}

-- An error whose `Timeout` method answers true is found by the walk for a `net.Error`.
net_timeout :
    (e : Err)
    → TimeoutsAreNet e
    → ok_and (timeout_method e) ≡ true
    → is_net_timeout (find_node as_net_error e) ≡ true
unfolding find_node as_net_error timeout_method
net_timeout (Err.syscall_error e) n h = net_timeout e n h
net_timeout (Err.url_error e) n h = h
net_timeout (Err.op_error op e) n h = h
net_timeout (Err.custom c) n h = ground arith
net_timeout _ n h = ground arith

-- Nor does the block on `*url.Error` answer anything but a timeout for it.
url_timeout :
    (again : Err → ErrorKind) (e : Err) (rest : ErrorKind)
    → ok_and (timeout_method e) ≡ true
    → rest ≡ ErrorKind.timeout
    → url_kind again (find_node as_url_error e) rest ≡ ErrorKind.timeout
unfolding find_node as_url_error timeout_method
url_timeout again (Err.syscall_error e) rest h r = url_timeout again e rest h r
url_timeout again (Err.op_error op e) rest h r = url_timeout again e rest h r
url_timeout again (Err.url_error e) rest h r = ground arith
url_timeout again _ rest h r = ground arith

kind_of-url_error_at :
    (e : Err)
    → TimeoutsAreNet e
    → classify_sentinel e ≡ ErrorKind.unknown
    → kind_of (Err.url_error e) ≡ kind_of e
unfolding kind_of
kind_of-url_error_at e n s = elim (Bool-cases (any_node is_deadline_exceeded e)) [
  | inl d ↦ rw (d, s)
  | inr d ↦ elim (Bool-cases (any_node is_context_canceled e)) [
    | inl c ↦ rw (d, c, s)
    | inr c ↦ elim (Bool-cases (ok_and (timeout_method e))) [
      | inl h ↦
          rw (d, c, h, s)
            (sym (
              url_timeout (classify_error (depth e)) e (classify_transport e) h
                (rw (net_timeout e n h))))
      | inr h ↦ rw (d, c, h)
    ]
  ]
]

-- A `*url.Error` has the kind of the error that it wraps, if the errors of other packages in it
-- that have a `Timeout` method which answers true are net.Errors.
pub kind_of-url_error : (e : Err) → TimeoutsAreNet e → kind_of (Err.url_error e) ≡ kind_of e
unfolding kind_of
kind_of-url_error Err.circuit_open n = refl
kind_of-url_error Err.rate_limited n = refl
kind_of-url_error e n = kind_of-url_error_at e n refl
