-- ===== src/ErrorClass/Wrapping.antt =====
-- Wrapping an error does not change its kind (errorclass.go, `Classify`): `fmt.Errorf` with `%w`,
-- `ClassifiedError`, and the `*url.Error` in which net/http wraps what a transport returns.
use go_httpclient.Shared.{suc, ◌≡◌, refl, ◌∙◌, arith}
use go_httpclient.Http.Error.{Err, ErrorKind}
use go_httpclient.ErrorClass.Walk.{depth}
use go_httpclient.ErrorClass.Classify.{classify_step, kind_of}
use go_httpclient.ErrorClass.Laws.{classify_error_fuel}

classify_step-wrapped :
    (again : Err → ErrorKind) (e : Err)
    → classify_step again (Err.wrapped e) ≡ classify_step again e
unfolding classify_step
classify_step-wrapped again Err.circuit_open = refl
classify_step-wrapped again e = refl

classify_step-classified :
    (again : Err → ErrorKind) (k : ErrorKind) (e : Err)
    → classify_step again (Err.classified k e) ≡ classify_step again e
unfolding classify_step
classify_step-classified again k Err.circuit_open = refl
classify_step-classified again k e = refl

-- `Wraps e w`: `w` is `e` behind any number of `%w` and `ClassifiedError` wrappers.
pub data Wraps (e : Err) : Err → Type 0 where
  bare : Wraps e e
  behind_format : {w : Err} → Wraps e w → Wraps e (Err.wrapped w)
  behind_classified : {w : Err} (k : ErrorKind) → Wraps e w → Wraps e (Err.classified k w)

kind_of-wrapped : (e : Err) → kind_of (Err.wrapped e) ≡ kind_of e
unfolding kind_of
kind_of-wrapped e =
    classify_step-wrapped _ e
    ∙ classify_error_fuel (suc (suc (depth e))) (suc (depth e)) e (omega arith) (omega arith)

kind_of-classified : (k : ErrorKind) (e : Err) → kind_of (Err.classified k e) ≡ kind_of e
unfolding kind_of
kind_of-classified k e =
    classify_step-classified _ k e
    ∙ classify_error_fuel (suc (suc (depth e))) (suc (depth e)) e (omega arith) (omega arith)

-- An error keeps its kind behind any number of `%w` and `ClassifiedError` wrappers, a sentinel of
-- the package included.
pub kind_of-Wraps : (e w : Err) → Wraps e w → kind_of w ≡ kind_of e
kind_of-Wraps e _ bare = refl
kind_of-Wraps e _ (behind_format {w} h) = kind_of-wrapped w ∙ kind_of-Wraps e w h
kind_of-Wraps e _ (behind_classified {w} k h) = kind_of-classified k w ∙ kind_of-Wraps e w h
