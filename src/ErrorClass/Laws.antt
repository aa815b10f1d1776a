-- ===== src/ErrorClass/Laws.antt =====
-- What `Classify` promises (errorclass.go): the recursion ends, and wrapping does not change a
-- kind.
use go_httpclient.Shared.{
  ℕ, zero, suc, ◌<◌, ◌≡◌, refl, Option, none, some, arith, inl, inr, Option-cases,
}
use go_httpclient.Http.Error.{Err, ErrorKind}
use go_httpclient.ErrorClass.Walk.{find_node, UrlError, as_url_error, depth}
use go_httpclient.ErrorClass.Classify.{classify_transport, url_kind, classify_step, classify_error}

-- The error inside the first `*url.Error` lies deeper than the whole.
depth-find_node :
    (e : Err) (u : UrlError) (i : Err)
    → find_node as_url_error e ≡ some u
    → u.inner ≡ some i
    → depth i < depth e
unfolding find_node as_url_error depth
depth-find_node (Err.url_error e) u i h k = ground arith
depth-find_node (Err.op_error op e) u i h k = omega (arith, depth-find_node e u i h k)
depth-find_node (Err.syscall_error e) u i h k = omega (arith, depth-find_node e u i h k)
depth-find_node (Err.certificate_verification e) u i h k = omega (arith, depth-find_node e u i h k)
depth-find_node (Err.wrapped e) u i h k = omega (arith, depth-find_node e u i h k)
depth-find_node (Err.joined a b) u i h k =
    ground (arith, depth-find_node a u i, depth-find_node b u i)
depth-find_node (Err.classified c e) u i h k = omega (arith, depth-find_node e u i h k)
depth-find_node _ u i h k = ground arith

-- One call depends on the recursive call only at the error inside the first `*url.Error`.
url_kind-ext :
    (a b : Err → ErrorKind) (o : Option UrlError) (rest : ErrorKind)
    → ((u : UrlError) (i : Err) → o ≡ some u → u.inner ≡ some i → a i ≡ b i)
    → url_kind a o rest ≡ url_kind b o rest
url_kind-ext a b none rest h = refl
url_kind-ext a b (some u) rest h = elim (Option-cases u.inner) [
  | inl e ↦ ground arith
  | inr (i, e) ↦ ground (arith, h u i refl e)
]

classify_step-ext :
    (a b : Err → ErrorKind) (e : Err)
    → ((u : UrlError) (i : Err) → find_node as_url_error e ≡ some u → u.inner ≡ some i → a i ≡ b i)
    → classify_step a e ≡ classify_step b e
unfolding classify_step
classify_step-ext a b e h =
    rw (url_kind-ext a b (find_node as_url_error e) (classify_transport e) h)

pub classify_error_fuel :
    (f g : ℕ) (e : Err) → depth e < f → depth e < g → classify_error f e ≡ classify_error g e
unfolding classify_error
classify_error_fuel zero g e p q = absurd (omega arith)
classify_error_fuel (suc f) zero e p q = absurd (omega arith)
classify_error_fuel (suc f) (suc g) e p q =
    classify_step-ext (classify_error f) (classify_error g) e (λ u i h k.
      let deeper = depth-find_node e u i h k in
      classify_error_fuel f g i (omega arith) (omega arith))
