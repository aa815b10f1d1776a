-- ===== src/Shared/Lists.antt =====
-- Lists measured by native numbers, and a store: a function updated at one place.
use Prim.Native.Nat.{ℕ, suc, ◌+◌}
use mathlib.Core.Path.{◌≡◌, fun_ext}
use mathlib.Core.Logic.{◌≢◌}
use mathlib.Core.Bool.{Bool}
use mathlib.Core.List.{List, [], ◌∷◌, ◌++◌}
use native.Mathlib.Omega.{arith}
use go_httpclient.Shared.Tests.{◌==◌, if◌then◌else◌}

module _ {ℓ} {A : Type ℓ} where
  abbrev pub length : List A → ℕ
  length [] = 0
  length (x ∷ xs) = suc (length xs)

  -- How many elements pass a test.
  abbrev pub count : (A → Bool) → List A → ℕ
  count p [] = 0
  count p (x ∷ xs) = (if p x then 1 else 0) + count p xs

  pub count-append : (p : A → Bool) (xs ys : List A) → count p (xs ++ ys) ≡ count p xs + count p ys
  count-append p [] ys = omega arith
  count-append p (x ∷ xs) ys = omega (arith, count-append p xs ys)

  -- `m[k] = v`
  abbrev pub update : (ℕ → A) → ℕ → A → ℕ → A
  update m k v j = if j == k then v else m j

  pub update_self : (m : ℕ → A) (k : ℕ) (v : A) → update m k v k ≡ v
  update_self m k v = ground arith

  pub update_ne : (m : ℕ → A) (k : ℕ) (v : A) (j : ℕ) → j ≢ k → update m k v j ≡ m j
  update_ne m k v j h = ground arith

  pub update_unchanged : (m : ℕ → A) (k : ℕ) → update m k (m k) ≡ m
  update_unchanged m k = fun_ext λ j. ground arith
