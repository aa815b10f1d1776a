-- ===== src/Shared/Float.antt =====
-- float64, as the operations that the program uses. The values and their rounding are a parameter.
use mathlib.Core.Bool.{Bool}
use go_httpclient.Shared.Int.{ℤ}

pub record Float64 : Type 1 where
  pub F : Type 0
  -- the conversions from and to int64; the second drops the fraction
  pub of_int : ℤ → F
  pub trunc : F → ℤ
  -- `Duration.Seconds`
  pub seconds : ℤ → F
  pub plus : F → F → F
  pub minus : F → F → F
  pub times : F → F → F
  pub over : F → F → F
  pub lt : F → F → Bool
  pub le : F → F → Bool
  -- the constants 0, 0.2, 1, 2, 3 and 1e9
  pub nought : F
  pub fifth : F
  pub one : F
  pub two : F
  pub three : F
  pub billion : F
