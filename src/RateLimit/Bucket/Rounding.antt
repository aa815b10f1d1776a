-- ===== src/RateLimit/Bucket/Rounding.antt =====
-- What the token bucket asks of float64 (ratelimit.go).
use go_httpclient.Shared.{
  ℕ, leb, ◌+◌, ◌-◌, ◌*◌, ◌^◌, ◌≤◌, ◌<◌, ◌≡◌, true, false, arith, if◌then◌else◌, inl, inr,
  Bool-cases,
}
use go_httpclient.Shared.Int.{pos, ◌-ℤ◌, sat64}
use go_httpclient.Shared.Float.{Float64}

pub elapsed_exact : (t u : ℕ) → t ≤ u → u < 2 ^ 63 → sat64 (pos u -ℤ pos t) ≡ pos (u - t)
unfolding sat64 ◌-ℤ◌
elapsed_exact t u h fits = ground arith

-- Arithmetic that rounds as that of IEEE 754 does, on amounts (the values that are neither NaN nor
-- negative), each with its value in some unit, such as the least positive float64. Comparison is
-- exact. Up to `roof` a sum, and what is left behind one, are off by at most `slack`, half the gap
-- between two float64 just above it. What `d` ns bring at the rate is rounded too, and is at least
-- `d * low` and at most `d * high`.
pub record IsRounded (fl : Float64) (rate : fl.F) (IsAmount : fl.F → Type 0) (value : fl.F → ℕ)
    (low high slack roof : ℕ) : Type 0 where
  pub one_amount : IsAmount fl.one
  pub plus_amount : (x y : fl.F) → IsAmount x → IsAmount y → IsAmount (fl.plus x y)
  pub minus_amount : (x : fl.F) → IsAmount x → value fl.one ≤ value x → IsAmount (fl.minus x fl.one)
  pub earned_amount : (d : ℕ) → d < 2 ^ 63 → IsAmount (fl.times (fl.seconds (pos d)) rate)
  pub lt_true : (x y : fl.F) → IsAmount x → IsAmount y → fl.lt x y ≡ true → value x < value y
  pub lt_false : (x y : fl.F) → IsAmount x → IsAmount y → fl.lt x y ≡ false → value y ≤ value x
  pub le_true : (x y : fl.F) → IsAmount x → IsAmount y → fl.le x y ≡ true → value x ≤ value y
  pub le_false : (x y : fl.F) → IsAmount x → IsAmount y → fl.le x y ≡ false → value y < value x
  pub plus_upper :
      (x y : fl.F)
      → IsAmount x
      → IsAmount y
      → value x + value y ≤ roof
      → value (fl.plus x y) ≤ value x + value y + slack
  pub plus_lower :
      (x y : fl.F)
      → IsAmount x
      → IsAmount y
      → value (fl.plus x y) ≤ roof
      → value x + value y ≤ value (fl.plus x y) + slack
  pub minus_upper :
      (x : fl.F)
      → IsAmount x
      → value fl.one ≤ value x
      → value x ≤ roof
      → value (fl.minus x fl.one) + value fl.one ≤ value x + slack
  pub minus_less :
      (x : fl.F) → IsAmount x → value fl.one ≤ value x → value (fl.minus x fl.one) ≤ value x
  pub earned_upper : (d : ℕ) → d < 2 ^ 63 → value (fl.times (fl.seconds (pos d)) rate) ≤ d * high
  pub earned_lower : (d : ℕ) → d < 2 ^ 63 → d * low ≤ value (fl.times (fl.seconds (pos d)) rate)

-- A sum that is too large is cut to the burst, and one that is not is off by the slack.
pub cut_or_off :
    (kept total most sum slack : ℕ)
    → kept ≤ total
    → kept ≤ most
    → (sum ≤ most → total ≤ sum + slack)
    → kept ≤ sum + slack
cut_or_off kept total most sum slack h k fits = elim (Bool-cases (leb sum most)) [
  | inl e ↦ omega (arith, fits (ground arith))
  | inr e ↦ ground arith
]

module _ (fl : Float64) (rate : fl.F) (IsAmount : fl.F → Type 0) (value : fl.F → ℕ)
    (low high slack roof : ℕ) (rounded : IsRounded fl rate IsAmount value low high slack roof) where
  pub clamped-le :
      (m x : fl.F)
      → IsAmount m
      → IsAmount x
      → (value (if fl.lt m x then m else x) ≤ value x)
        × (value (if fl.lt m x then m else x) ≤ value m)
        × IsAmount (if fl.lt m x then m else x)
  clamped-le m x a b = elim (Bool-cases (fl.lt m x)) [
    | inl e ↦ rw e (omega (arith, rounded.lt_true m x a b e), omega arith, a)
    | inr e ↦ rw e (omega arith, rounded.lt_false m x a b e, b)
  ]
