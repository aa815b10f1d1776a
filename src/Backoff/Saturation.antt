-- ===== src/Backoff/Saturation.antt =====
-- Bounds and overflow of the strategies without random numbers (backoff.go).
use go_httpclient.Shared.{
  ℕ, ◌+◌, ◌*◌, ◌-◌, ◌/◌, ◌^◌, ◌≤◌, ◌<◌, ◌≡◌, true, false, arith, leb, inl, inr, Bool-cases,
}
use go_httpclient.Shared.Int.{ℤ, pos, ◌<ℤ◌, min_ℤ, wrap64, wrap64_id, *ℤ_pos}
use native.Mathlib.Nat.{one-le-pow, pow-le-pow_right}
use go_httpclient.Backoff.{capped, linear, overflows_exp, exponential}

-- Where base and cap are not negative and attempt + 1 and base * (attempt + 1) are int64s,
-- LinearBackoff waits the smaller of it and the cap.
pub linear_exact :
    (base limit attempt : ℕ)
    → base * (attempt + 1) < 2 ^ 63
    → attempt + 1 < 2 ^ 63
    → linear (pos base) (pos limit) attempt ≡ min_ℤ (pos (base * (attempt + 1))) (pos limit)
unfolding linear
linear_exact base limit attempt fits small =
    rw
      (
        wrap64_id (pos (attempt + 1)) (ground arith),
        *ℤ_pos,
        wrap64_id (pos (base * (attempt + 1))) (ground arith),
      )
      (ground arith)

pub wrap64_negative : (n : ℕ) → 2 ^ 63 ≤ n → n < 2 ^ 64 → wrap64 (pos n) <ℤ pos 0
unfolding wrap64
wrap64_negative n big fits = ground arith

capped_negative : (limit : ℕ) (d : ℤ) → d <ℤ pos 0 → capped (pos limit) d <ℤ pos 0
capped_negative limit d h = ground arith

-- The cap does not hold in general: where attempt + 1 is an int64 and its product with a base that
-- is not negative is from 2^63 to below 2^64, LinearBackoff
-- returns a negative duration, whatever the cap, if that is not negative.
pub linear_overflow :
    (base limit attempt : ℕ)
    → 2 ^ 63 ≤ base * (attempt + 1)
    → base * (attempt + 1) < 2 ^ 64
    → attempt + 1 < 2 ^ 63
    → linear (pos base) (pos limit) attempt <ℤ pos 0
unfolding linear
linear_overflow base limit attempt big fits small =
    rw (wrap64_id (pos (attempt + 1)) (ground arith), *ℤ_pos)
      (capped_negative limit _ (wrap64_negative _ big fits))

div_bound : (n p : ℕ) → 0 < p → (n / p * p ≤ n) × (n < (n / p + 1) * p)
div_bound n p h = grind arith

mul_below : (b q p : ℕ) → (b ≤ q → b * p ≤ q * p) × (q < b → (q + 1) * p ≤ b * p)
mul_below b q p = (λ h. grind arith, λ h. grind arith)

-- `MaxInt64 >> attempt` is the largest factor that keeps the product an int64.
shift_bound :
    (b p : ℕ)
    → 0 < p
    → (b ≤ (2 ^ 63 - 1) / p → b * p < 2 ^ 63) × (¬ (b ≤ (2 ^ 63 - 1) / p) → 2 ^ 63 ≤ b * p)
shift_bound b p h =
    let whole = div_bound (2 ^ 63 - 1) p h in
    let below = mul_below b ((2 ^ 63 - 1) / p) p in
    (λ le. omega (arith, below.0 le), λ gt. omega (arith, below.1 (omega arith)))

pow_pos : (k : ℕ) → 0 < 2 ^ k
pow_pos k = one-le-pow k 2 (omega arith)

pow_ge : (k : ℕ) → 63 ≤ k → 2 ^ 63 ≤ 2 ^ k
pow_ge k h = pow-le-pow_right {n = 2} (omega arith) {i = 63} {j = k} h

pow_lt : (k : ℕ) → k < 63 → 2 ^ k < 2 ^ 63
pow_lt k h =
    let le = pow-le-pow_right {n = 2} (omega arith) {i = k} {j = 62} (omega arith) in omega arith

no_overflow :
    (base attempt : ℕ)
    → overflows_exp (pos base) attempt ≡ false
    → (attempt < 63) × (base ≤ (2 ^ 63 - 1) / 2 ^ attempt)
unfolding overflows_exp
no_overflow base attempt h = ground arith

-- For a base and a cap that are not negative: where `overflowsExp` says no, the product base *
-- 2^attempt is an int64, so the exponential strategies take the smaller of it and the cap; where it
-- says yes of a positive base, the product is no int64.
pub overflows_exp_exact :
    (base limit attempt : ℕ)
    → (overflows_exp (pos base) attempt ≡ false
        → exponential (pos base) (pos limit) attempt ≡ min_ℤ (pos (base * 2 ^ attempt)) (pos limit))
      × (0 < base → overflows_exp (pos base) attempt ≡ true → 2 ^ 63 ≤ base * 2 ^ attempt)
unfolding overflows_exp exponential
overflows_exp_exact base limit attempt = (
  λ safe.
      let (small, le) = no_overflow base attempt safe in
      let fits = (shift_bound base (2 ^ attempt) (pow_pos attempt)).0 le in
      let power = pow_lt attempt small in
      rw (
        wrap64_id (pos (2 ^ attempt)) (ground arith),
        *ℤ_pos,
        wrap64_id (pos (base * 2 ^ attempt)) (ground arith),
      ),
  λ some_ over. elim (Bool-cases (leb 63 attempt)) [
    | inl large ↦
        omega (arith, pow_ge attempt (ground arith), (mul_below base 0 (2 ^ attempt)).1 some_)
    | inr small ↦ (shift_bound base (2 ^ attempt) (pow_pos attempt)).1 (ground arith)
  ],
)
