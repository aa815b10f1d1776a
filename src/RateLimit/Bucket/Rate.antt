-- ===== src/RateLimit/Bucket/Rate.antt =====
-- The rate that a token bucket keeps (ratelimit.go, `TryAcquire` and `refill`).
use go_httpclient.Shared.{
  ℕ, suc, subst, sym, length, ◌+◌, ◌-◌, ◌*◌, ◌^◌, ◌≤◌, ◌<◌, ◌≡◌, refl, ap, ◌∙◌, Bool, true, false,
  List, [], ◌∷◌, arith, if◌then◌else◌, inl, inr, Bool-cases,
}
use go_httpclient.Shared.Int.{pos}
use go_httpclient.Shared.Float.{Float64}
use go_httpclient.RateLimit.Bucket.Rounding.{IsRounded, elapsed_exact, cut_or_off, clamped-le}
use go_httpclient.RateLimit.Bucket.{TokenBucket, refill, take_one, try_acquire}

-- `TryAcquire` at each of some times, and how many of the calls got a token.
pub acquires : (fl : Float64) → List ℕ → TokenBucket fl.F → ℕ × TokenBucket fl.F
acquires fl [] tb = (0, tb)
acquires fl (t ∷ ts) tb =
    let (got, tb') = try_acquire fl (pos t) tb in
    let (n, tb'') = acquires fl ts tb' in (if got then suc n else n, tb'')

-- The clock does not run backwards from `t`, and stops by `end`.
abbrev pub Forward : ℕ → List ℕ → ℕ → Type 0
Forward t [] end = t ≤ end
Forward t (u ∷ us) end = (t ≤ u) × Forward u us end

Forward-le : (t : ℕ) (ts : List ℕ) (end : ℕ) → Forward t ts end → t ≤ end
Forward-le t [] end h = h
Forward-le t (u ∷ us) end h = omega (arith, h.0, Forward-le u us end h.1)

-- Two spans of time earn what the whole does.
earned_sum : (t u end p : ℕ) → t ≤ u → u ≤ end → (u - t) * p + (end - u) * p ≡ (end - t) * p
earned_sum t u end p h k = grind arith

-- One call and the calls behind it.
add_up :
    (got : Bool) (n one v v' tokens a b c off calls : ℕ)
    → (if got then one else 0) + v ≤ tokens + a + off
    → n * one + v' ≤ v + b + calls * off
    → a + b ≡ c
    → (if got then suc n else n) * one + v' ≤ tokens + c + suc calls * off
add_up got n one v v' tokens a b c off calls h k e =
    let more : suc calls * off ≡ off + calls * off = grind arith in
    elim (Bool-cases got) [
      | inl e' ↦ rw e' (omega (arith, rw e' at h))
      | inr e' ↦ rw e' (omega (arith, rw e' at h))
    ]

module _ (fl : Float64) (rate : fl.F) (IsAmount : fl.F → Type 0) (value : fl.F → ℕ)
    (low high slack roof : ℕ) (rounded : IsRounded fl rate IsAmount value low high slack roof) where
  -- A bucket that limits, at this rate, last refilled at `t`, with amounts in it and a burst of at
  -- most `roof`.
  pub record IsAt (t : ℕ) (tb : TokenBucket fl.F) : Type 0 where
    pub limited : tb.unlimited ≡ false
    pub at_rate : tb.refill_rate ≡ rate
    pub refilled : tb.last_refill ≡ pos t
    pub held : IsAmount tb.tokens
    pub burst : IsAmount tb.max_tokens
    pub roofed : value tb.max_tokens ≤ roof

  -- What the bucket holds after a refill, before it is cut to the burst.
  abbrev pub filled_up : ℕ → ℕ → TokenBucket fl.F → fl.F
  filled_up t u tb = fl.plus tb.tokens (fl.times (fl.seconds (pos (u - t))) rate)

  pub filled_up-IsAmount :
      (t u : ℕ) (tb : TokenBucket fl.F) → IsAt t tb → u < 2 ^ 63 → IsAmount (filled_up t u tb)
  filled_up-IsAmount t u tb at fits =
      rounded.plus_amount tb.tokens _ at.held (rounded.earned_amount (u - t) (omega arith))

  pub refill_tokens :
      (t u : ℕ) (tb : TokenBucket fl.F)
      → IsAt t tb
      → t ≤ u
      → u < 2 ^ 63
      → (refill fl (pos u) tb).tokens
        ≡ (if fl.lt tb.max_tokens (filled_up t u tb) then tb.max_tokens else filled_up t u tb)
  unfolding refill
  refill_tokens t u tb at h fits = rw (at.refilled, elapsed_exact t u h fits, at.at_rate) refl

  pub refill-IsAt :
      (t u : ℕ) (tb : TokenBucket fl.F)
      → IsAt t tb
      → t ≤ u
      → u < 2 ^ 63
      → IsAt u (refill fl (pos u) tb)
  unfolding refill
  refill-IsAt t u tb at h fits = record {
    limited = at.limited;
    at_rate = at.at_rate;
    refilled = refl;
    held =
        subst IsAmount (sym (refill_tokens t u tb at h fits))
          (clamped-le fl rate IsAmount value low high slack roof rounded tb.max_tokens
            (filled_up t u tb) at.burst (filled_up-IsAmount t u tb at fits)).2;
    burst = at.burst;
    roofed = at.roofed;
  }

  pub refill-roof :
      (u : ℕ) (tb : TokenBucket fl.F) → (refill fl (pos u) tb).max_tokens ≡ tb.max_tokens
  unfolding refill
  refill-roof u tb = refl

  refill-budget :
      (t u : ℕ) (tb : TokenBucket fl.F)
      → IsAt t tb
      → t ≤ u
      → u < 2 ^ 63
      → (value (refill fl (pos u) tb).tokens ≤ value tb.tokens + (u - t) * high + slack)
        × (value (refill fl (pos u) tb).tokens ≤ value tb.max_tokens)
  refill-budget t u tb at h fits =
      let earned = fl.times (fl.seconds (pos (u - t))) rate in
      let (c1, c2, c3) =
        clamped-le fl rate IsAmount value low high slack roof rounded tb.max_tokens
          (filled_up t u tb) at.burst (filled_up-IsAmount t u tb at fits) in
      let earned_most = rounded.earned_upper (u - t) (omega arith) in
      let off =
        cut_or_off _ (value (filled_up t u tb)) (value tb.max_tokens)
          (value tb.tokens + value earned) slack c1 c2
          (λ low_.
            rounded.plus_upper tb.tokens earned at.held
              (rounded.earned_amount (u - t) (omega arith)) (omega (arith, at.roofed))) in
      rw (refill_tokens t u tb at h fits) (omega arith, c2)

  take_one-budget :
      (u : ℕ) (tb : TokenBucket fl.F)
      → IsAt u tb
      → value tb.tokens ≤ value tb.max_tokens
      → IsAt u (take_one fl tb).1
        × ((take_one fl tb).1.max_tokens ≡ tb.max_tokens)
        × ((if (take_one fl tb).0 then value fl.one else 0) + value (take_one fl tb).1.tokens
            ≤ value tb.tokens + slack)
        × (value (take_one fl tb).1.tokens ≤ value tb.tokens)
  unfolding take_one
  take_one-budget u tb at full = elim (Bool-cases (fl.le fl.one tb.tokens)) [
    | inl e ↦
        let enough = rounded.le_true fl.one tb.tokens rounded.one_amount at.held e in
        rw e (
          record {
            limited = at.limited;
            at_rate = at.at_rate;
            refilled = at.refilled;
            held = rounded.minus_amount tb.tokens at.held enough;
            burst = at.burst;
            roofed = at.roofed;
          },
          refl,
          omega (
            arith,
            at.roofed,
            rounded.minus_upper tb.tokens at.held enough (omega (arith, at.roofed)),
          ),
          rounded.minus_less tb.tokens at.held enough,
        )
    | inr e ↦ rw e (at, refl, omega arith, omega arith)
  ]

  pub limited_acquire :
      (t u : ℕ) (tb : TokenBucket fl.F)
      → IsAt t tb
      → try_acquire fl (pos u) tb ≡ take_one fl (refill fl (pos u) tb)
  unfolding try_acquire
  limited_acquire t u tb at =
      ap {B = Bool × TokenBucket fl.F}
        (λ b. if b then (true, tb) else take_one fl (refill fl (pos u) tb)) at.limited

  try_acquire-budget :
      (t u : ℕ) (tb : TokenBucket fl.F)
      → IsAt t tb
      → t ≤ u
      → u < 2 ^ 63
      → IsAt u (try_acquire fl (pos u) tb).1
        × ((try_acquire fl (pos u) tb).1.max_tokens ≡ tb.max_tokens)
        × ((if (try_acquire fl (pos u) tb).0 then value fl.one else 0)
              + value (try_acquire fl (pos u) tb).1.tokens
            ≤ value tb.tokens + (u - t) * high + 2 * slack)
        × (value (try_acquire fl (pos u) tb).1.tokens ≤ value tb.max_tokens)
  try_acquire-budget t u tb at h fits =
      let full = refill fl (pos u) tb in
      let (b1, b2) = refill-budget t u tb at h fits in
      let same = refill-roof u tb in
      let (c1, c2, c3, c4) = take_one-budget u full (refill-IsAt t u tb at h fits) (rw same b2) in
      rw (limited_acquire t u tb at) (c1, c2 ∙ same, omega arith, omega arith)

  -- A bucket that limits, and holds no more than its burst, keeps its rate until 2^63 ns, with
  -- float64 that rounds, up to a roof that the burst does not exceed. Over any calls of TryAcquire
  -- at times that do not run backwards, the tokens given out and left are at most those there at
  -- the beginning, what the time that has passed brings at the rate, rounded up, and two roundings
  -- for each call; and what is left never exceeds the burst.
  pub keeps_rate :
      (ts : List ℕ) (t end : ℕ) (tb : TokenBucket fl.F)
      → IsAt t tb
      → Forward t ts end
      → end < 2 ^ 63
      → value tb.tokens ≤ value tb.max_tokens
      → let (n, tb') = acquires fl ts tb in
        (n * value fl.one + value tb'.tokens
          ≤ value tb.tokens + (end - t) * high + length ts * (2 * slack))
        × (value tb'.tokens ≤ value tb.max_tokens)
  unfolding acquires
  keeps_rate [] t end tb at forward fits full = (omega arith, full)
  keeps_rate (u ∷ ts) t end tb at (h, forward) fits full =
      let last = Forward-le u ts end forward in
      let step = try_acquire-budget t u tb at h (omega arith) in
      let ih =
        keeps_rate ts u end (try_acquire fl (pos u) tb).1 step.0 forward fits
          (rw step.1 (omega (arith, step.3))) in
      (
        add_up (try_acquire fl (pos u) tb).0 _ (value fl.one) _ _ (value tb.tokens) _ _ _
            (2 * slack) (length ts) step.2 ih.0 (earned_sum t u end high h last),
        rw step.1 at ih.1,
      )
