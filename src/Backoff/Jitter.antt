-- ===== src/Backoff/Jitter.antt =====
-- The strategies with random numbers (backoff.go). float64 is `fl`; `rand n` is the n-th value that
-- `rand.Float64()` returns. The shifted product and the sum of a wait and its jitter are int64.
use go_httpclient.Shared.{
  ℕ, ◌+◌, ◌-◌, ◌/◌, ◌≡◌, refl, true, false, Option, if◌then◌else◌, ◌==◌, ==_refl, arith, update,
  Bool-cases, inl, inr, ◌≢◌,
}
use go_httpclient.Shared.Int.{ℤ, pos, negsuc, ◌+ℤ◌, ◌≤ℤ◌, ltb_ℤ, min_ℤ, wrap64}
use go_httpclient.Shared.Float.{Float64}
use go_httpclient.Http.Message.{Response}
use go_httpclient.Http.World.{World}
use go_httpclient.Backoff.{BackoffFunc, overflows_exp, exponential}

-- `d / 2` of a duration: Go's division drops the fraction.
abbrev half_of : ℤ → ℤ
half_of (pos n) = pos (n / 2)
half_of (negsuc n) = if (n + 1) / 2 == 0 then pos 0 else negsuc ((n + 1) / 2 - 1)

floored-ge : (d : ℤ) → pos 0 ≤ℤ (if ltb_ℤ d (pos 0) then pos 0 else d)
floored-ge d = ground arith

min_ℤ-le : (a b : ℤ) → min_ℤ a b ≤ℤ b
min_ℤ-le a b = ground arith

==_true : (a b : ℕ) → a ≡ b → (a == b) ≡ true
==_true a b h = ground arith

==_false : (a b : ℕ) → a ≢ b → (a == b) ≡ false
==_false a b h = ground arith

module _ (fl : Float64) (rand : ℕ → fl.F) where
  open fl use {F, of_int, trunc, plus, minus, times, lt, le, nought, fifth, one, two, three}

  -- `rand.Float64()`
  abbrev drawn : World → World
  drawn w = record w { draws = w.draws + 1 }

  -- `float64(d) * fraction * (rand.Float64()*2 - 1)`, as a duration.
  unfoldable pub jitter : ℤ → F → World → ℤ
  jitter d fraction w =
      trunc (times (times (of_int d) fraction) (minus (times (rand w.draws) two) one))

  -- `ExponentialBackoff`
  unfoldable pub exponential_backoff : ℤ → ℤ → BackoffFunc
  exponential_backoff base max_duration attempt resp w =
      if overflows_exp base attempt
      then (max_duration, w)
      else (let backoff = exponential base max_duration attempt in
          (wrap64 (backoff +ℤ jitter backoff fifth w), drawn w))

  -- `DecorrelatedJitterBackoff`; its state is at a pointer `p`.
  unfoldable pub decorrelated_jitter_backoff : ℕ → ℤ → ℤ → BackoffFunc
  decorrelated_jitter_backoff p base max_duration attempt resp w =
      if attempt == 0
      then (base, record w { last_backoff = update w.last_backoff p base })
      else (let min_val = of_int base in
          let max_val = times (of_int (w.last_backoff p)) three in
          let backoff =
            min_ℤ (trunc (plus min_val (times (rand w.draws) (minus max_val min_val))))
              max_duration in
          (backoff, record (drawn w) { last_backoff = update w.last_backoff p backoff }))

  -- `ExponentialBackoffFullJitter`
  unfoldable pub exponential_backoff_full_jitter : ℤ → ℤ → BackoffFunc
  exponential_backoff_full_jitter base max_duration attempt resp w =
      if overflows_exp base attempt
      then (max_duration, w)
      else (trunc (times (rand w.draws) (of_int (exponential base max_duration attempt))), drawn w)

  -- `ExponentialBackoffEqualJitter`
  unfoldable pub exponential_backoff_equal_jitter : ℤ → ℤ → BackoffFunc
  exponential_backoff_equal_jitter base max_duration attempt resp w =
      if overflows_exp base attempt
      then (max_duration, w)
      else (let half = half_of (exponential base max_duration attempt) in
          (wrap64 (half +ℤ trunc (times (rand w.draws) (of_int half))), drawn w))

  -- `WithJitter`
  unfoldable pub with_jitter : BackoffFunc → F → BackoffFunc
  with_jitter backoff fraction attempt resp w =
      if le fraction nought
      then backoff attempt resp w
      else (let fraction' = if lt one fraction then one else fraction in
          let (d, w') = backoff attempt resp w in
          let result = wrap64 (d +ℤ jitter d fraction' w') in
          (if ltb_ℤ result (pos 0) then pos 0 else result, drawn w'))

  -- What the jitter leaves certain, whatever random numbers come: where base * 2^attempt overflows,
  -- each of the three exponential strategies waits the cap and draws nothing.
  pub overflow_waits_cap :
      (base max_duration : ℤ) (attempt : ℕ) (resp : Option Response) (w : World)
      → overflows_exp base attempt ≡ true
      → (exponential_backoff base max_duration attempt resp w ≡ (max_duration, w))
        × (exponential_backoff_full_jitter base max_duration attempt resp w ≡ (max_duration, w))
        × (exponential_backoff_equal_jitter base max_duration attempt resp w ≡ (max_duration, w))
  unfolding exponential_backoff exponential_backoff_full_jitter exponential_backoff_equal_jitter
  overflow_waits_cap base max_duration attempt resp w h = rw h (refl, refl, refl)

  -- Whatever random numbers come, WithJitter never waits a negative time where its fraction is
  -- positive; and the decorrelated strategy, where its base is at most the cap, never waits longer
  -- than the cap, and keeps what it last answered for the next call.
  pub jitter_bounds :
      (backoff : BackoffFunc) (fraction : F) (p : ℕ) (base max_duration : ℤ) (attempt : ℕ)
      (resp : Option Response) (w : World)
      → let decorrelated = decorrelated_jitter_backoff p base max_duration attempt resp w in
        (le fraction nought ≡ false → pos 0 ≤ℤ (with_jitter backoff fraction attempt resp w).0)
        × (base ≤ℤ max_duration → decorrelated.0 ≤ℤ max_duration)
        × (decorrelated.1.last_backoff p ≡ decorrelated.0)
  unfolding with_jitter decorrelated_jitter_backoff
  jitter_bounds backoff fraction p base max_duration attempt resp w = (
    λ positive. rw positive (floored-ge (wrap64 _)),
    λ below. elim (Bool-cases (attempt == 0)) [
      | inl e ↦ rw e below
      | inr e ↦ rw e (min_ℤ-le _ max_duration)
    ],
    decorrelated_remembers,
  )
    where
      decorrelated_remembers :
          let d = decorrelated_jitter_backoff p base max_duration attempt resp w in
          d.1.last_backoff p ≡ d.0
      decorrelated_remembers = elim (Bool-cases (attempt == 0)) [
        | inl e ↦ rw (e, ==_refl p)
        | inr e ↦ rw (e, ==_refl p)
      ]
