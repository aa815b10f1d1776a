-- ===== src/Backoff/Fibonacci.antt =====
-- The Fibonacci strategy (backoff.go, `fibonacci` and `FibonacciBackoff`).
use go_httpclient.Shared.{
  ℕ, zero, suc, ◌+◌, ◌-◌, ◌*◌, ◌^◌, ◌≤◌, ◌<◌, ◌≡◌, refl, sym, arith, ◌∙◌, ap, false, leb,
}
use go_httpclient.Shared.Int.{pos, ◌+ℤ◌, min_ℤ, wrap64, wrap64_id, *ℤ_pos}
use go_httpclient.Backoff.{fibonacci_loop, fibonacci, fibonacci_delay}

-- The sequence, by its recurrence.
unfoldable pub fib : ℕ → ℕ
fib zero = 0
fib (suc zero) = 1
fib (suc (suc n)) = fib (suc n) + fib n

-- Two neighbours, in linear time.
neighbours : ℕ → ℕ × ℕ
neighbours zero = (0, 1)
neighbours (suc n) = let (a, b) = neighbours n in (b, a + b)

neighbours_lem : (n : ℕ) → (neighbours n).0 ≡ fib n × (neighbours n).1 ≡ fib (suc n)
unfolding neighbours fib
neighbours_lem zero = (refl, refl)
neighbours_lem (suc n) = let ih = neighbours_lem n in (ih.1, omega arith)

fib_mono : (n : ℕ) → fib n ≤ fib (suc n)
unfolding fib
fib_mono zero = omega arith
fib_mono (suc n) = omega arith

fib-le : (n d m : ℕ) → n + d ≡ m → fib n ≤ fib m
fib-le n zero m e = let same : n ≡ m = omega arith in rw same (omega arith)
fib-le n (suc d) m e =
    let before = fib-le n d (n + d) refl in
    let step = fib_mono (n + d) in
    let next : suc (n + d) ≡ m = omega arith in rw (← next) (omega arith)

fib_fits : (n : ℕ) → n ≤ 92 → fib n < 2 ^ 63
unfolding neighbours
fib_fits n h =
    let last : fib 92 ≡ 7_540_113_804_746_346_429 = sym (neighbours_lem 92).0 in
    omega (arith, fib-le n (92 - n) 92 (omega arith))

-- One round of the loop is exact.
step_exact :
    (i : ℕ) → suc (suc i) ≤ 92 → wrap64 (pos (fib i) +ℤ pos (fib (suc i))) ≡ pos (fib (suc (suc i)))
unfolding fib ◌+ℤ◌
step_exact i h =
    let bound : fib (suc (suc i)) < 2 ^ 63 = fib_fits (suc (suc i)) h in
    ground (arith, wrap64_id (pos (fib (suc (suc i)))))

loop-eq-fib :
    (k i : ℕ)
    → suc i + k ≤ 92
    → fibonacci_loop k (pos (fib i)) (pos (fib (suc i))) ≡ pos (fib (suc i + k))
unfolding fibonacci_loop
loop-eq-fib zero i h = let e : suc i ≡ suc i + 0 = omega arith in rw (← e)
loop-eq-fib (suc k) i h =
    let e : suc (suc i) + k ≡ suc i + suc k = omega arith in
    rw (step_exact i (omega arith), ← e) (loop-eq-fib k (suc i) (omega arith))

-- `fibonacci(n)` is the n-th Fibonacci number from the first up to the 92nd, the last that is an
-- int64.
pub fibonacci-eq-fib : (n : ℕ) → 0 < n → n ≤ 92 → fibonacci n ≡ pos (fib n)
unfolding fibonacci fib
fibonacci-eq-fib zero h fits = absurd (omega arith)
fibonacci-eq-fib (suc zero) h fits = refl
fibonacci-eq-fib (suc (suc zero)) h fits = refl
fibonacci-eq-fib (suc (suc (suc n))) h fits =
    let large : leb (suc (suc (suc n))) 2 ≡ false = ground arith in
    let rounds : suc (suc (suc n)) - 2 ≡ suc n = omega arith in
    let last : 2 + suc n ≡ suc (suc (suc n)) = omega arith in
    rw (large, rounds) (loop-eq-fib (suc n) 1 (omega arith) ∙ ap (λ m. pos (fib m)) last)

-- Where base and cap are not negative, attempt is below 92 and base * fib(attempt + 1) is an int64,
-- FibonacciBackoff waits the smaller of it and the cap.
pub fibonacci_exact :
    (base limit attempt : ℕ)
    → attempt < 92
    → base * fib (attempt + 1) < 2 ^ 63
    → fibonacci_delay (pos base) (pos limit) attempt
      ≡ min_ℤ (pos (base * fib (attempt + 1))) (pos limit)
unfolding fibonacci_delay
fibonacci_exact base limit attempt small fits =
    rw
      (
        fibonacci-eq-fib (attempt + 1) (omega arith) (omega arith),
        *ℤ_pos,
        wrap64_id (pos (base * fib (attempt + 1))) (ground arith),
      )
      (ground arith)
