-- ===== src/RateLimit/Bucket/Waiting.antt =====
-- The loop of `WaitContext` ends (ratelimit.go).
use go_httpclient.Shared.{
  ℕ, zero, suc, ◌+◌, ◌-◌, ◌*◌, ◌^◌, ◌≤◌, ◌<◌, ◌≡◌, refl, ◌∙◌, Bool, true, false, Option, none, some,
  arith, if◌then◌else◌, inl, inr, Bool-cases,
}
use go_httpclient.Shared.Int.{ℤ, pos, ◌+ℤ◌, max_ℤ}
use go_httpclient.Shared.Float.{Float64}
use go_httpclient.Http.Error.{Err}
use go_httpclient.Http.Message.{Context}
use go_httpclient.Http.World.{World, done, select}
use go_httpclient.Http.World.Select.{select_fires, select_stopped}
use go_httpclient.RateLimit.Bucket.{
  TokenBucket, refill, take_one, try_acquire, wait_context, after_try, after_select,
}
use go_httpclient.RateLimit.Bucket.Rounding.{IsRounded}
use go_httpclient.RateLimit.Bucket.Rate.{
  IsAt, limited_acquire, refill-IsAt, filled_up, filled_up-IsAmount, refill_tokens, refill-roof,
}

true-ne-false : ¬ (true ≡ false)
true-ne-false h = cc

fire_time : (u wait : ℕ) → max_ℤ (pos u) (pos u +ℤ pos wait) ≡ pos (u + wait)
unfolding ◌+ℤ◌
fire_time u wait = ground arith

-- What a round's wait brings is what the rounds left need less.
one_more_wait :
    (one tokens tokens' t u wait f per slack : ℕ)
    → tokens + (u - t) * per ≤ tokens' + slack
    → one + suc (suc f) * slack ≤ tokens + (u - t) * per + suc f * (wait * per)
    → one + suc f * slack ≤ tokens' + (u + wait - u) * per + f * (wait * per)
one_more_wait one tokens tokens' t u wait f per slack h k =
    let same : u + wait - u ≡ wait = omega arith in rw same (grind arith)

module _ (fl : Float64) (rate : fl.F) (IsAmount : fl.F → Type 0) (value : fl.F → ℕ)
    (low high slack roof : ℕ) (rounded : IsRounded fl rate IsAmount value low high slack roof) where
  -- A bucket that a call finds with less than a token has all that it had and what time brought,
  -- but for a rounding.
  record IsShort (t u : ℕ) (tb tb' : TokenBucket fl.F) : Type 0 where
    pub at : IsAt fl rate IsAmount value low high slack roof rounded u tb'
    pub filled : value tb.tokens + (u - t) * low ≤ value tb'.tokens + slack
    pub full : tb'.max_tokens ≡ tb.max_tokens
    pub wait : tb'.wait_time ≡ tb.wait_time
    pub short : value tb'.tokens < value fl.one

  failed_take :
      (tb : TokenBucket fl.F)
      → IsAmount tb.tokens
      → (take_one fl tb).0 ≡ false
      → ((take_one fl tb).1 ≡ tb) × (value tb.tokens < value fl.one)
  unfolding take_one
  failed_take tb amount h = elim (Bool-cases (fl.le fl.one tb.tokens)) [
    | inl e ↦ absurd (true-ne-false (rw e at h))
    | inr e ↦ (rw e, rounded.le_false fl.one tb.tokens rounded.one_amount amount e)
  ]

  refill-unclamped :
      (t u : ℕ) (tb : TokenBucket fl.F)
      → IsAt fl rate IsAmount value low high slack roof rounded t tb
      → t ≤ u
      → u < 2 ^ 63
      → value fl.one ≤ value tb.max_tokens
      → value (refill fl (pos u) tb).tokens < value fl.one
      → value tb.tokens + (u - t) * low ≤ value (refill fl (pos u) tb).tokens + slack
  refill-unclamped t u tb at h fits room short =
      let earned = fl.times (fl.seconds (pos (u - t))) rate in
      let total = filled_up fl rate IsAmount value low high slack roof rounded t u tb in
      let amount =
        filled_up-IsAmount fl rate IsAmount value low high slack roof rounded t u tb at fits in
      let opened =
        refill_tokens fl rate IsAmount value low high slack roof rounded t u tb at h fits in
      elim (Bool-cases (fl.lt tb.max_tokens total)) [
        | inl e ↦ absurd (full_or_short total e room (rw opened at short))
        | inr e ↦
            let under = rounded.lt_false tb.max_tokens total at.burst amount e in
            rw (opened, e)
              (omega (
                arith,
                at.roofed,
                rounded.earned_lower (u - t) (omega arith),
                rounded.plus_lower tb.tokens earned at.held
                    (rounded.earned_amount (u - t) (omega arith)) (omega (arith, at.roofed)),
              ))
      ]
    where
      full_or_short :
          (total : fl.F)
          → fl.lt tb.max_tokens total ≡ true
          → value fl.one ≤ value tb.max_tokens
          → value (if fl.lt tb.max_tokens total then tb.max_tokens else total) < value fl.one
          → ⊥
      full_or_short total e room short = omega (arith, rw e at short)

  refill-wait : (u : ℕ) (tb : TokenBucket fl.F) → (refill fl (pos u) tb).wait_time ≡ tb.wait_time
  unfolding refill
  refill-wait u tb = refl

  try_acquire-IsShort :
      (t u : ℕ) (now : ℤ) (tb : TokenBucket fl.F)
      → now ≡ pos u
      → IsAt fl rate IsAmount value low high slack roof rounded t tb
      → t ≤ u
      → u < 2 ^ 63
      → value fl.one ≤ value tb.max_tokens
      → (try_acquire fl now tb).0 ≡ false
      → IsShort t u tb (try_acquire fl now tb).1
  try_acquire-IsShort t u now tb is_now at h fits room = rw is_now (λ failed.
      let same = limited_acquire fl rate IsAmount value low high slack roof rounded t u tb at in
      let refilled =
        refill-IsAt fl rate IsAmount value low high slack roof rounded t u tb at h fits in
      let (left, short) = failed_take (refill fl (pos u) tb) refilled.held (rw same at failed) in
      rw (same, left)
        (record {
          at = refilled;
          filled = refill-unclamped t u tb at h fits room short;
          full = refill-roof fl rate IsAmount value low high slack roof rounded u tb;
          wait = refill-wait u tb;
          short = short;
        }))

  -- What a waiting caller gets: an answer, and it is a token unless the context ends.
  abbrev IsAnswer : Context → Option (Option Err) × TokenBucket fl.F × World → Type 0
  IsAnswer ctx out = (r : Option Err) × (out.0 ≡ some r) × (done ctx ≡ none → r ≡ none)

  after_select-IsAnswer :
      (sel : Option Err × World) (ctx : Context) (tb : TokenBucket fl.F)
      (again : World → Option (Option Err) × TokenBucket fl.F × World)
      → ((e : Err) → sel.0 ≡ some e → ¬ (done ctx ≡ none))
      → (sel.0 ≡ none → IsAnswer ctx (again sel.1))
      → IsAnswer ctx (after_select fl sel tb again)
  unfolding after_select
  after_select-IsAnswer (some e, w) ctx tb again ends next =
      (some e, refl, λ never. absurd (ends e refl never))
  after_select-IsAnswer (none, w) ctx tb again ends next = next refl

  after_try-IsAnswer :
      (out : Bool × TokenBucket fl.F) (ctx : Context) (w : World)
      (again : TokenBucket fl.F → World → Option (Option Err) × TokenBucket fl.F × World)
      → (out.0 ≡ false
          → IsAnswer ctx (after_select fl (select ctx out.1.wait_time w) out.1 (again out.1)))
      → IsAnswer ctx (after_try fl out ctx w again)
  unfolding after_try
  after_try-IsAnswer (true, tb) ctx w again next = (none, refl, λ never. refl)
  after_try-IsAnswer (false, tb) ctx w again next = next refl

  never_stopped :
      (ctx : Context) (d : ℤ) (w : World) (e : Err)
      → (select ctx d w).0 ≡ some e
      → ¬ (done ctx ≡ none)
  never_stopped ctx d w e h never = let (at, ended) = select_stopped ctx d e w h in cc

  fired :
      (ctx : Context) (u wait : ℕ) (d : ℤ) (w : World)
      → w.now ≡ pos u
      → d ≡ pos wait
      → (select ctx d w).0 ≡ none
      → (select ctx d w).1.now ≡ pos (u + wait)
  fired ctx u wait d w now is_wait h = select_fires ctx d w h ∙ rw (now, is_wait) (fire_time u wait)

  -- With float64 that rounds, up to a roof that the burst does not exceed, `WaitContext` ends on a
  -- bucket that limits and holds at least one token when it is full, where nobody else uses the
  -- bucket. If what the bucket holds, with what time has brought and what `f` waits will bring,
  -- rounded down, makes a token and a rounding for each of `f + 1` attempts, all before 2^63 ns,
  -- then fuel for those attempts is enough: the call answers, and it answers with a token if its
  -- context never ends.
  pub wait_context_returns :
      (f t u wait : ℕ) (ctx : Context) (tb : TokenBucket fl.F) (w : World)
      → IsAt fl rate IsAmount value low high slack roof rounded t tb
      → t ≤ u
      → w.now ≡ pos u
      → tb.wait_time ≡ pos wait
      → value fl.one ≤ value tb.max_tokens
      → value fl.one + suc f * slack ≤ value tb.tokens + (u - t) * low + f * (wait * low)
      → u + f * wait < 2 ^ 63
      → IsAnswer ctx (wait_context fl (suc f) ctx tb w)
  unfolding wait_context
  wait_context_returns zero t u wait ctx tb w at h now is_wait room enough fits =
      after_try-IsAnswer (try_acquire fl w.now tb) ctx w _ (λ failed.
        let s = try_acquire-IsShort t u w.now tb now at h (omega arith) room failed in
        absurd (omega (arith, s.filled, s.short)))
  wait_context_returns (suc f) t u wait ctx tb w at h now is_wait room enough fits =
      after_try-IsAnswer (try_acquire fl w.now tb) ctx w _ (λ failed.
        let tb' = (try_acquire fl w.now tb).1 in
        let s = try_acquire-IsShort t u w.now tb now at h (omega arith) room failed in
        after_select-IsAnswer (select ctx tb'.wait_time w) ctx tb' _
          (never_stopped ctx tb'.wait_time w)
          (λ passed.
            wait_context_returns f u (u + wait) wait ctx tb' (select ctx tb'.wait_time w).1 s.at
              (omega arith) (fired ctx u wait tb'.wait_time w now (s.wait ∙ is_wait) passed)
              (s.wait ∙ is_wait) (rw s.full room)
              (one_more_wait _ _ _ t u wait f low slack s.filled enough) (grind arith)))
