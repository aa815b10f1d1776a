-- ===== src/Http/World/Select.antt =====
-- What a `select` between a context's end and a timer can do.
use go_httpclient.Shared.{◌≡◌, refl, Option, none, some, arith}
use go_httpclient.Shared.Int.{ℤ, pos, ◌+ℤ◌, ◌≤ℤ◌, ◌<ℤ◌, max_ℤ, +ℤ_parts}
use go_httpclient.Http.Error.{Err}
use go_httpclient.Http.Message.{Context}
use go_httpclient.Http.World.{World, select, select_at, select_with, toss, done}

toss-events : (e : Err) (w : World) → (toss e w).1.events ≡ w.events
toss-events e w = ground arith

select_at-events :
    (fire : ℤ) (end : ℤ × Err) (w : World) → (select_at fire end w).1.events ≡ w.events
unfolding select_at
select_at-events fire (at, e) w = ground arith

select_with-events :
    (end : Option (ℤ × Err)) (fire : ℤ) (w : World) → (select_with end fire w).1.events ≡ w.events
unfolding select_with
select_with-events none fire w = refl
select_with-events (some end) fire w = select_at-events fire end w

-- It records nothing.
pub select-events : (ctx : Context) (d : ℤ) (w : World) → (select ctx d w).1.events ≡ w.events
unfolding select
select-events ctx d w = select_with-events (done ctx) _ w

-- A context that is done stops a wait of positive duration at once, with the context's error.
pub select-done :
    (ctx : Context) (d at : ℤ) (e : Err) (w : World)
    → done ctx ≡ some (at, e)
    → at ≤ℤ w.now
    → pos 0 <ℤ d
    → select ctx d w ≡ (some e, w)
unfolding select select_at
select-done ctx d at e w is_done past long = rw is_done (ground (arith, +ℤ_parts w.now d))

toss_stopped : (x e : Err) (w : World) → (toss x w).0 ≡ some e → x ≡ e
toss_stopped x e w h = ground arith

select_with_stopped :
    (end : Option (ℤ × Err)) (fire : ℤ) (e : Err) (w : World)
    → (select_with end fire w).0 ≡ some e
    → (at : ℤ) × (end ≡ some (at, e))
unfolding select_with
select_with_stopped none fire e w h = cc
select_with_stopped (some (at, x)) fire e w h = (at, ground arith)

-- The error with which it stops is the context's.
pub select_stopped :
    (ctx : Context) (d : ℤ) (e : Err) (w : World)
    → (select ctx d w).0 ≡ some e
    → (at : ℤ) × (done ctx ≡ some (at, e))
unfolding select
select_stopped ctx d e w h = select_with_stopped (done ctx) _ e w h

select_at_passed :
    (fire : ℤ) (end : ℤ × Err) (w : World)
    → (select_at fire end w).0 ≡ none
    → fire ≤ℤ (select_at fire end w).1.now
unfolding select_at
select_at_passed fire (at, e) w h = ground arith

select_with_passed :
    (end : Option (ℤ × Err)) (fire : ℤ) (w : World)
    → (select_with end fire w).0 ≡ none
    → fire ≤ℤ (select_with end fire w).1.now
unfolding select_with
select_with_passed none fire w h = omega arith
select_with_passed (some end) fire w h = select_at_passed fire end w h

max_ℤ-ge : (a b c : ℤ) → max_ℤ a b ≤ℤ c → b ≤ℤ c
max_ℤ-ge a b c h = ground arith

-- Where the timer fires, its time has come.
pub select_passed :
    (ctx : Context) (d : ℤ) (w : World)
    → (select ctx d w).0 ≡ none
    → w.now +ℤ d ≤ℤ (select ctx d w).1.now
unfolding select
select_passed ctx d w h = max_ℤ-ge w.now (w.now +ℤ d) _ (select_with_passed (done ctx) _ w h)

select_at_in_time :
    (fire at : ℤ) (e : Err) (w : World)
    → w.now <ℤ fire
    → (select_at fire (at, e) w).0 ≡ none
    → (select_at fire (at, e) w).1.now ≤ℤ at
unfolding select_at
select_at_in_time fire at e w later h = ground arith

max_ℤ-gt : (a d : ℤ) → pos 0 <ℤ d → a <ℤ max_ℤ a (a +ℤ d)
max_ℤ-gt a d h = ground (arith, +ℤ_parts a d)

-- A timer of positive duration does not fire behind the context's end.
pub select_in_time :
    (ctx : Context) (d at : ℤ) (e : Err) (w : World)
    → done ctx ≡ some (at, e)
    → pos 0 <ℤ d
    → (select ctx d w).0 ≡ none
    → (select ctx d w).1.now ≤ℤ at
unfolding select select_with
select_in_time ctx d at e w is_done long h =
    rw is_done (
      select_at_in_time (max_ℤ w.now (w.now +ℤ d)) at e w (max_ℤ-gt w.now d long) (rw is_done at h))

select_at_fires :
    (fire : ℤ) (end : ℤ × Err) (w : World)
    → (select_at fire end w).0 ≡ none
    → (select_at fire end w).1.now ≡ fire
unfolding select_at
select_at_fires fire (at, e) w h = ground arith

select_with_fires :
    (end : Option (ℤ × Err)) (fire : ℤ) (w : World)
    → (select_with end fire w).0 ≡ none
    → (select_with end fire w).1.now ≡ fire
unfolding select_with
select_with_fires none fire w h = refl
select_with_fires (some end) fire w h = select_at_fires fire end w h

-- Where the timer fires, it is that time.
pub select_fires :
    (ctx : Context) (d : ℤ) (w : World)
    → (select ctx d w).0 ≡ none
    → (select ctx d w).1.now ≡ max_ℤ w.now (w.now +ℤ d)
unfolding select
select_fires ctx d w h = select_with_fires (done ctx) _ w h

select_at-now_le :
    (fire : ℤ) (end : ℤ × Err) (w : World) → w.now ≤ℤ fire → (select_at fire end w).1.now ≤ℤ fire
unfolding select_at
select_at-now_le fire (at, e) w h = ground arith

select_with-now_le :
    (end : Option (ℤ × Err)) (fire : ℤ) (w : World)
    → w.now ≤ℤ fire
    → (select_with end fire w).1.now ≤ℤ fire
unfolding select_with
select_with-now_le none fire w h = omega arith
select_with-now_le (some end) fire w h = select_at-now_le fire end w h

max_ℤ-ge_left : (a b : ℤ) → a ≤ℤ max_ℤ a b
max_ℤ-ge_left a b = ground arith

-- It ends no later than the timer fires.
pub select-now_le :
    (ctx : Context) (d : ℤ) (w : World) → (select ctx d w).1.now ≤ℤ max_ℤ w.now (w.now +ℤ d)
unfolding select
select-now_le ctx d w = select_with-now_le (done ctx) _ w (max_ℤ-ge_left w.now (w.now +ℤ d))

select_at-breakers :
    (fire : ℤ) (end : ℤ × Err) (w : World) → (select_at fire end w).1.breakers ≡ w.breakers
unfolding select_at
select_at-breakers fire (at, e) w = ground arith

select_with-breakers :
    (end : Option (ℤ × Err)) (fire : ℤ) (w : World)
    → (select_with end fire w).1.breakers ≡ w.breakers
unfolding select_with
select_with-breakers none fire w = refl
select_with-breakers (some end) fire w = select_at-breakers fire end w

-- It does nothing to a breaker.
pub select-breakers : (ctx : Context) (d : ℤ) (w : World) → (select ctx d w).1.breakers ≡ w.breakers
unfolding select
select-breakers ctx d w = select_with-breakers (done ctx) _ w
