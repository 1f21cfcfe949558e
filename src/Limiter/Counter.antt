-- ===== src/Limiter/Counter.antt =====
-- The counter of the slow limiter: its bounds, and how a slow node recovers.
use zan_redis_db.Prelude.{ℕ, zero, suc, ◌-◌, ◌≤◌, ◌≡◌, ◌⊎◌, refl, ◌∙◌, arith, true, List, [], ◌∷◌}
use zan_redis_db.Bytes.{Bytes, lt_int64, add_int64, neg_int64}
use zan_redis_db.Limiter.{
  LimiterConf, SlowLimiter, mark_heavy_slow, clear_slows, decrement, tick, add_counter_only,
  add_slow, maybe_add_slow, can_pass, record_slow_cmd, turn_on, turn_off, max_slow_threshold,
  half_open_ts,
}

-- What the rest of the server does to the limiter.
pub data Call : Type 0 where
  tick_call : Call
  add_slow_call : ℕ → Call
  maybe_add_slow_call : ℕ → ℕ → Bytes → Bytes → Call
  can_pass_call : ℕ → Bytes → Bytes → Call
  record_slow_cmd_call : Bytes → Bytes → ℕ → Call
  mark_heavy_slow_call : ℕ → Call
  turn_on_call turn_off_call : Call

unfoldable pub call : LimiterConf → Call → SlowLimiter → SlowLimiter
call conf tick_call sl = tick conf sl
call conf (add_slow_call ts) sl = add_slow ts sl
call conf (maybe_add_slow_call ts cost cmd prefix) sl = maybe_add_slow conf ts cost cmd prefix sl
call conf (can_pass_call ts cmd prefix) sl = (can_pass conf ts cmd prefix sl).1
call conf (record_slow_cmd_call cmd prefix cost) sl = record_slow_cmd cmd prefix cost sl
call conf (mark_heavy_slow_call now) sl = mark_heavy_slow now sl
call conf turn_on_call sl = turn_on sl
call conf turn_off_call sl = turn_off sl

unfoldable pub calls : LimiterConf → List Call → SlowLimiter → SlowLimiter
calls conf [] sl = sl
calls conf (c ∷ cs) sl = calls conf cs (call conf c sl)

clear_slows-counter : (sl : SlowLimiter) → (clear_slows sl).slow_counter ≡ sl.slow_counter
unfolding clear_slows
clear_slows-counter sl = ground arith

pub decrement-cases :
    (conf : LimiterConf) (c : ℕ)
    → c ≤ 300
    → ((c ≡ 0) × (decrement conf c ≡ 1)) ⊎ ((1 ≤ decrement conf c) × (decrement conf c ≤ c))
unfolding decrement
decrement-cases conf c h = ground arith

pub tick_counter :
    (conf : LimiterConf) (sl : SlowLimiter)
    → sl.slow_counter ≤ 300
    → (tick conf sl).slow_counter ≡ sl.slow_counter - decrement conf sl.slow_counter
unfolding tick
tick_counter conf sl h = ground (
  arith,
  decrement-cases conf sl.slow_counter h,
  clear_slows-counter (record sl {
    slow_counter = add_int64 sl.slow_counter (neg_int64 (decrement conf sl.slow_counter));
  }),
)

tick-bound :
    (conf : LimiterConf) (sl : SlowLimiter)
    → sl.slow_counter ≤ 300
    → (tick conf sl).slow_counter ≤ 300
tick-bound conf sl h = omega (arith, tick_counter conf sl h)

add_counter_only-bound :
    (sl : SlowLimiter) → sl.slow_counter ≤ 300 → (add_counter_only sl).slow_counter ≤ 300
unfolding add_counter_only
add_counter_only-bound sl h = ground arith

add_slow-bound :
    (ts : ℕ) (sl : SlowLimiter) → sl.slow_counter ≤ 300 → (add_slow ts sl).slow_counter ≤ 300
unfolding add_slow
add_slow-bound ts sl h = add_counter_only-bound (record sl { last_slow_ts = ts }) h

maybe_add_slow-bound :
    (conf : LimiterConf) (ts cost : ℕ) (cmd prefix : Bytes) (sl : SlowLimiter)
    → sl.slow_counter ≤ 300
    → (maybe_add_slow conf ts cost cmd prefix sl).slow_counter ≤ 300
unfolding maybe_add_slow
maybe_add_slow-bound conf ts cost cmd prefix sl h = ground (arith, add_slow-bound ts sl h)

can_pass-bound :
    (conf : LimiterConf) (ts : ℕ) (cmd prefix : Bytes) (sl : SlowLimiter)
    → sl.slow_counter ≤ 300
    → (can_pass conf ts cmd prefix sl).1.slow_counter ≤ 300
unfolding can_pass
can_pass-bound conf ts cmd prefix sl h = ground (arith, add_counter_only-bound sl h)

record_slow_cmd-counter :
    (cmd prefix : Bytes) (cost : ℕ) (sl : SlowLimiter)
    → (record_slow_cmd cmd prefix cost sl).slow_counter ≡ sl.slow_counter
unfolding record_slow_cmd
record_slow_cmd-counter cmd prefix cost sl = ground arith

call-bound :
    (conf : LimiterConf) (c : Call) (sl : SlowLimiter)
    → sl.slow_counter ≤ 300
    → (call conf c sl).slow_counter ≤ 300
unfolding call mark_heavy_slow
call-bound conf tick_call sl h = tick-bound conf sl h
call-bound conf (add_slow_call ts) sl h = add_slow-bound ts sl h
call-bound conf (maybe_add_slow_call ts cost cmd prefix) sl h =
    maybe_add_slow-bound conf ts cost cmd prefix sl h
call-bound conf (can_pass_call ts cmd prefix) sl h = can_pass-bound conf ts cmd prefix sl h
call-bound conf (record_slow_cmd_call cmd prefix cost) sl h =
    omega (arith, record_slow_cmd-counter cmd prefix cost sl)
call-bound conf (mark_heavy_slow_call now) sl h = omega arith
call-bound conf turn_on_call sl h = h
call-bound conf turn_off_call sl h = h

-- Whatever is called in whatever order, one call after the other, a counter that is between zero
-- and the maximum stays there.
pub calls-bound :
    (conf : LimiterConf) (cs : List Call) (sl : SlowLimiter)
    → sl.slow_counter ≤ max_slow_threshold
    → (calls conf cs sl).slow_counter ≤ max_slow_threshold
unfolding calls
calls-bound conf [] sl h = h
calls-bound conf (c ∷ cs) sl h = calls-bound conf cs (call conf c sl) (call-bound conf c sl h)

-- The limiter after n ticks with no call between them.
unfoldable pub ticks : LimiterConf → ℕ → SlowLimiter → SlowLimiter
ticks conf zero sl = sl
ticks conf (suc n) sl = ticks conf n (tick conf sl)

ticks_drain :
    (conf : LimiterConf) (n : ℕ) (sl : SlowLimiter)
    → sl.slow_counter ≤ 300
    → (ticks conf n sl).slow_counter ≤ sl.slow_counter - n
unfolding ticks
ticks_drain conf zero sl h = omega arith
ticks_drain conf (suc n) sl h = ground (
  arith,
  ticks_drain conf n (tick conf sl) (tick-bound conf sl h),
  tick_counter conf sl h,
  decrement-cases conf sl.slow_counter h,
)

-- A node recovers: from a counter between zero and the maximum, when no call has come for three
-- hundred ticks, every command passes, at any time and whatever was recorded of it.
pub can_pass-ticks :
    (conf : LimiterConf) (sl : SlowLimiter) (ts : ℕ) (cmd prefix : Bytes)
    → sl.slow_counter ≤ max_slow_threshold
    → (can_pass conf ts cmd prefix (ticks conf 300 sl)).0 ≡ true
unfolding can_pass
can_pass-ticks conf sl ts cmd prefix h = ground (arith, ticks_drain conf 300 sl h)

-- The attempts that come one after the other: timestamps, commands and prefixes.
unfoldable pub attempts : LimiterConf → List (ℕ × Bytes × Bytes) → SlowLimiter → SlowLimiter
attempts conf [] sl = sl
attempts conf ((ts, cmd, prefix) ∷ tries) sl =
    attempts conf tries (can_pass conf ts cmd prefix sl).1

can_pass-last :
    (conf : LimiterConf) (ts : ℕ) (cmd prefix : Bytes) (sl : SlowLimiter)
    → (can_pass conf ts cmd prefix sl).1.last_slow_ts ≡ sl.last_slow_ts
unfolding can_pass add_counter_only
can_pass-last conf ts cmd prefix sl = ground arith

attempts-last :
    (conf : LimiterConf) (tries : List (ℕ × Bytes × Bytes)) (sl : SlowLimiter)
    → (attempts conf tries sl).last_slow_ts ≡ sl.last_slow_ts
unfolding attempts
attempts-last conf [] sl = refl
attempts-last conf ((ts, cmd, prefix) ∷ tries) sl =
    attempts-last conf tries (can_pass conf ts cmd prefix sl).1
    ∙ can_pass-last conf ts cmd prefix sl

-- Refusals do not put off the next try: once the half-open time has passed since the last slow
-- write, a command passes, however many were refused in between.
pub can_pass-attempts :
    (conf : LimiterConf) (tries : List (ℕ × Bytes × Bytes)) (sl : SlowLimiter) (ts : ℕ)
    (cmd prefix : Bytes)
    → lt_int64 (half_open_ts conf sl) ts ≡ true
    → (can_pass conf ts cmd prefix (attempts conf tries sl)).0 ≡ true
unfolding can_pass
can_pass-attempts conf tries sl ts cmd prefix h = rw (attempts-last conf tries sl, h) (ground arith)
