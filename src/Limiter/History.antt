-- ===== src/Limiter/History.antt =====
-- What the slow limiter remembers of slow writes, and forgets.
use zan_redis_db.Prelude.{
  ℕ, ◌+◌, ◌-◌, ◌*◌, ◌^◌, ◌≤◌, ◌<◌, ◌≡◌, refl, arith, Bool, true, false, [], ◌∷◌,
}
use zan_redis_db.Bytes.{Bytes, lt_int64, add_int64, eq_bytes_refl}
use zan_redis_db.Limiter.{
  LimiterConf, SlowLimiter, SlowMap, clear_slows, decrement, tick, is_history_slow, slow_count,
  set_slow_count, bump_slow, feature, can_pass, record_slow_cmd, max_slow_threshold,
  small_slow_threshold, half_open_ts, millisecond, is_on,
}
use zan_redis_db.Limiter.Counter.{tick_counter, decrement-cases}

slow_count-set_slow_count :
    (m : SlowMap) (feat : Bytes) (n : ℕ) → slow_count (set_slow_count m feat n) feat ≡ n
unfolding slow_count set_slow_count
slow_count-set_slow_count [] feat n = rw (eq_bytes_refl feat) refl
slow_count-set_slow_count ((k, v) ∷ m) feat n = ground (arith, slow_count-set_slow_count m feat n)

bump_count :
    (m : SlowMap) (feat : Bytes)
    → slow_count m feat < 2 ^ 63
    → slow_count (bump_slow m feat) feat ≡ slow_count m feat + 1
unfolding bump_slow
bump_count m feat h =
    omega (arith, slow_count-set_slow_count m feat (add_int64 (slow_count m feat) 1))

can_pass_refuses :
    (conf : LimiterConf) (sl : SlowLimiter) (ts : ℕ) (cmd : Bytes) (p : ℕ) (prefix : Bytes)
    → is_on sl ≡ true
    → small_slow_threshold ≤ sl.slow_counter
    → sl.slow_counter ≤ max_slow_threshold
    → 2 < slow_count sl.slow100s (feature cmd (p ∷ prefix))
    → slow_count sl.slow100s (feature cmd (p ∷ prefix)) < 2 ^ 63
    → lt_int64 (half_open_ts conf sl) ts ≡ false
    → (can_pass conf ts cmd (p ∷ prefix) sl).0 ≡ false
unfolding can_pass is_history_slow
can_pass_refuses conf sl ts cmd p prefix on low high many few early = ground arith

-- A command with a name and a table, that is slow enough for the first class.
module _ (c p : ℕ) (cmd prefix : Bytes) (cost : ℕ)
    (slow : lt_int64 cost (millisecond * 100) ≡ false) where
  abbrev record_one : SlowLimiter → SlowLimiter
  record_one sl = record_slow_cmd (c ∷ cmd) (p ∷ prefix) cost sl

  record_one-slow100s :
      (sl : SlowLimiter)
      → is_on sl ≡ true
      → small_slow_threshold ≤ sl.slow_counter
      → sl.slow_counter ≤ max_slow_threshold
      → record_one sl
        ≡ record sl { slow100s = bump_slow sl.slow100s (feature (c ∷ cmd) (p ∷ prefix)) }
  unfolding record_slow_cmd
  record_one-slow100s sl on low high = ground arith

  -- While the limiter is on and its counter is between the small threshold and the maximum, three
  -- writes of at least 100 ms that are recorded of a named command and table make it refuse the
  -- next write of that command to that table, up to the half-open time after the last slow write,
  -- if the count of them is below 2^62 before.
  pub can_pass-record_one :
      (conf : LimiterConf) (sl : SlowLimiter) (ts : ℕ)
      → is_on sl ≡ true
      → small_slow_threshold ≤ sl.slow_counter
      → sl.slow_counter ≤ max_slow_threshold
      → slow_count sl.slow100s (feature (c ∷ cmd) (p ∷ prefix)) < 2 ^ 62
      → lt_int64 (half_open_ts conf sl) ts ≡ false
      → (can_pass conf ts (c ∷ cmd) (p ∷ prefix) (record_one (record_one (record_one sl)))).0
        ≡ false
  can_pass-record_one conf sl ts on low high small early =
      let feat : Bytes = feature (c ∷ cmd) (p ∷ prefix) in
      let m1 : SlowMap = bump_slow sl.slow100s feat in
      let m2 : SlowMap = bump_slow m1 feat in
      let c1 : slow_count m1 feat ≡ slow_count sl.slow100s feat + 1 =
        bump_count sl.slow100s feat (omega arith) in
      let c2 : slow_count m2 feat ≡ slow_count m1 feat + 1 = bump_count m1 feat (omega arith) in
      let c3 : slow_count (bump_slow m2 feat) feat ≡ slow_count m2 feat + 1 =
        bump_count m2 feat (omega arith) in
      rw
        (
          record_one-slow100s sl on low high,
          record_one-slow100s (record sl { slow100s = m1 }) on low high,
          record_one-slow100s (record sl { slow100s = m2 }) on low high,
        )
        (can_pass_refuses conf (record sl { slow100s = bump_slow m2 feat }) ts (c ∷ cmd) p prefix on
          low high (omega arith) (omega arith) early)

forgotten :
    (conf : LimiterConf) (sl : SlowLimiter)
    → is_on sl ≡ true
    → small_slow_threshold ≤ sl.slow_counter
    → sl.slow_counter ≤ max_slow_threshold
    → sl.slow_counter - decrement conf sl.slow_counter < small_slow_threshold
    → ((tick conf sl).slow100s ≡ []) × ((tick conf sl).slow50s ≡ []) × ((tick conf sl).slow10s ≡ [])
unfolding tick clear_slows
forgotten conf sl on low high crossed = ground (arith, decrement-cases conf sl.slow_counter high)

-- The tick that takes the counter from at least the small threshold, and at most the maximum, to
-- below that threshold forgets all slow writes, if the limiter is on.
pub is_history_slow-tick :
    (conf : LimiterConf) (sl : SlowLimiter) (cmd prefix : Bytes) (sc : ℕ) (ignore10ms : Bool)
    → is_on sl ≡ true
    → small_slow_threshold ≤ sl.slow_counter
    → sl.slow_counter ≤ max_slow_threshold
    → (tick conf sl).slow_counter < small_slow_threshold
    → is_history_slow (tick conf sl) cmd prefix sc ignore10ms ≡ false
unfolding is_history_slow slow_count
is_history_slow-tick conf sl cmd prefix sc ignore10ms on low high crossed =
    let (e100, e50, e10) =
      forgotten conf sl on low high (omega (arith, tick_counter conf sl high)) in
    rw (e100, e50, e10) (ground arith)
