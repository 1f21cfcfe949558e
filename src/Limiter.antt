-- ===== src/Limiter.antt =====
-- node/slow_limiter.go: writes that have been slow are refused while the node is slow. An operation
-- runs as one step; `time.Duration` and timestamps are int64 patterns in nanoseconds, a map is an
-- association list, and the metrics and logs have no effect here.
pub mod Counter
pub mod History
mod Examples
use zan_redis_db.Prelude.{
  ℕ, ◌+◌, ◌-◌, ◌*◌, ◌%◌, ◌^◌, Bool, true, false, not, ◌&&◌, ◌||◌, Option, none, some, List, [], ◌∷◌,
  ◌++◌, ltb, ◌==◌, if◌then◌else◌,
}
use zan_redis_db.Bytes.{Bytes, lt_int64, add_int64, neg_int64, eq_bytes}

abbrev pub max_slow_threshold : ℕ
max_slow_threshold = 300

abbrev pub heavy_slow_threshold : ℕ
heavy_slow_threshold = 250

abbrev pub mid_slow_threshold : ℕ
mid_slow_threshold = 60

abbrev pub small_slow_threshold : ℕ
small_slow_threshold = 20

abbrev pub millisecond : ℕ
millisecond = 1000000

-- SlowRefuseCostMs, SlowHalfOpenSec and enableSlowLimiterTest: package variables.
pub record LimiterConf : Type 0 where
  pub slow_refuse_cost_ms : ℕ
  pub slow_half_open_sec : ℕ
  pub enable_slow_limiter_test : Bool

-- map[string]int64
abbrev pub SlowMap : Type 0
SlowMap = List (Bytes × ℕ)

-- `limiter_on` is an int32 pattern.
pub record SlowLimiter : Type 0 where
  pub slow_counter : ℕ
  pub limiter_on : ℕ
  pub slow100s : SlowMap
  pub slow50s : SlowMap
  pub slow10s : SlowMap
  pub last_slow_ts : ℕ

pub new_slow_limiter : ℕ → SlowLimiter
new_slow_limiter switch = record {
  slow_counter = 0;
  limiter_on = switch;
  slow100s = [];
  slow50s = [];
  slow10s = [];
  last_slow_ts = 0;
}

-- `m[feat]`, zero where it is missing, and the assignment.
unfoldable pub slow_count : SlowMap → Bytes → ℕ
slow_count [] feat = 0
slow_count ((k, n) ∷ m) feat = if eq_bytes k feat then n else slow_count m feat

unfoldable pub set_slow_count : SlowMap → Bytes → ℕ → SlowMap
set_slow_count [] feat n = (feat, n) ∷ []
set_slow_count ((k, v) ∷ m) feat n =
    let rest = set_slow_count m feat n in if eq_bytes k feat then (k, n) ∷ m else (k, v) ∷ rest

-- `cmd + " " + prefix`
abbrev pub feature : Bytes → Bytes → Bytes
feature cmd prefix = cmd ++ (b' ' ∷ prefix)

abbrev pub turn_on : SlowLimiter → SlowLimiter
turn_on sl = record sl { limiter_on = 1 }

abbrev pub turn_off : SlowLimiter → SlowLimiter
turn_off sl = record sl { limiter_on = 0 }

abbrev pub is_on : SlowLimiter → Bool
is_on sl = ltb 0 sl.limiter_on && ltb sl.limiter_on (2 ^ 31)

unfoldable pub mark_heavy_slow : ℕ → SlowLimiter → SlowLimiter
mark_heavy_slow now sl = record sl { slow_counter = max_slow_threshold; last_slow_ts = now }

-- A map that is empty already stays.
unfoldable pub clear_slows : SlowLimiter → SlowLimiter
clear_slows sl =
    if not (is_on sl) then sl else record sl { slow100s = []; slow50s = []; slow10s = [] }

-- How much a tick takes off the counter: the source's `-decr`.
unfoldable pub decrement : LimiterConf → ℕ → ℕ
decrement conf old =
    let base =
      if not (lt_int64 old heavy_slow_threshold)
      then 10
      else if not (lt_int64 old mid_slow_threshold)
      then 2
      else 1 in
    if conf.enable_slow_limiter_test && lt_int64 10 old then base * 3 else base

-- One tick of the loop of run.
unfoldable pub tick : LimiterConf → SlowLimiter → SlowLimiter
tick conf sl =
    let old = sl.slow_counter in
    let decr = decrement conf old in
    let n = add_int64 old (neg_int64 decr) in
    let counted = record sl { slow_counter = n } in
    let cleared =
      if not (lt_int64 old small_slow_threshold) && lt_int64 n small_slow_threshold
      then clear_slows counted
      else counted in
    if lt_int64 n 0
    then record cleared { slow_counter = add_int64 cleared.slow_counter decr }
    else cleared

unfoldable pub add_counter_only : SlowLimiter → SlowLimiter
add_counter_only sl =
    let cnt = add_int64 sl.slow_counter 1 in
    if lt_int64 max_slow_threshold cnt
    then record sl { slow_counter = add_int64 cnt (neg_int64 1) }
    else record sl { slow_counter = cnt }

unfoldable pub add_slow : ℕ → SlowLimiter → SlowLimiter
add_slow ts sl = add_counter_only (record sl { last_slow_ts = ts })

-- The first of the two results of isHistorySlow; the second is never used. Counts are of feats that
-- are in the maps, and a feat that is not counts zero.
unfoldable pub is_history_slow : SlowLimiter → Bytes → Bytes → ℕ → Bool → Bool
is_history_slow sl cmd prefix sc ignore10ms =
    let feat = feature cmd prefix in
    if lt_int64 2 (slow_count sl.slow100s feat)
    then true
    else if not (lt_int64 sc mid_slow_threshold) && lt_int64 4 (slow_count sl.slow50s feat)
    then true
    else not ignore10ms
      && (not (lt_int64 sc heavy_slow_threshold) && lt_int64 20 (slow_count sl.slow10s feat))

unfoldable pub maybe_add_slow : LimiterConf → ℕ → ℕ → Bytes → Bytes → SlowLimiter → SlowLimiter
maybe_add_slow conf ts cost cmd prefix sl =
    let cnt = sl.slow_counter in
    if lt_int64 cost (millisecond * conf.slow_refuse_cost_ms % 2 ^ 64)
    then if lt_int64 cost (millisecond * 50)
      then sl
      else if lt_int64 cnt small_slow_threshold
      then sl
      else if is_history_slow sl cmd prefix cnt true
      then add_slow ts sl
      else sl
    else add_slow ts sl

abbrev is_empty : Bytes → Bool
is_empty [] = true
is_empty (x ∷ b) = false

-- The timestamp from which a slow node tries a slow write again.
abbrev pub half_open_ts : LimiterConf → SlowLimiter → ℕ
half_open_ts conf sl = add_int64 sl.last_slow_ts (1000000000 * conf.slow_half_open_sec % 2 ^ 64)

unfoldable pub can_pass : LimiterConf → ℕ → Bytes → Bytes → SlowLimiter → Bool × SlowLimiter
can_pass conf ts cmd prefix sl =
    let sc = sl.slow_counter in
    if is_empty prefix
    then (true, sl)
    else if not (is_on sl)
    then (true, sl)
    else if lt_int64 sc small_slow_threshold
    then (true, sl)
    else if lt_int64 (half_open_ts conf sl) ts
    then (true, sl)
    else if is_history_slow sl cmd prefix sc false
    then (false, add_counter_only sl)
    else (true, sl)

-- The count of a feat goes up by one.
unfoldable pub bump_slow : SlowMap → Bytes → SlowMap
bump_slow m feat = set_slow_count m feat (add_int64 (slow_count m feat) 1)

unfoldable pub record_slow_cmd : Bytes → Bytes → ℕ → SlowLimiter → SlowLimiter
record_slow_cmd cmd prefix cost sl =
    let feat = feature cmd prefix in
    if is_empty prefix || is_empty cmd
    then sl
    else if lt_int64 cost (millisecond * 10)
    then sl
    else if not (is_on sl)
    then sl
    else if lt_int64 sl.slow_counter small_slow_threshold
    then sl
    else if not (lt_int64 cost (millisecond * 100))
    then record sl { slow100s = bump_slow sl.slow100s feat }
    else if not (lt_int64 cost (millisecond * 50))
    then record sl { slow50s = bump_slow sl.slow50s feat }
    else record sl { slow10s = bump_slow sl.slow10s feat }
