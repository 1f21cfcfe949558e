-- ===== src/Limiter/Examples.antt =====
-- The theorems about the slow limiter at concrete inputs.
use zan_redis_db.Prelude.{◌≤◌, ◌<◌, ◌≡◌, refl, arith, true, false, [], ◌∷◌}
use zan_redis_db.Bytes.{Bytes}
use zan_redis_db.Limiter.{
  LimiterConf, SlowLimiter, tick, can_pass, max_slow_threshold, decrement, clear_slows,
}
use zan_redis_db.Limiter.Counter.{
  calls, attempts, tick_call, add_slow_call, mark_heavy_slow_call, calls-bound, can_pass-attempts,
}

abbrev conf : LimiterConf
conf = record {
  slow_refuse_cost_ms = 600;
  slow_half_open_sec = 15;
  enable_slow_limiter_test = false;
}

abbrev slow_node : SlowLimiter
slow_node = record {
  slow_counter = 20;
  limiter_on = 1;
  slow100s = [];
  slow50s = [];
  slow10s = [];
  last_slow_ts = 1000;
}

abbrev set_cmd : Bytes
set_cmd = b's' ∷ b'e' ∷ b't' ∷ []

abbrev t_name : Bytes
t_name = b't' ∷ []

calls-bound_example :
    (calls conf (mark_heavy_slow_call 5 ∷ add_slow_call 6 ∷ tick_call ∷ []) slow_node).slow_counter
    ≤ max_slow_threshold
calls-bound_example =
    calls-bound conf (mark_heavy_slow_call 5 ∷ add_slow_call 6 ∷ tick_call ∷ []) slow_node
      (omega arith)

can_pass-attempts_example :
    (can_pass conf 15000001001 set_cmd t_name
      (attempts conf ((1500, set_cmd, t_name) ∷ []) slow_node)).0
    ≡ true
can_pass-attempts_example =
    can_pass-attempts conf ((1500, set_cmd, t_name) ∷ []) slow_node 15000001001 set_cmd t_name refl

crosses : (tick conf slow_node).slow_counter < 20
unfolding tick decrement clear_slows
crosses = omega arith
