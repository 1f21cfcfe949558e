-- ===== src/Conflict/Examples.antt =====
-- The theorems about conflict checks at concrete inputs.
use zan_redis_db.Prelude.{◌≡◌, refl, arith, [], ◌∷◌}
use zan_redis_db.Result.{ok}
use zan_redis_db.Bytes.{Bytes}
use zan_redis_db.Conflict.{
  conflict, VersionStore, check_kv_kv_conflict, check_kv_conflict, new_conflict_router, get_handler,
  register, to_lower, args_from_one, check_pairs,
}
use zan_redis_db.Conflict.Checks.{get_handler-register_upper}

abbrev store : VersionStore
store = record {
  kv_get_ver = λ k. 50;
  h_get_ver = λ k f. 60;
  l_ver = λ k. 70;
  bit_get_ver = λ k. 0;
  s_get_ver = λ k. 0;
  z_get_ver = λ k. 0;
  synced_only_changed_ts = 65;
}

abbrev k_name : Bytes
k_name = b'k' ∷ []

abbrev set_name : Bytes
set_name = b's' ∷ b'e' ∷ b't' ∷ []

late_write : check_kv_kv_conflict store (set_name ∷ k_name ∷ k_name ∷ []) 50 ≡ ok conflict
unfolding check_kv_kv_conflict args_from_one check_pairs
late_write = refl

get_handler-register_upper_example :
    get_handler (register new_conflict_router (b'S' ∷ []) check_kv_conflict).1 (b'S' ∷ [])
    ≡ get_handler new_conflict_router (b'S' ∷ [])
unfolding to_lower
get_handler-register_upper_example =
    get_handler-register_upper new_conflict_router (b'S' ∷ []) (b'S' ∷ []) check_kv_conflict
      (λ e. ground arith)
