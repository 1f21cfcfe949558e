-- ===== src/StateMachine/Examples.antt =====
-- The theorems about batches on a store that begins empty.
use zan_redis_db.Prelude.{refl, arith, true, false, none, [], ◌∷◌, List}
use zan_redis_db.Bytes.{Bytes}
use zan_redis_db.Key.{extract_table_from_redis_key, check_key_size, check_value_size, encode_kv_key}
use zan_redis_db.Engine.{RockDb}
use zan_redis_db.Engine.Table.{table_engine}
use zan_redis_db.Conflict.{VersionStore}
use zan_redis_db.Kv.{convert_redis_key_to_db_kv_key}
use zan_redis_db.Kv.Model.{expiry_of}
use zan_redis_db.StateMachine.{StateMachine}
use zan_redis_db.StateMachine.Batch.Commands.{set, setex, del, IsFine}
use zan_redis_db.StateMachine.Batch.Law.{ClientCommand}

abbrev key_one : Bytes
key_one = b't' ∷ b':' ∷ b'k' ∷ []

abbrev empty_store : RockDb table_engine
empty_store = record {
  eng = record { held = λ k. none; written = [] };
  wb = [];
  is_batching = false;
  enable_table_counter = true;
  estimate_table_counter = false;
}

abbrev idle_machine : StateMachine table_engine
idle_machine = record {
  store = empty_store;
  batching = false;
  batch_req_ids = [];
  batch_rsps = [];
  dup_check = [];
  triggered = [];
  crashed = false;
}

abbrev no_versions : RockDb table_engine → VersionStore
no_versions db = record {
  kv_get_ver = λ k. 0;
  h_get_ver = λ k f. 0;
  l_ver = λ k. 0;
  bit_get_ver = λ k. 0;
  s_get_ver = λ k. 0;
  z_get_ver = λ k. 0;
  synced_only_changed_ts = 0;
}

set-IsFine : IsFine 7 (set key_one (b'a' ∷ []))
unfolding convert_redis_key_to_db_kv_key extract_table_from_redis_key check_key_size
    check_value_size encode_kv_key
set-IsFine = record { table = b't' ∷ []; kk = 21 ∷ key_one; named = refl; allowed = refl }

del-IsFine : IsFine 8 (del key_one)
unfolding convert_redis_key_to_db_kv_key extract_table_from_redis_key check_key_size encode_kv_key
del-IsFine = record { table = b't' ∷ []; kk = 21 ∷ key_one; named = refl; allowed = tt }

setex-IsFine : IsFine 9 (setex key_one 5 (b'b' ∷ []))
unfolding convert_redis_key_to_db_kv_key extract_table_from_redis_key check_key_size
    check_value_size encode_kv_key expiry_of
setex-IsFine = record {
  table = b't' ∷ [];
  kk = 21 ∷ key_one;
  named = refl;
  allowed = (refl, omega arith, refl, omega arith);
}

abbrev two_entries : List (List ClientCommand)
two_entries =
    (record { id = 1; ts = 7; cmd = set key_one (b'a' ∷ []); fine = set-IsFine; id_set = refl }
      ∷ (record { id = 2; ts = 8; cmd = del key_one; fine = del-IsFine; id_set = refl } ∷ []))
    ∷ ((record {
      id = 3;
      ts = 9;
      cmd = setex key_one 5 (b'b' ∷ []);
      fine = setex-IsFine;
      id_set = refl;
    }
          ∷ [])
        ∷ [])
