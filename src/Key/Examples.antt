-- ===== src/Key/Examples.antt =====
-- The theorems about keys at concrete inputs.
use zan_redis_db.Prelude.{◌%◌, ◌^◌, ◌≡◌, arith, [], ◌∷◌, ◌++◌, length}
use zan_redis_db.Result.{err, index_panic}
use zan_redis_db.Bytes.{Bytes, put_uint16}
use zan_redis_db.Key.{decode_data_table_prefix}
use zan_redis_db.Key.RoundTrip.{decode_data_table_prefix_panics}

abbrev t_name : Bytes
t_name = b't' ∷ []

abbrev k_name : Bytes
k_name = b'k' ∷ []

abbrev j_name : Bytes
j_name = b'j' ∷ []

decode_data_table_prefix_panics_example :
    decode_data_table_prefix (22 ∷ (put_uint16 (length t_name % 2 ^ 16) ++ t_name)) 22
    ≡ err index_panic
decode_data_table_prefix_panics_example = decode_data_table_prefix_panics 22 t_name (omega arith)
