-- ===== src/Collection.antt =====
-- rockredis/t_collections.go and the table counters of rockredis/t_table.go: how the operations on
-- hashes, sets and lists find the header of a key, and the version key its elements are stored by.
-- The data types whose keys are not modelled answer `not_supported`.
pub mod Counter
pub mod Ttl
use zan_redis_db.Prelude.{
  ℕ, zero, suc, ◌/◌, ◌%◌, Bool, true, false, ◌||◌, Option, none, some, List, [], ◌∷◌, length, ◌==◌,
  if◌then◌else◌,
}
use zan_redis_db.Result.{Result, ok, err, not_supported, table_name, ◌>>=◌}
use zan_redis_db.Bytes.{Bytes}
use zan_redis_db.Key.{
  hash_type, set_type, list_type, h_encode_size_key, s_encode_size_key, l_encode_meta_key,
  encode_table_meta_key, extract_table_from_redis_key, check_key_size, check_coll_kf_size,
}
use zan_redis_db.Expire.{
  HeaderMetaValue, decode_raw_value, raw_is_expired, encode_to_version_key, renew_on_expired,
}
use zan_redis_db.Engine.{Engine, RockDb, WriteOp, merge}

-- `RangeStart` and `RangeEnd` are functions of the other fields.
pub record CollVerKeyInfo : Type 0 where
  pub old_header : HeaderMetaValue
  pub expired : Bool
  pub table : Bytes
  pub ver_key : Bytes

abbrev pub meta_data : CollVerKeyInfo → Option Bytes
meta_data info = info.old_header.user_data

abbrev is_none : Option Bytes → Bool
is_none none = true
is_none (some b) = false

unfoldable pub is_not_exist_or_expired : CollVerKeyInfo → Bool
is_not_exist_or_expired info = info.expired || is_none (meta_data info)

unfoldable pub encode_meta_key : ℕ → Bytes → Result Bytes
encode_meta_key dt key =
    if dt == hash_type
    then ok (h_encode_size_key key)
    else if dt == set_type
    then ok (s_encode_size_key key)
    else if dt == list_type
    then ok (l_encode_meta_key key)
    else err not_supported

-- The engine's counters are little-endian.
put_le : ℕ → ℕ → Bytes
put_le zero v = []
put_le (suc n) v = (v % 256) ∷ put_le n (v / 256)

unfoldable pub put_rocksdb_uint64 : ℕ → Bytes
unfolding put_le
put_rocksdb_uint64 = put_le 8

module _ {E : Engine} where
  unfoldable pub coll_header_meta : RockDb E → ℕ → ℕ → Bytes → Result (HeaderMetaValue × Bool)
  coll_header_meta db ts dt key = do
    size_key ← encode_meta_key dt key
    h ← decode_raw_value (E.get db.eng size_key)
    is_expired ← raw_is_expired ts (E.get db.eng size_key)
    ok (h, is_expired)

  unfoldable pub get_coll_version_key : RockDb E → ℕ → ℕ → Bytes → Result CollVerKeyInfo
  get_coll_version_key db ts dt key = do
    (table, rk) ← extract_table_from_redis_key key
    _ ← if length table == 0 then err table_name else check_key_size rk
    (h, is_expired) ← coll_header_meta db ts dt key
    ok (record {
      old_header = h;
      expired = is_expired;
      table = table;
      ver_key = encode_to_version_key dt h rk;
    })

  -- The header of a value that is missing or expired is renewed, which leaves no user data.
  unfoldable pub prepare_coll_key_for_write :
      RockDb E → ℕ → ℕ → Bytes → Bytes → Result CollVerKeyInfo
  prepare_coll_key_for_write db ts dt key field = do
    (table, rk) ← extract_table_from_redis_key key
    _ ← check_coll_kf_size rk field
    (h, is_expired) ← coll_header_meta db ts dt key
    let h' = if is_expired || is_none h.user_data then renew_on_expired ts h else h
    ok (record {
      old_header = h';
      expired = is_expired;
      table = table;
      ver_key = encode_to_version_key dt h' rk;
    })

  -- The counter is a merge of the signed change, as the engine's little-endian number.
  unfoldable pub incr_table_key_count : RockDb E → Bytes → ℕ → List WriteOp
  incr_table_key_count db table delta =
      if db.enable_table_counter
      then merge (encode_table_meta_key table) (put_rocksdb_uint64 delta) ∷ []
      else []
