-- ===== src/Kv.antt =====
-- rockredis/t_kv.go: key-value pairs. How a value is stored, and the operations that read; the
-- operations that write are in Kv.Write. `time.Now()` is an
-- argument. The caches of HyperLogLog are not modelled.
pub mod Number
pub mod Write
pub mod Model
pub mod Effect
pub mod Range
mod Examples
use zan_redis_db.Prelude.{
  ℕ, ◌+◌, ◌-◌, ◌/◌, Bool, true, false, not, ◌&&◌, ◌||◌, Option, none, some, List, [], ◌∷◌, ◌++◌,
  map, length, take, drop, ltb, ◌==◌, if◌then◌else◌,
}
use zan_redis_db.Result.{Result, ok, err, table_name, index_panic, ◌>>=◌}
use zan_redis_db.Bytes.{Bytes, lt_int64, add_int64, neg_int64, put_uint64, uint64}
use zan_redis_db.Key.{extract_table_from_redis_key, check_key_size, encode_kv_key}
use zan_redis_db.Expire.{
  HeaderMetaValue, bytes_of, second, new_header_meta_v1, encode_with_data, decode_raw_value,
  raw_is_expired, raw_expire_at, renew_on_expired, del_expire,
}
use zan_redis_db.Engine.{Engine, RockDb}

abbrev pub ts_len : ℕ
ts_len = 8

-- An error of the table's name is not looked at: it leaves no table.
table_of : Result (Bytes × Bytes) → Bytes
table_of (ok (table, rest)) = table
table_of (err e) = []

unfoldable pub convert_redis_key_to_db_kv_key : Bytes → Result (Bytes × Bytes)
unfolding table_of
convert_redis_key_to_db_kv_key key =
    let table = table_of (extract_table_from_redis_key key) in
    if length table == 0
    then err table_name
    else do _ ← check_key_size key; ok (table, encode_kv_key key)

pub record VerKeyInfo : Type 0 where
  pub old_header : HeaderMetaValue
  pub expired : Bool
  pub table : Bytes
  pub ver_key : Bytes

-- A stored value is a header, the value, and the time of its change in eight bytes.
unfoldable pub strip_ts : Bytes → Bytes
strip_ts v = if ltb (length v) ts_len then v else take (length v - ts_len) v

unfoldable pub decode_db_raw_value : Option Bytes → Result (Option Bytes × HeaderMetaValue)
unfolding strip_ts
decode_db_raw_value none = do h ← decode_raw_value none; ok (h.user_data, h)
decode_db_raw_value (some v) = do h ← decode_raw_value (some (strip_ts v)); ok (h.user_data, h)

unfoldable pub encode_real_value : ℕ → HeaderMetaValue → Bytes → Result Bytes
encode_real_value ts h value = do
  buf ← encode_with_data (record h { user_data = some value })
  ok (buf ++ put_uint64 ts)

-- A value under a new header, which expires `ttl` seconds after the time `ts`, or never where `ttl`
-- is not positive. `ts` is not negative.
unfoldable pub reset_with_new_kv_value : ℕ → Bytes → ℕ → Result Bytes
reset_with_new_kv_value ts value ttl = do
  buf ← encode_with_data (record new_header_meta_v1 { user_data = some value })
  raw ←
      if lt_int64 0 ttl
      then raw_expire_at buf (add_int64 ttl (ts / second))
      else del_expire buf true
  ok (raw ++ put_uint64 ts)

-- The bounds of GetRange, as int64 patterns.
unfoldable pub get_range_bounds : ℕ → ℕ → ℕ → ℕ × ℕ
get_range_bounds start end val_len =
    let start' = if lt_int64 start 0 then add_int64 val_len start else start in
    let end' = if lt_int64 end 0 then add_int64 val_len end else end in
    let from = if lt_int64 start' 0 then 0 else start' in
    let to = if lt_int64 end' 0 then 0 else end' in
    (from, (if not (lt_int64 to val_len) then add_int64 val_len (neg_int64 1) else to))

-- `value[from:to]`, which panics where the bounds are not in order or not in the slice.
unfoldable pub slice : Bytes → ℕ → ℕ → Result Bytes
slice v from to =
    if lt_int64 from 0 || lt_int64 to from || lt_int64 (length v) to
    then err index_panic
    else ok (take (to - from) (drop from v))

unfoldable pub is_some : Option Bytes → Bool
is_some none = false
is_some (some v) = true

unfoldable pub get_and_check_exp_real_value : ℕ → Option Bytes → Result (Bool × Option Bytes)
get_and_check_exp_real_value ts none = ok (false, none)
get_and_check_exp_real_value ts (some v) = do
  is_expired ← raw_is_expired ts (some v)
  (real, h) ← decode_db_raw_value (some v)
  ok (is_expired, real)

module _ {E : Engine} where
  -- The table, the key of the engine, the raw value, and whether it is expired.
  unfoldable pub get_raw_db_kv_value :
      RockDb E → ℕ → Bytes → Result (Bytes × Bytes × Option Bytes × Bool)
  get_raw_db_kv_value db ts key = do
    (table, kk) ← convert_redis_key_to_db_kv_key key
    is_expired ← raw_is_expired ts (E.get db.eng kk)
    ok (table, kk, E.get db.eng kk, is_expired)

  unfoldable pub get_db_kv_real_value_and_header :
      RockDb E → ℕ → Bytes → Result (VerKeyInfo × Option Bytes)
  get_db_kv_real_value_and_header db ts key = do
    (table, kk, v, is_expired) ← get_raw_db_kv_value db ts key
    (real, h) ← decode_db_raw_value v
    ok (record { old_header = h; expired = is_expired; table = table; ver_key = kk }, real)

  -- The value is given as it was, also where it is expired; only its header is renewed.
  unfoldable pub prepare_kv_value_for_write :
      RockDb E → ℕ → Bytes → Bool → Result (VerKeyInfo × Option Bytes)
  prepare_kv_value_for_write db ts key reset = do
    (table, kk, v, is_expired) ← get_raw_db_kv_value db ts key
    (real, h) ← decode_db_raw_value v
    let h' = if is_expired || reset then renew_on_expired ts h else h
    ok (record { old_header = h'; expired = is_expired; table = table; ver_key = kk }, real)

  unfoldable pub kv_get : RockDb E → ℕ → Bytes → Result (Option Bytes)
  kv_get db now key = do
    (info, v) ← get_db_kv_real_value_and_header db now key
    ok (if info.expired then none else v)

  pub is_kv_exist_or_expired : RockDb E → ℕ → Bytes → Result ℕ
  unfolding is_some
  is_kv_exist_or_expired db now key = do
    (table, kk) ← convert_redis_key_to_db_kv_key key
    is_expired ← raw_is_expired now (E.get db.eng kk)
    ok (if is_some (E.get db.eng kk) && not is_expired then 1 else 0)

  -- A value whose header cannot be read counts as one that is not expired.
  unfoldable pub counted_value : RockDb E → ℕ → Bytes → ℕ
  unfolding is_some
  counted_value db now key = elim (convert_redis_key_to_db_kv_key key) [
    | err e ↦ 0
    | ok (table, kk) ↦ elim (raw_is_expired now (E.get db.eng kk)) [
      | ok true ↦ 0
      | _ ↦ if is_some (E.get db.eng kk) then 1 else 0
    ]
  ]

  unfoldable pub count_values : RockDb E → ℕ → List Bytes → ℕ
  count_values db now [] = 0
  count_values db now (key ∷ keys) = counted_value db now key + count_values db now keys

  pub kv_exists : RockDb E → ℕ → List Bytes → Result ℕ
  kv_exists db now (key ∷ []) = is_kv_exist_or_expired db now key
  kv_exists db now keys = ok (count_values db now keys)

  pub kv_get_ver : RockDb E → Bytes → Result ℕ
  kv_get_ver db key = do
    (table, kk) ← convert_redis_key_to_db_kv_key key
    ok (elim (E.get db.eng kk) [
      | none ↦ 0
      | some v ↦ if ltb (length v) ts_len then 0 else uint64 (drop (length v - ts_len) v)
    ])

  -- GetValueWithOp and GetValueWithOpNoLock.
  pub get_value_with_op {ℓ} :
      {A : Type ℓ} → RockDb E → ℕ → Bytes → (Option Bytes → Result A) → Result A
  get_value_with_op db now key op = do
    (table, kk) ← convert_redis_key_to_db_kv_key key
    (is_expired, real) ← get_and_check_exp_real_value now (E.get db.eng kk)
    op (if is_expired then none else real)

  -- One result of MGet. Beside an error the source leaves a value that is not looked at.
  unfoldable pub get_one : RockDb E → ℕ → Bytes → Result (Option Bytes)
  get_one db now key = do
    (table, kk) ← convert_redis_key_to_db_kv_key key
    (is_expired, real) ← get_and_check_exp_real_value now (E.get db.eng kk)
    ok (if is_expired then none else real)

  unfoldable pub mget : RockDb E → ℕ → List Bytes → List (Result (Option Bytes))
  mget db now keys = map (get_one db now) keys

  unfoldable pub get_range : RockDb E → ℕ → Bytes → ℕ → ℕ → Result (Option Bytes)
  get_range db now key start end = do
    value ← kv_get db now key
    let bounds = get_range_bounds start end (length (bytes_of value))
    (if lt_int64 (bounds.1) (bounds.0)
        then ok none
        else (slice (bytes_of value) (bounds.0) (add_int64 (bounds.1) 1) >>= λ s. ok (some s)))

  unfoldable pub str_len : RockDb E → ℕ → Bytes → Result ℕ
  str_len db now key = do v ← kv_get db now key; ok (length (bytes_of v))
