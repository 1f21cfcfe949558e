-- ===== src/Key.antt =====
-- The keys of the storage engine: rockredis/t_table.go, and the key encoders of t_kv.go, t_list.go,
-- t_hash.go, t_set.go and t_ttl.go. A buffer that the source makes, fills and returns is the
-- concatenation of what it is filled with; a decoder that returns a position in its argument
-- returns the bytes from that position on.
pub mod Elements
pub mod RoundTrip
pub mod Table
pub mod Scan
mod Examples
pub mod Kinds
use zan_redis_db.Prelude.{
  ℕ, ◌+◌, ◌%◌, ◌^◌, Bool, true, false, ◌||◌, [], ◌∷◌, ◌++◌, length, take, drop, ltb, leb, ◌==◌,
  if◌then◌else◌,
}
use zan_redis_db.Result.{
  Error, Result, ok, err, key_size, sub_key_size, value_size, table_name, table_name_len,
  table_meta_key, table_data_prefix, list_key, list_meta_key, kv_key, hash_key, hash_size_key,
  set_key, set_size_key, exp_meta_key, exp_time_key, index_panic, ◌>>=◌,
}
use zan_redis_db.Bytes.{Bytes, put_uint16, put_uint64, uint16, uint64}

-- The data types of const.go.
abbrev pub table_meta_type : ℕ
table_meta_type = 10

abbrev pub kv_type : ℕ
kv_type = 21

abbrev pub hash_type : ℕ
hash_type = 22

abbrev pub h_size_type : ℕ
h_size_type = 23

abbrev pub list_type : ℕ
list_type = 24

abbrev pub l_meta_type : ℕ
l_meta_type = 25

abbrev pub zset_type : ℕ
zset_type = 26

abbrev pub set_type : ℕ
set_type = 29

abbrev pub s_size_type : ℕ
s_size_type = 30

abbrev pub bitmap_type : ℕ
bitmap_type = 32

abbrev pub exp_time_type : ℕ
exp_time_type = 101

abbrev pub exp_meta_type : ℕ
exp_meta_type = 102

abbrev pub max_key_size : ℕ
max_key_size = 10240

abbrev pub max_sub_key_len : ℕ
max_sub_key_len = 10240

abbrev pub max_value_size : ℕ
max_value_size = 8388608

abbrev pub max_table_name_len : ℕ
max_table_name_len = 255

-- ':' and the byte behind it.
abbrev pub table_start_sep : ℕ
table_start_sep = b':'

abbrev pub coll_start_sep : ℕ
coll_start_sep = b':'

abbrev pub coll_stop_sep : ℕ
coll_stop_sep = coll_start_sep + 1

-- "meta:"
abbrev pub meta_prefix : Bytes
meta_prefix = b'm' ∷ b'e' ∷ b't' ∷ b'a' ∷ b':' ∷ []

-- Size checks.
unfoldable pub check_key_size : Bytes → Result (Unit {0})
check_key_size key =
    if ltb max_key_size (length key) || length key == 0 then err key_size else ok tt

unfoldable pub check_value_size : Bytes → Result (Unit {0})
check_value_size value = if ltb max_value_size (length value) then err value_size else ok tt

unfoldable pub check_coll_kf_size : Bytes → Bytes → Result (Unit {0})
check_coll_kf_size key field =
    if ltb max_key_size (length key) || length key == 0
    then err key_size
    else if ltb max_sub_key_len (length field)
    then err sub_key_size
    else ok tt

unfoldable pub check_table_name : Bytes → Result (Unit {0})
check_table_name table =
    if leb max_table_name_len (length table) || length table == 0 then err table_name_len else ok tt

-- bytes.IndexByte finds the first separator; the table is what stands before it.
unfoldable pub extract_table_from_redis_key : Bytes → Result (Bytes × Bytes)
extract_table_from_redis_key [] = err table_name
extract_table_from_redis_key (c ∷ key) =
    if c == table_start_sep
    then ok ([], key)
    else do (table, rest) ← extract_table_from_redis_key key; ok (c ∷ table, rest)

unfoldable pub pack_redis_key : Bytes → Bytes → Bytes
pack_redis_key table key = table ++ (table_start_sep ∷ key)

-- A type byte, "meta:" and a key: the shape of the meta keys.
with_meta : ℕ → Bytes → Bytes
with_meta dt key = dt ∷ (meta_prefix ++ key)

without_meta : ℕ → Error → Bytes → Result Bytes
without_meta dt e [] = err e
without_meta dt e (c ∷ ek) =
    if ltb (length (c ∷ ek)) (1 + length meta_prefix)
    then err e
    else if c == dt
    then ok (drop (length meta_prefix) ek)
    else err e

unfoldable pub encode_table_meta_key : Bytes → Bytes
unfolding with_meta
encode_table_meta_key table = with_meta table_meta_type table

pub decode_table_meta_key : Bytes → Result Bytes
unfolding without_meta
decode_table_meta_key tk = without_meta table_meta_type table_meta_key tk

unfoldable pub l_encode_meta_key : Bytes → Bytes
unfolding with_meta
l_encode_meta_key key = with_meta l_meta_type key

pub l_decode_meta_key : Bytes → Result Bytes
unfolding without_meta
l_decode_meta_key ek = without_meta l_meta_type list_meta_key ek

unfoldable pub h_encode_size_key : Bytes → Bytes
unfolding with_meta
h_encode_size_key key = with_meta h_size_type key

pub h_decode_size_key : Bytes → Result Bytes
unfolding without_meta
h_decode_size_key ek = without_meta h_size_type hash_size_key ek

unfoldable pub s_encode_size_key : Bytes → Bytes
unfolding with_meta
s_encode_size_key key = with_meta s_size_type key

pub s_decode_size_key : Bytes → Result Bytes
unfolding without_meta
s_decode_size_key ek = without_meta s_size_type set_size_key ek

unfoldable pub encode_kv_key : Bytes → Bytes
encode_kv_key key = kv_type ∷ key

pub decode_kv_key : Bytes → Result Bytes
decode_kv_key [] = err kv_key
decode_kv_key (c ∷ ek) = if c == kv_type then ok ek else err kv_key

-- A key-value key has no length before its table. `uint16(len(table))` wraps.
unfoldable pub encode_data_table_prefix : ℕ → Bytes → Bytes
encode_data_table_prefix dt table =
    dt
    ∷ ((if dt == kv_type then [] else put_uint16 (length table % 2 ^ 16))
        ++ (table ++ (table_start_sep ∷ [])))

pub get_data_table_prefix_buf_len : ℕ → Bytes → ℕ
get_data_table_prefix_buf_len dt table =
    if dt == kv_type then length table + 1 + 1 else length table + 2 + 1 + 1

-- What stands behind a name and must be a separator; the source indexes the buffer there with no
-- check that a byte is left.
expect_sep : ℕ → Error → Bytes → Result Bytes
expect_sep sep e [] = err index_panic
expect_sep sep e (c ∷ rest) = if c == sep then ok rest else err e

-- A name behind its length.
sized : Error → Bytes → Result (Bytes × Bytes)
sized e buf =
    let len = uint16 buf in
    let body = drop 2 buf in
    if ltb (length buf) 2
    then err e
    else if ltb (length body) len
    then err e
    else ok (take len body, drop len body)

prefix_body : Bytes → Result (Bytes × Bytes)
unfolding sized expect_sep
prefix_body buf = do
  (table, rest) ← sized table_data_prefix buf
  rest' ← expect_sep table_start_sep table_data_prefix rest
  ok (table, rest')

unfoldable pub decode_data_table_prefix : Bytes → ℕ → Result (Bytes × Bytes)
unfolding prefix_body
decode_data_table_prefix [] dt = err table_data_prefix
decode_data_table_prefix (c ∷ buf) dt = if c == dt then prefix_body buf else err table_data_prefix

pub encode_data_table_start : ℕ → Bytes → Bytes
encode_data_table_start dt table = encode_data_table_prefix dt table

-- The last byte plus one.
unfoldable pub bump_last : Bytes → Bytes
bump_last [] = []
bump_last (x ∷ []) = ((x + 1) % 256) ∷ []
bump_last (x ∷ y ∷ k) = x ∷ bump_last (y ∷ k)

pub encode_data_table_end : ℕ → Bytes → Bytes
unfolding bump_last encode_data_table_start
encode_data_table_end dt table = bump_last (encode_data_table_start dt table)
