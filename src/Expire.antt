-- ===== src/Expire.antt =====
-- rockredis/t_ttl_compact.go: the header of every value and collection meta, which holds the expiry
-- time and the version that tells a rewritten collection from what is left of the old one. The
-- policies other than `WaitCompact` are not modelled; the data types are the six that have a header.
pub mod Header
pub mod Version
mod Examples
use zan_redis_db.Prelude.{
  ℕ, ◌+◌, ◌-◌, ◌/◌, ◌%◌, ◌^◌, Bool, true, false, ◌||◌, Option, none, some, List, [], ◌∷◌, ◌++◌,
  length, drop, ltb, leb, ◌==◌, if◌then◌else◌, compare, Ordering,
}
use zan_redis_db.Result.{
  Result, ok, err, header_meta, header_version, exp_overflow, version_key, index_panic,
  not_supported, ◌>>=◌,
}
use zan_redis_db.Bytes.{Bytes, compare_int64, put_uint32, put_uint64, uint32, uint64}
use zan_redis_db.Codec.Memcmp.{Value, byte, int, bytes, memcmp_encode, decode}
use zan_redis_db.Key.{kv_type, hash_type, list_type, set_type, zset_type, bitmap_type}

abbrev pub header_v1_len : ℕ
header_v1_len = 13

-- byte(common.ValueHeaderV1)
abbrev pub value_header_v1 : ℕ
value_header_v1 = 1

abbrev pub second : ℕ
second = 1000000000

-- `expire_at` is a uint32, `value_version` an int64 pattern; nil user data is `none`.
pub record HeaderMetaValue : Type 0 where
  pub ver : ℕ
  pub expire_at : ℕ
  pub value_version : ℕ
  pub user_data : Option Bytes

unfoldable pub new_header_meta_v1 : HeaderMetaValue
new_header_meta_v1 = record {
  ver = value_header_v1;
  expire_at = 0;
  value_version = 0;
  user_data = none;
}

-- len and copy of a slice that may be nil.
abbrev pub bytes_of : Option Bytes → Bytes
bytes_of none = []
bytes_of (some b) = b

pub hdlen : HeaderMetaValue → ℕ
hdlen h = if h.ver == value_header_v1 then header_v1_len else 0

-- `int64(h.ExpireAt) - ts/int64(time.Second)` for a time that is not negative: the seconds left, 0
-- from the expiry on.
abbrev seconds_left : HeaderMetaValue → ℕ → ℕ
seconds_left h ts = h.expire_at - ts / second

-- -1 is `none`.
pub header_ttl : HeaderMetaValue → ℕ → Option ℕ
header_ttl h ts =
    if h.expire_at == 0
    then none
    else if leb (seconds_left h ts) 0
    then none
    else some (seconds_left h ts)

unfoldable pub header_is_expired : HeaderMetaValue → ℕ → Bool
header_is_expired h ts =
    if h.ver == value_header_v1
    then if h.expire_at == 0 || ts == 0 then false else leb (seconds_left h ts) 0
    else false

-- The thirteen bytes of a header.
unfoldable pub header_bytes : HeaderMetaValue → Bytes
header_bytes h = h.ver ∷ (put_uint32 h.expire_at ++ put_uint64 h.value_version)

-- The buffer keeps its length: what is written over its front replaces as many bytes, and a buffer
-- that is too short for a header is replaced. An unknown version panics.
pub encode_to : HeaderMetaValue → Bytes → Result (ℕ × Bytes)
unfolding header_bytes
encode_to h old =
    if h.ver == 0
    then ok (0, old)
    else if h.ver == value_header_v1
    then ok (header_v1_len, header_bytes h ++ drop header_v1_len old)
    else err index_panic

-- `b := make([]byte, h.hdlen()+len(h.UserData))`, the header, and the user data behind it.
unfoldable pub encode_with_data : HeaderMetaValue → Result Bytes
unfolding header_bytes
encode_with_data h =
    if h.ver == 0
    then ok (bytes_of h.user_data)
    else if h.ver == value_header_v1
    then ok (header_bytes h ++ bytes_of h.user_data)
    else err index_panic

-- The slice `b[headerV1Len:]` is not nil, though it may be empty.
header_fields : Bytes → Result HeaderMetaValue
header_fields [] = err header_meta
header_fields (v ∷ b) =
    if v == value_header_v1
    then ok (record {
      ver = v;
      expire_at = uint32 b;
      value_version = uint64 (drop 4 b);
      user_data = some (drop 12 b);
    })
    else err header_version

unfoldable pub decode_header : Bytes → Result HeaderMetaValue
unfolding header_fields
decode_header b = if ltb (length b) header_v1_len then err header_meta else header_fields b

-- The version key: the key and the version, each closed by a separator, as one comparable key.
abbrev pub default_sep : ℕ
default_sep = b':'

abbrev pub ver_key_values : HeaderMetaValue → Bytes → List Value
ver_key_values h key = bytes key ∷ byte default_sep ∷ int h.value_version ∷ byte default_sep ∷ []

-- The source drops the error of the encoder, which these values never cause.
result_or_nil : Result Bytes → Bytes
result_or_nil (ok b) = b
result_or_nil (err e) = []

unfoldable pub encode_ver_key : HeaderMetaValue → Bytes → Bytes
unfolding result_or_nil
encode_ver_key h key = result_or_nil (memcmp_encode [] (ver_key_values h key))

unfoldable pub is_versioned_type : ℕ → Bool
is_versioned_type dt =
    dt == hash_type || dt == set_type || dt == bitmap_type || dt == list_type || dt == zset_type

unfoldable pub encode_to_version_key : ℕ → HeaderMetaValue → Bytes → Bytes
encode_to_version_key dt h key = if is_versioned_type dt then encode_ver_key h key else key

version_fields : List Value → Result (Bytes × ℕ)
version_fields (bytes key ∷ a ∷ int ver ∷ b ∷ rest) = ok (key, ver)
version_fields (v ∷ a ∷ w ∷ b ∷ rest) = err index_panic
version_fields _ = err version_key

-- Fewer than four values are an error; a value of another type makes its assertion panic.
pub decode_from_version_key : ℕ → Bytes → Result (Bytes × ℕ)
unfolding version_fields
decode_from_version_key dt key =
    if is_versioned_type dt then (decode key (length key) >>= version_fields) else ok (key, 0)

unfoldable pub decode_raw_value : Option Bytes → Result HeaderMetaValue
decode_raw_value none = ok new_header_meta_v1
decode_raw_value (some raw) = decode_header raw

unfoldable pub raw_is_expired : ℕ → Option Bytes → Result Bool
raw_is_expired ts none = ok false
raw_is_expired ts (some raw) = do h ← decode_header raw; ok (header_is_expired h ts)

-- The expiry time is stored in 32 bits, and a time that does not fit is refused. `when` is signed.
abbrev pub max_expire : ℕ
max_expire = 0xfffffffe

pub raw_expire_at : Bytes → ℕ → Result Bytes
raw_expire_at raw when =
    if leb ((max_expire + 2 ^ 63) % 2 ^ 64) ((when + 2 ^ 63) % 2 ^ 64) then err exp_overflow else do
      h ← decode_header raw
      p ← encode_to (record h { expire_at = when % 2 ^ 32 }) raw
      ok (p.1)

pub raw_ttl : ℕ → Option Bytes → Result (Option ℕ)
raw_ttl ts none = ok none
raw_ttl ts (some raw) = do h ← decode_header raw; ok (header_ttl h ts)

-- What is written over an expired or missing value starts anew, under a version of its own.
unfoldable pub renew_on_expired : ℕ → HeaderMetaValue → HeaderMetaValue
renew_on_expired ts h = record h { expire_at = 0; user_data = none; value_version = ts }

unfoldable pub del_expire : Bytes → Bool → Result Bytes
del_expire raw false = ok raw
del_expire raw true = raw_expire_at raw 0
