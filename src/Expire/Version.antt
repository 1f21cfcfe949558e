-- ===== src/Expire/Version.antt =====
-- Version keys: how a collection that is written anew is kept apart from what is left of the old one.
use zan_redis_db.Prelude.{
  ℕ, ◌+◌, ◌*◌, ◌≤◌, ◌≡◌, sym, ap, ◌∙◌, arith, true, List, All, [], ◌∷◌, ◌++◌, length, length-append,
}
use zan_redis_db.Result.{Result, ok, ◌>>=◌}
use zan_redis_db.Bytes.{Bytes, IsWord64}
use zan_redis_db.Codec.Number.Laws.{length-encode_int}
use zan_redis_db.Codec.Number.{encode_int}
use zan_redis_db.Codec.Group.{encode_bytes}
use zan_redis_db.Codec.Group.Shape.{encode_bytes-groups, length-groups_le}
use zan_redis_db.Codec.Memcmp.{Value, bytes, byte, int, decode}
use zan_redis_db.Codec.Memcmp.Laws.{
  IsEncodable, tuple_bytes, memcmp_encode-tuple_bytes, decode-tuple_bytes,
}
use zan_redis_db.Key.{max_key_size}
use zan_redis_db.Key.Elements.{h_encode_start_key, h_encode_stop_key, h_encode_hash_key}
use zan_redis_db.Key.RoundTrip.{FitsUint16}
use zan_redis_db.Key.Scan.{InRange, hash_scan_exact}
use zan_redis_db.Expire.{
  result_or_nil, HeaderMetaValue, ver_key_values, default_sep, encode_ver_key, is_versioned_type,
  encode_to_version_key, decode_from_version_key, version_fields,
}

encodable :
    (h : HeaderMetaValue) (key : Bytes)
    → IsWord64 h.value_version
    → All IsEncodable (ver_key_values h key)
encodable h key v = (tt, (omega arith, (v, (omega arith, tt))))

ver_key-tuple_bytes :
    (h : HeaderMetaValue) (key : Bytes)
    → IsWord64 h.value_version
    → encode_ver_key h key ≡ tuple_bytes (ver_key_values h key)
unfolding encode_ver_key
ver_key-tuple_bytes h key v =
    ap result_or_nil (memcmp_encode-tuple_bytes [] (ver_key_values h key) (encodable h key v))

decode-ver_key :
    (h : HeaderMetaValue) (key : Bytes) (size : ℕ)
    → IsWord64 h.value_version
    → (decode (encode_ver_key h key) size >>= version_fields) ≡ ok (key, h.value_version)
unfolding version_fields
decode-ver_key h key size v =
    ap (λ (b : Bytes). decode b size >>= version_fields) (ver_key-tuple_bytes h key v)
    ∙ ap (λ (r : Result (List Value)). r >>= version_fields)
        (decode-tuple_bytes (bytes key)
          (byte default_sep ∷ int h.value_version ∷ byte default_sep ∷ []) size (encodable h key v))

-- The version key of a versioned data type, with an int64 version, is read back: the key, and the
-- version.
pub decode-encode_version_key :
    (dt : ℕ) (h : HeaderMetaValue) (key : Bytes)
    → is_versioned_type dt ≡ true
    → IsWord64 h.value_version
    → decode_from_version_key dt (encode_to_version_key dt h key) ≡ ok (key, h.value_version)
unfolding decode_from_version_key encode_to_version_key
decode-encode_version_key dt h key versioned v =
    rw versioned (decode-ver_key h key (length (encode_ver_key h key)) v)

-- Version keys with int64 versions are equal only if the keys and the versions are.
pub encode_ver_key-injective :
    (h h' : HeaderMetaValue) (key key' : Bytes)
    → IsWord64 h.value_version
    → IsWord64 h'.value_version
    → encode_ver_key h key ≡ encode_ver_key h' key'
    → (key ≡ key') × (h.value_version ≡ h'.value_version)
encode_ver_key-injective h h' key key' v v' e = same (
    sym (decode-ver_key h key 0 v)
    ∙ ap (λ (b : Bytes). decode b 0 >>= version_fields) e
    ∙ decode-ver_key h' key' 0 v')
  where
    same :
        {a a' : Bytes} {n n' : ℕ}
        → ◌≡◌ {A = Result (Bytes × ℕ)} (ok (a, n)) (ok (a', n'))
        → (a ≡ a') × (n ≡ n')
    same p = ground arith

length-encode_bytes : (key : Bytes) → 8 * length (encode_bytes [] key) ≤ 9 * length key + 72
length-encode_bytes key =
    omega (arith, ap length (encode_bytes-groups [] key), length-groups_le 8 key (omega arith))

-- The version key of every key of an allowed size fits the two-byte length field of element keys.
pub encode_ver_key-FitsUint16 :
    (h : HeaderMetaValue) (key : Bytes)
    → IsWord64 h.value_version
    → length key ≤ max_key_size
    → FitsUint16 (encode_ver_key h key)
encode_ver_key-FitsUint16 h key v small =
    let sep : Bytes = encode_int [] default_sep in
    let version : Bytes = encode_int [] h.value_version in
    rw (ver_key-tuple_bytes h key v) (
      omega (
        arith,
        length-encode_bytes key,
        length-append (encode_bytes [] key) (3 ∷ (sep ++ 3 ∷ (version ++ 3 ∷ (sep ++ [])))),
        length-append sep (3 ∷ (version ++ 3 ∷ (sep ++ []))),
        length-append version (3 ∷ (sep ++ [])),
        length-append sep [],
        length-encode_int default_sep,
        length-encode_int h.value_version,
      ))

-- A scan of a hash under one int64 version meets no field that was stored for another version of
-- it, or for another key, where the keys are of an allowed size and the tables fit their two-byte
-- length field.
pub hash_scan_version :
    (h h' : HeaderMetaValue) (table key table' key' field : Bytes)
    → IsWord64 h.value_version
    → IsWord64 h'.value_version
    → length key ≤ max_key_size
    → length key' ≤ max_key_size
    → FitsUint16 table
    → FitsUint16 table'
    → InRange
        (h_encode_start_key table (encode_ver_key h key))
        (h_encode_stop_key table (encode_ver_key h key))
        (h_encode_hash_key table' (encode_ver_key h' key') field)
    → (table' ≡ table) × (key' ≡ key) × (h'.value_version ≡ h.value_version)
hash_scan_version h h' table key table' key' field v v' small small' ht ht' inside =
    let (et, ek) =
      (hash_scan_exact table (encode_ver_key h key) table' (encode_ver_key h' key') field ht
          (encode_ver_key-FitsUint16 h key v small) ht'
          (encode_ver_key-FitsUint16 h' key' v' small')).0
        inside in
    let (same_key, same_version) = encode_ver_key-injective h' h key' key v' v ek in
    (et, same_key, same_version)
