-- ===== src/Key/RoundTrip.antt =====
-- Decoding the engine's keys gives back what they were built of.
use zan_redis_db.Prelude.{
  ℕ, suc, ◌+◌, ◌%◌, ◌^◌, ◌<◌, ◌≡◌, refl, sym, ap, ◌∙◌, arith, [], ◌∷◌, ◌++◌, length, length-append,
  append_assoc, append-nil, take-append, drop-append, drop-append_at, le→ltb, ◌==◌, ==_iff, true,
  false,
}
use native.Mathlib.Nat.{mod-eq_of_lt}
use zan_redis_db.Result.{Error, ok, err, table_data_prefix, index_panic}
use zan_redis_db.Bytes.{Bytes, IsWord64, put_be, put_uint16, put_uint64}
use zan_redis_db.Bytes.Words.{length-put_be, get_be-put_be, get_be-put_be_whole}
use zan_redis_db.Key.{
  sized, encode_data_table_prefix, decode_data_table_prefix, kv_type, list_type, hash_type,
  set_type, table_start_sep, coll_start_sep, hash_key, set_key,
}
use zan_redis_db.Key.Elements.{
  l_encode_list_key, l_decode_list_key, coll_key, decode_coll_key, h_encode_hash_key,
  h_decode_hash_key, s_encode_set_key, s_decode_set_key, exp_encode_time_key, exp_decode_time_key,
}

-- A name that fits its two-byte length field.
abbrev pub FitsUint16 : Bytes → Type 0
FitsUint16 name = length name < 2 ^ 16

abbrev sized_bytes : Bytes → Bytes
sized_bytes name = put_uint16 (length name % 2 ^ 16)

==_self : (n : ℕ) → (n == n) ≡ true
==_self n = ground arith

sized-put :
    (e : Error) (name rest : Bytes)
    → FitsUint16 name
    → sized e (sized_bytes name ++ (name ++ rest)) ≡ ok (name, rest)
unfolding sized
sized-put e name rest h =
    let len : ℕ = length name % 2 ^ 16 in
    let whole : len ≡ length name = mod-eq_of_lt h in
    rw (
      le→ltb (length (put_be 2 len ++ (name ++ rest))) 2
          (omega (arith, length-append (put_be 2 len) (name ++ rest), length-put_be 2 len)),
      get_be-put_be 2 len (name ++ rest) (omega arith),
      drop-append_at 2 (put_be 2 len) (name ++ rest) (length-put_be 2 len),
      whole,
      le→ltb (length (name ++ rest)) (length name) (omega (arith, length-append name rest)),
      take-append name rest,
      drop-append name rest,
    )

-- The table prefix of a key that is not a key-value key.
prefix_shape :
    (dt : ℕ) (table : Bytes)
    → (dt == kv_type) ≡ false
    → encode_data_table_prefix dt table
      ≡ dt ∷ (sized_bytes table ++ (table ++ (table_start_sep ∷ [])))
unfolding encode_data_table_prefix
prefix_shape dt table h = rw h

regroup : (a b c d : Bytes) → (a ++ (b ++ c)) ++ d ≡ a ++ (b ++ (c ++ d))
regroup a b c d = append_assoc a (b ++ c) d ∙ ap (λ (t : Bytes). a ++ t) (append_assoc b c d)

pub decode-encode_prefix :
    (dt : ℕ) (table rest : Bytes)
    → (dt == kv_type) ≡ false
    → FitsUint16 table
    → decode_data_table_prefix (encode_data_table_prefix dt table ++ rest) dt ≡ ok (table, rest)
unfolding decode_data_table_prefix
decode-encode_prefix dt table rest h fits = rw (prefix_shape dt table h) (
    rw (
      ==_self dt,
      regroup (sized_bytes table) table (table_start_sep ∷ []) rest,
      sized-put table_data_prefix table (table_start_sep ∷ rest) fits,
    ))

-- The decoder of table prefixes panics on a key of the type it looks for that ends behind its
-- table, where the table fits its length field: the separator is read with no check that a byte is
-- left.
pub decode_data_table_prefix_panics :
    (dt : ℕ) (table : Bytes)
    → FitsUint16 table
    → decode_data_table_prefix (dt ∷ (put_uint16 (length table % 2 ^ 16) ++ table)) dt
      ≡ err index_panic
unfolding decode_data_table_prefix
decode_data_table_prefix_panics dt table fits = rw (==_self dt) (
    rw (ap (λ (t : Bytes). put_uint16 (length table % 2 ^ 16) ++ t) (sym (append-nil table)))
      (rw (sized-put table_data_prefix table [] fits)))

-- lDecodeListKey reads back the table, the key and the sequence number of lEncodeListKey, where
-- both names fit their length fields and the number is an int64.
pub l_decode-l_encode_list_key :
    (table key : Bytes) (seq : ℕ)
    → FitsUint16 table
    → FitsUint16 key
    → IsWord64 seq
    → l_decode_list_key (l_encode_list_key table key seq) ≡ ok (table, key, seq)
unfolding l_decode_list_key l_encode_list_key
l_decode-l_encode_list_key table key seq ht hk hs =
    let len : ℕ = length key % 2 ^ 16 in
    let body : Bytes = key ++ put_uint64 seq in
    let whole : len ≡ length key = mod-eq_of_lt hk in
    rw
      (
        decode-encode_prefix list_type table (put_uint16 len ++ body) refl ht,
        le→ltb (length (put_be 2 len ++ body)) 2
            (omega (arith, length-append (put_be 2 len) body, length-put_be 2 len)),
        get_be-put_be 2 len body (omega arith),
        drop-append_at 2 (put_be 2 len) body (length-put_be 2 len),
      )
      (rw (
        whole,
        (==_iff (length key + 8) (length body)).1
            (omega (arith, length-append key (put_be 8 seq), length-put_be 8 seq)),
        take-append key (put_uint64 seq),
        drop-append key (put_uint64 seq),
        get_be-put_be_whole 8 seq hs,
      ))

decode-coll_key :
    (dt : ℕ) (e : Error) (table key field : Bytes)
    → (dt == kv_type) ≡ false
    → FitsUint16 table
    → FitsUint16 key
    → decode_coll_key dt e (coll_key dt table key field) ≡ ok (table, key, field)
unfolding decode_coll_key coll_key
decode-coll_key dt e table key field h ht hk = rw (
  decode-encode_prefix dt table (sized_bytes key ++ (key ++ (coll_start_sep ∷ field))) h ht,
  sized-put e key (coll_start_sep ∷ field) hk,
)

-- hDecodeHashKey reads back the table, the key and the field of hEncodeHashKey, where the two
-- names fit their length fields. The field may be any bytes.
pub h_decode-h_encode_hash_key :
    (table key field : Bytes)
    → FitsUint16 table
    → FitsUint16 key
    → h_decode_hash_key (h_encode_hash_key table key field) ≡ ok (table, key, field)
unfolding h_decode_hash_key h_encode_hash_key
h_decode-h_encode_hash_key table key field = decode-coll_key hash_type hash_key table key field refl

-- The same for the members of a set.
pub s_decode-s_encode_set_key :
    (table key member : Bytes)
    → FitsUint16 table
    → FitsUint16 key
    → s_decode_set_key (s_encode_set_key table key member) ≡ ok (table, key, member)
unfolding s_decode_set_key s_encode_set_key
s_decode-s_encode_set_key table key member = decode-coll_key set_type set_key table key member refl

-- expDecodeTimeKey reads back the type, the key and the time of expEncodeTimeKey.
pub exp_decode-exp_encode_time_key :
    (dt : ℕ) (key : Bytes) (when : ℕ)
    → IsWord64 when
    → exp_decode_time_key (exp_encode_time_key dt key when) ≡ ok (dt, key, when)
unfolding exp_decode_time_key exp_encode_time_key
exp_decode-exp_encode_time_key dt key when h = rw (
  le→ltb (suc (length (put_be 8 when ++ dt ∷ key))) 10
      (omega (arith, length-append (put_be 8 when) (dt ∷ key), length-put_be 8 when)),
  drop-append_at 8 (put_be 8 when) (dt ∷ key) (length-put_be 8 when),
  get_be-put_be 8 when (dt ∷ key) h,
)
