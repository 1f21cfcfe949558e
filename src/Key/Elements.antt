-- ===== src/Key/Elements.antt =====
-- The keys of list elements, hash fields and set members, and of the expire index: t_list.go,
-- t_hash.go, t_set.go and t_ttl.go of rockredis.
use zan_redis_db.Prelude.{
  ℕ, ◌+◌, ◌%◌, ◌^◌, [], ◌∷◌, ◌++◌, length, take, drop, ltb, ◌==◌, if◌then◌else◌,
}
use zan_redis_db.Result.{
  Error, Result, ok, err, list_key, hash_key, set_key, exp_meta_key, exp_time_key, ◌>>=◌,
}
use zan_redis_db.Bytes.{Bytes, put_uint16, put_uint64, uint16, uint64}
use zan_redis_db.Key.{
  list_type, hash_type, set_type, coll_start_sep, coll_stop_sep, exp_time_type, exp_meta_type,
  encode_data_table_prefix, decode_data_table_prefix, bump_last, sized, expect_sep,
}

-- List elements: the sequence number is the last field, so elements are stored in order.
unfoldable pub l_encode_list_key : Bytes → Bytes → ℕ → Bytes
l_encode_list_key table key seq =
    encode_data_table_prefix list_type table
    ++ (put_uint16 (length key % 2 ^ 16) ++ (key ++ put_uint64 seq))

unfoldable pub list_body : Bytes → Bytes → Result (Bytes × Bytes × ℕ)
list_body table buf =
    let key_len = uint16 buf in
    let body = drop 2 buf in
    if ltb (length buf) 2
    then err list_key
    else if key_len + 8 == length body
    then ok (table, take key_len body, uint64 (drop key_len body))
    else err list_key

unfoldable pub l_decode_list_key : Bytes → Result (Bytes × Bytes × ℕ)
unfolding list_body
l_decode_list_key ek = do
  (table, rest) ← decode_data_table_prefix ek list_type
  list_body table rest

-- Fields of a hash and members of a set.
unfoldable pub coll_key : ℕ → Bytes → Bytes → Bytes → Bytes
coll_key dt table key field =
    encode_data_table_prefix dt table
    ++ (put_uint16 (length key % 2 ^ 16) ++ (key ++ (coll_start_sep ∷ field)))

unfoldable pub decode_coll_key : ℕ → Error → Bytes → Result (Bytes × Bytes × Bytes)
unfolding sized expect_sep
decode_coll_key dt e ek = do
  (table, rest) ← decode_data_table_prefix ek dt
  (key, rest') ← sized e rest
  field ← expect_sep coll_start_sep e rest'
  ok (table, key, field)

unfoldable pub h_encode_hash_key : Bytes → Bytes → Bytes → Bytes
unfolding coll_key
h_encode_hash_key table key field = coll_key hash_type table key field

unfoldable pub h_decode_hash_key : Bytes → Result (Bytes × Bytes × Bytes)
unfolding decode_coll_key
h_decode_hash_key ek = decode_coll_key hash_type hash_key ek

unfoldable pub h_encode_start_key : Bytes → Bytes → Bytes
unfolding h_encode_hash_key
h_encode_start_key table key = h_encode_hash_key table key []

unfoldable pub h_encode_stop_key : Bytes → Bytes → Bytes
unfolding h_encode_hash_key bump_last
h_encode_stop_key table key = bump_last (h_encode_hash_key table key [])

unfoldable pub s_encode_set_key : Bytes → Bytes → Bytes → Bytes
unfolding coll_key
s_encode_set_key table key member = coll_key set_type table key member

unfoldable pub s_decode_set_key : Bytes → Result (Bytes × Bytes × Bytes)
unfolding decode_coll_key
s_decode_set_key ek = decode_coll_key set_type set_key ek

unfoldable pub s_encode_start_key : Bytes → Bytes → Bytes
unfolding s_encode_set_key
s_encode_start_key table key = s_encode_set_key table key []

-- The last byte becomes `collStopSep`.
unfoldable pub set_last : ℕ → Bytes → Bytes
set_last v [] = []
set_last v (x ∷ []) = v ∷ []
set_last v (x ∷ y ∷ k) = x ∷ set_last v (y ∷ k)

unfoldable pub s_encode_stop_key : Bytes → Bytes → Bytes
unfolding s_encode_set_key set_last
s_encode_stop_key table key = set_last coll_stop_sep (s_encode_set_key table key [])

-- The expire index of t_ttl.go.
unfoldable pub exp_encode_time_key : ℕ → Bytes → ℕ → Bytes
exp_encode_time_key dt key when = exp_time_type ∷ (put_uint64 when ++ (dt ∷ key))

unfoldable pub exp_encode_meta_key : ℕ → Bytes → Bytes
exp_encode_meta_key dt key = exp_meta_type ∷ (dt ∷ key)

unfoldable pub exp_decode_meta_key : Bytes → Result (ℕ × Bytes)
exp_decode_meta_key (t ∷ dt ∷ key) = if t == exp_meta_type then ok (dt, key) else err exp_meta_key
exp_decode_meta_key _ = err exp_meta_key

unfoldable pub exp_time_body : Bytes → ℕ → Result (ℕ × Bytes × ℕ)
exp_time_body (dt ∷ key) when = ok (dt, key, when)
exp_time_body [] when = err exp_time_key

unfoldable pub exp_decode_time_key : Bytes → Result (ℕ × Bytes × ℕ)
unfolding exp_time_body
exp_decode_time_key [] = err exp_time_key
exp_decode_time_key (t ∷ tk) =
    if ltb (length (t ∷ tk)) 10
    then err exp_time_key
    else if t == exp_time_type
    then exp_time_body (drop 8 tk) (uint64 tk)
    else err exp_time_key
