-- ===== src/Codec/Examples.antt =====
-- The encoders at concrete values, and the theorems about them at concrete inputs.
use zan_redis_db.Prelude.{◌≡◌, refl, arith, [], ◌∷◌, map}
use zan_redis_db.Result.{ok, err, insufficient_bytes, ◌>>=◌}
use zan_redis_db.Bytes.{compare_bytes}
use zan_redis_db.Codec.Group.{
  encode_groups, encode_bytes, decode_groups, decode_bytes_with, decode_bytes,
}
use zan_redis_db.Codec.Memcmp.{int, bytes, memcmp_encode, decode}
use zan_redis_db.Codec.Memcmp.Laws.{decode-memcmp_encode, decoded}
use zan_redis_db.Codec.Memcmp.Order.{memcmp_encode_order, compare_values}

-- The examples in the comment on EncodeBytes.
three_bytes : encode_bytes [] (1 ∷ 2 ∷ 3 ∷ []) ≡ 1 ∷ 2 ∷ 3 ∷ 0 ∷ 0 ∷ 0 ∷ 0 ∷ 0 ∷ 250 ∷ []
unfolding encode_bytes encode_groups
three_bytes = refl

eight_bytes :
    encode_bytes [] (1 ∷ 2 ∷ 3 ∷ 4 ∷ 5 ∷ 6 ∷ 7 ∷ 8 ∷ [])
    ≡ 1 ∷ 2 ∷ 3 ∷ 4 ∷ 5 ∷ 6 ∷ 7 ∷ 8 ∷ 255 ∷ 0 ∷ 0 ∷ 0 ∷ 0 ∷ 0 ∷ 0 ∷ 0 ∷ 0 ∷ 247 ∷ []
unfolding encode_bytes encode_groups
eight_bytes = refl

cut_short : decode_bytes (1 ∷ 2 ∷ 3 ∷ []) ≡ err insufficient_bytes
unfolding decode_bytes decode_bytes_with decode_groups
cut_short = refl

decode-memcmp_encode_example :
    (memcmp_encode [] (bytes (b'k' ∷ []) ∷ int 7 ∷ []) >>= λ b. decode b 20)
    ≡ ok (map decoded (bytes (b'k' ∷ []) ∷ int 7 ∷ []))
decode-memcmp_encode_example =
    decode-memcmp_encode (bytes (b'k' ∷ [])) (int 7 ∷ []) 20 (tt, (omega arith, tt))

memcmp_encode_order_example :
    (do
      x ← memcmp_encode [] (bytes (b'k' ∷ []) ∷ int 7 ∷ [])
      y ← memcmp_encode [] (bytes (b'k' ∷ []) ∷ int 9 ∷ [])
      ok (compare_bytes x y))
    ≡ ok (compare_values (bytes (b'k' ∷ []) ∷ int 7 ∷ []) (bytes (b'k' ∷ []) ∷ int 9 ∷ []))
memcmp_encode_order_example =
    memcmp_encode_order (bytes (b'k' ∷ []) ∷ int 7 ∷ []) (bytes (b'k' ∷ []) ∷ int 9 ∷ [])
      (tt, ((omega arith, omega arith), tt))
