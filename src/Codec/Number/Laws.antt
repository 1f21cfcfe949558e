-- ===== src/Codec/Number/Laws.antt =====
-- Round trips and order of the number encoders.
use zan_redis_db.Prelude.{
  ℕ, ◌+◌, ◌%◌, ◌^◌, ◌≡◌, refl, sym, ap, ◌∙◌, arith, [], ◌++◌, false, length, length-append,
  drop-append_at, compare, Ordering, ltb, le→ltb,
}
use zan_redis_db.Prelude.Bits.{xor-sign_64}
use zan_redis_db.Result.{ok}
use zan_redis_db.Bytes.{Bytes, IsWord64, compare_bytes, compare_int64, and_then, put_be}
use zan_redis_db.Bytes.Words.{length-put_be, get_be-put_be}
use zan_redis_db.Bytes.Order.{compare_bytes-put_be, compare_bytes-append}
use zan_redis_db.Codec.Number.{
  complement, encode_int_to_cmp_uint, decode_cmp_uint_to_int, encode_int, encode_int_desc,
  decode_int, decode_int_desc, encode_uint, decode_uint,
}

cmp_uint : (v : ℕ) → IsWord64 v → encode_int_to_cmp_uint v ≡ (v + 2 ^ 63) % 2 ^ 64
unfolding encode_int_to_cmp_uint
cmp_uint v h = xor-sign_64 v h

cmp_int : (v : ℕ) → IsWord64 v → decode_cmp_uint_to_int v ≡ (v + 2 ^ 63) % 2 ^ 64
unfolding decode_cmp_uint_to_int
cmp_int v h = xor-sign_64 v h

pub decode-encode_cmp_uint :
    (v : ℕ) → IsWord64 v → decode_cmp_uint_to_int (encode_int_to_cmp_uint v) ≡ v
decode-encode_cmp_uint v h =
    rw (cmp_uint v h) (cmp_int ((v + 2 ^ 63) % 2 ^ 64) (omega arith) ∙ omega arith)

-- The checks of a decoder pass on a word in front of other bytes.
word_fits : (v : ℕ) (rest : Bytes) → ltb (length (put_be 8 v ++ rest)) 8 ≡ false
word_fits v rest = le→ltb _ _ (omega (arith, length-append (put_be 8 v) rest, length-put_be 8 v))

-- DecodeUint reads back what EncodeUint wrote, and leaves what follows.
pub decode_uint-encode_uint :
    (v : ℕ) (rest : Bytes) → IsWord64 v → decode_uint (encode_uint [] v ++ rest) ≡ ok (rest, v)
unfolding decode_uint encode_uint
decode_uint-encode_uint v rest h = rw (
  word_fits v rest,
  get_be-put_be 8 v rest h,
  drop-append_at 8 (put_be 8 v) rest (length-put_be 8 v),
)

pub length-encode_int : (v : ℕ) → length (encode_int [] v) ≡ 8
unfolding encode_int
length-encode_int v = length-put_be 8 _

pub encode_int-append : (b : Bytes) (v : ℕ) → encode_int b v ≡ b ++ encode_int [] v
unfolding encode_int
encode_int-append b v = refl

-- DecodeInt reads back every int64 that EncodeInt wrote, and leaves what follows.
pub decode_int-encode_int :
    (v : ℕ) (rest : Bytes) → IsWord64 v → decode_int (encode_int [] v ++ rest) ≡ ok (rest, v)
unfolding decode_int encode_int
decode_int-encode_int v rest h =
    let u : ℕ = encode_int_to_cmp_uint v in
    let fits : IsWord64 u = omega (arith, cmp_uint v h) in
    rw (
      word_fits u rest,
      get_be-put_be 8 u rest fits,
      drop-append_at 8 (put_be 8 u) rest (length-put_be 8 u),
      decode-encode_cmp_uint v h,
    )

complement-complement : (u : ℕ) → IsWord64 u → complement (complement u) ≡ u
complement-complement u h = omega arith

complement_order :
    (a b : ℕ) → IsWord64 a → IsWord64 b → compare (complement a) (complement b) ≡ compare b a
complement_order a b ha hb = ground arith

-- The descending pair reads back what it wrote as well.
pub decode_int_desc-encode_int_desc :
    (v : ℕ) (rest : Bytes)
    → IsWord64 v
    → decode_int_desc (encode_int_desc [] v ++ rest) ≡ ok (rest, v)
unfolding decode_int_desc encode_int_desc
decode_int_desc-encode_int_desc v rest h =
    let u : ℕ = encode_int_to_cmp_uint v in
    let fits : IsWord64 u = omega (arith, cmp_uint v h) in
    rw (
      word_fits (complement u) rest,
      get_be-put_be 8 (complement u) rest (omega arith),
      drop-append_at 8 (put_be 8 (complement u)) rest (length-put_be 8 (complement u)),
      complement-complement u fits,
      decode-encode_cmp_uint v h,
    )

word_order :
    (a b : ℕ) (r s : Bytes)
    → IsWord64 a
    → IsWord64 b
    → compare_bytes (put_be 8 a ++ r) (put_be 8 b ++ s) ≡ and_then (compare a b) (compare_bytes r s)
word_order a b r s ha hb =
    compare_bytes-append (put_be 8 a) (put_be 8 b) r s (length-put_be 8 a ∙ sym (length-put_be 8 b))
    ∙ ap (λ (o : Ordering). and_then o (compare_bytes r s)) (compare_bytes-put_be 8 a b ha hb)

pub encode_uint_order :
    (a b : ℕ) (r s : Bytes)
    → IsWord64 a
    → IsWord64 b
    → compare_bytes (encode_uint [] a ++ r) (encode_uint [] b ++ s)
      ≡ and_then (compare a b) (compare_bytes r s)
unfolding encode_uint
encode_uint_order a b r s ha hb = word_order a b r s ha hb

-- Encoded int64s are ordered as signed numbers, and before whatever follows them.
pub encode_int_order :
    (a b : ℕ) (r s : Bytes)
    → IsWord64 a
    → IsWord64 b
    → compare_bytes (encode_int [] a ++ r) (encode_int [] b ++ s)
      ≡ and_then (compare_int64 a b) (compare_bytes r s)
unfolding encode_int
encode_int_order a b r s ha hb =
    rw (cmp_uint a ha, cmp_uint b hb) (word_order _ _ r s (omega arith) (omega arith))

-- The descending encoder turns the order of int64s round, and puts them before whatever follows
-- them.
pub encode_int_desc_order :
    (a b : ℕ) (r s : Bytes)
    → IsWord64 a
    → IsWord64 b
    → compare_bytes (encode_int_desc [] a ++ r) (encode_int_desc [] b ++ s)
      ≡ and_then (compare_int64 b a) (compare_bytes r s)
unfolding encode_int_desc
encode_int_desc_order a b r s ha hb =
    rw (cmp_uint a ha, cmp_uint b hb)
      (word_order _ _ r s (omega arith) (omega arith)
        ∙ ap (λ (o : Ordering). and_then o (compare_bytes r s))
            (complement_order _ _ (omega arith) (omega arith)))
