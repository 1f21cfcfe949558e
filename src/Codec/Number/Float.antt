-- ===== src/Codec/Number/Float.antt =====
-- Round trip and order of the float64 encoder, on the IEEE 754 patterns.
use zan_redis_db.Prelude.{
  ℕ, ◌+◌, ◌-◌, ◌^◌, ◌<◌, ◌≤◌, ◌≡◌, ◌⊎◌, refl, ap, ◌∙◌, arith, [], length, ◌++◌, ltb, ◌==◌,
  if◌then◌else◌, compare, Ordering,
}
use zan_redis_db.Prelude.Bits.{or-sign_64, and-sign_64, and-ones_64}
use zan_redis_db.Result.{ok}
use zan_redis_db.Bytes.{Bytes, IsWord64, compare_bytes, and_then}
use zan_redis_db.Bytes.Words.{length-put_be}
use zan_redis_db.Codec.Number.{
  sign_mask, inf_bits, encode_float_to_cmp_uint64, decode_cmp_uint_to_float, encode_float,
  decode_float, encode_uint,
}
use zan_redis_db.Codec.Number.Laws.{decode_uint-encode_uint, encode_uint_order}

-- The pattern of a number: a magnitude up to that of infinity, under either sign.
abbrev pub IsNumber : ℕ → Type 0
IsNumber f = (f ≤ inf_bits) ⊎ ((sign_mask ≤ f) × (f ≤ sign_mask + inf_bits))

-- The order of floats: magnitudes grow away from zero on both sides, and the two zeros are equal.
abbrev pub float_rank : ℕ → ℕ
float_rank f = if ltb f (2 ^ 63) then 2 ^ 63 + f else 2 ^ 64 - f

abbrev pub compare_float : ℕ → ℕ → Ordering
compare_float a b = compare (float_rank a) (float_rank b)

-- What the encoder computes, in plain arithmetic.
cmp_float :
    (f : ℕ)
    → IsNumber f
    → encode_float_to_cmp_uint64 f
      ≡ (if ltb f (2 ^ 63) then f + 2 ^ 63 else if f == 2 ^ 63 then 2 ^ 63 else 2 ^ 64 - 1 - f)
unfolding encode_float_to_cmp_uint64
cmp_float f h = ground (arith, or-sign_64 f)

pub length-encode_float : (f : ℕ) → length (encode_float [] f) ≡ 8
unfolding encode_float encode_uint
length-encode_float f = length-put_be 8 _

pub encode_float-append : (b : Bytes) (f : ℕ) → encode_float b f ≡ b ++ encode_float [] f
unfolding encode_float encode_uint
encode_float-append b f = refl

float_order :
    (a b : ℕ)
    → IsNumber a
    → IsNumber b
    → compare (encode_float_to_cmp_uint64 a) (encode_float_to_cmp_uint64 b) ≡ compare_float a b
float_order a b ha hb = rw (cmp_float a ha, cmp_float b hb) (ground arith)

cmp_float-IsWord64 : (f : ℕ) → IsNumber f → IsWord64 (encode_float_to_cmp_uint64 f)
cmp_float-IsWord64 f h = rw (cmp_float f h) (ground arith)

-- Encoded floats, other than NaNs, are ordered as floats, and before whatever follows them.
pub encode_float_order :
    (a b : ℕ) (r s : Bytes)
    → IsNumber a
    → IsNumber b
    → compare_bytes (encode_float [] a ++ r) (encode_float [] b ++ s)
      ≡ and_then (compare_float a b) (compare_bytes r s)
unfolding encode_float
encode_float_order a b r s ha hb =
    encode_uint_order _ _ r s (cmp_float-IsWord64 a ha) (cmp_float-IsWord64 b hb)
    ∙ ap (λ (o : Ordering). and_then o (compare_bytes r s)) (float_order a b ha hb)

decode_high : (m : ℕ) → m < 2 ^ 63 → decode_cmp_uint_to_float (m + 2 ^ 63) ≡ m
unfolding decode_cmp_uint_to_float
decode_high m h = ground (arith, and-sign_64 m, and-ones_64 m)

decode_low : (u : ℕ) → u < 2 ^ 63 → decode_cmp_uint_to_float u ≡ 2 ^ 64 - 1 - u
unfolding decode_cmp_uint_to_float
decode_low u h = ground (arith, and-sign_64 u)

float_back :
    (f : ℕ)
    → IsNumber f
    → decode_cmp_uint_to_float (encode_float_to_cmp_uint64 f) ≡ (if f == 2 ^ 63 then 0 else f)
float_back f h =
    rw (cmp_float f h) (ground (arith, decode_high f, decode_high 0, decode_low (2 ^ 64 - 1 - f)))

-- DecodeFloat reads back every number that EncodeFloat wrote, but for the negative zero, which
-- comes back as zero.
pub decode_float-encode_float :
    (f : ℕ) (rest : Bytes)
    → IsNumber f
    → decode_float (encode_float [] f ++ rest) ≡ ok (rest, (if f == 2 ^ 63 then 0 else f))
unfolding decode_float encode_float
decode_float-encode_float f rest h =
    rw (decode_uint-encode_uint _ rest (cmp_float-IsWord64 f h), float_back f h)
