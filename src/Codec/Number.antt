-- ===== src/Codec/Number.antt =====
-- rockredis/number.go. An int64, a uint64 and a float64 are their bit patterns, so the conversions
-- between them are the identity.
pub mod Laws
pub mod Float
use Prim.Native.Nat.{bit_xor, bit_or, bit_and}
use zan_redis_db.Prelude.{
  ℕ, ◌-◌, ◌^◌, ◌++◌, Bool, not, ◌&&◌, ◌||◌, ltb, leb, ◌==◌, if◌then◌else◌, length, drop,
}
use zan_redis_db.Result.{Result, ok, err, insufficient_bytes, ◌>>=◌}
use zan_redis_db.Bytes.{Bytes, put_uint64, uint64}

abbrev pub sign_mask : ℕ
sign_mask = 0x8000000000000000

-- `^u` on a uint64.
abbrev pub complement : ℕ → ℕ
complement u = 0xffffffffffffffff - u

pub encode_int_to_cmp_uint : ℕ → ℕ
encode_int_to_cmp_uint v = bit_xor v sign_mask

pub decode_cmp_uint_to_int : ℕ → ℕ
decode_cmp_uint_to_int u = bit_xor u sign_mask

pub encode_int : Bytes → ℕ → Bytes
encode_int b v = b ++ put_uint64 (encode_int_to_cmp_uint v)

pub encode_int_desc : Bytes → ℕ → Bytes
encode_int_desc b v = b ++ put_uint64 (complement (encode_int_to_cmp_uint v))

pub decode_int : Bytes → Result (Bytes × ℕ)
decode_int b =
    if ltb (length b) 8
    then err insufficient_bytes
    else ok (drop 8 b, decode_cmp_uint_to_int (uint64 b))

pub decode_int_desc : Bytes → Result (Bytes × ℕ)
decode_int_desc b =
    if ltb (length b) 8
    then err insufficient_bytes
    else ok (drop 8 b, decode_cmp_uint_to_int (complement (uint64 b)))

pub encode_uint : Bytes → ℕ → Bytes
encode_uint b v = b ++ put_uint64 v

pub encode_uint_desc : Bytes → ℕ → Bytes
encode_uint_desc b v = b ++ put_uint64 (complement v)

pub decode_uint : Bytes → Result (Bytes × ℕ)
decode_uint b = if ltb (length b) 8 then err insufficient_bytes else ok (drop 8 b, uint64 b)

pub decode_uint_desc : Bytes → Result (Bytes × ℕ)
decode_uint_desc b =
    if ltb (length b) 8 then err insufficient_bytes else ok (drop 8 b, complement (uint64 b))

-- Go's `f >= 0` on the pattern of a float64: it fails at a NaN, and holds at the negative zero.
abbrev pub inf_bits : ℕ
inf_bits = 0x7ff0000000000000

abbrev pub float_ge_zero : ℕ → Bool
float_ge_zero f = leb f inf_bits || f == sign_mask

pub encode_float_to_cmp_uint64 : ℕ → ℕ
encode_float_to_cmp_uint64 f = if float_ge_zero f then bit_or f sign_mask else complement f

pub decode_cmp_uint_to_float : ℕ → ℕ
decode_cmp_uint_to_float u =
    if ltb 0 (bit_and u sign_mask) then bit_and u (complement sign_mask) else complement u

pub encode_float : Bytes → ℕ → Bytes
encode_float b f = encode_uint b (encode_float_to_cmp_uint64 f)

pub decode_float : Bytes → Result (Bytes × ℕ)
decode_float b = do (rest, u) ← decode_uint b; ok (rest, decode_cmp_uint_to_float u)

pub encode_float_desc : Bytes → ℕ → Bytes
encode_float_desc b f = encode_uint_desc b (encode_float_to_cmp_uint64 f)

pub decode_float_desc : Bytes → Result (Bytes × ℕ)
decode_float_desc b = do (rest, u) ← decode_uint_desc b; ok (rest, decode_cmp_uint_to_float u)
