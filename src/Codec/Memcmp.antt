-- ===== src/Codec/Memcmp.antt =====
-- rockredis/memcmp_codec.go: a tuple of values as one key, each value behind a flag byte.
pub mod Laws
pub mod Order
pub mod Peek
use zan_redis_db.Prelude.{
  ℕ, zero, suc, ◌+◌, ◌-◌, Bool, false, List, [], ◌∷◌, ◌++◌, length, drop, take, get_or, ltb, ◌==◌,
  if◌then◌else◌,
}
use zan_redis_db.Result.{
  Error, Result, ok, err, insufficient_bytes, invalid_flag, empty_key, unsupported_type,
  out_of_fuel, ◌>>=◌,
}
use zan_redis_db.Bytes.{Bytes}
use zan_redis_db.Codec.Number.{encode_int, decode_int, encode_float, decode_float}
use zan_redis_db.Codec.Group.{encode_bytes, decode_bytes}

abbrev pub nil_flag : ℕ
nil_flag = 0

abbrev pub bytes_flag : ℕ
bytes_flag = 1

abbrev pub int_flag : ℕ
int_flag = 3

abbrev pub float_flag : ℕ
float_flag = 5

abbrev pub max_flag : ℕ
max_flag = 250

-- The dynamic types that the type switch of memcmpEncode tells apart: a `byte`; the signed types,
-- by their int64 pattern; a `string` and a `[]byte`; a float, by its float64 pattern; nil; others.
pub data Value : Type 0 where
  byte : ℕ → Value
  int : ℕ → Value
  string : Bytes → Value
  bytes : Bytes → Value
  float : ℕ → Value
  nil : Value
  other : Value

unfoldable pub encode_bytes_value : Bytes → Bytes → Bytes
encode_bytes_value b v = encode_bytes (b ++ bytes_flag ∷ []) v

unfoldable pub encode_int64 : Bytes → ℕ → Bytes
encode_int64 b v = encode_int (b ++ int_flag ∷ []) v

-- One turn of the loop of memcmpEncode.
unfoldable pub encode_value : Bytes → Value → Result Bytes
encode_value b (byte v) = ok (encode_int64 b v)
encode_value b (int v) = ok (encode_int64 b v)
encode_value b (string v) = ok (encode_bytes_value b v)
encode_value b (bytes v) = ok (encode_bytes_value b v)
encode_value b (float v) = ok (encode_float (b ++ float_flag ∷ []) v)
encode_value b nil = ok (b ++ nil_flag ∷ [])
encode_value b other = err unsupported_type

unfoldable pub memcmp_encode : Bytes → List Value → Result Bytes
memcmp_encode b [] = ok b
memcmp_encode b (v ∷ vals) = do b' ← encode_value b v; memcmp_encode b' vals

abbrev pub encode_mem_cmp_key : Bytes → List Value → Result Bytes
encode_mem_cmp_key = memcmp_encode

pub encode_max_key : Bytes → Bytes
encode_max_key b = b ++ max_flag ∷ []

pub encode_min_not_null : Bytes → Bytes
encode_min_not_null b = b ++ bytes_flag ∷ []

abbrev with_value : {A : Type 0} → (A → Value) → Result (Bytes × A) → Result (Bytes × Value)
with_value f r = r >>= λ p. ok (p.0, f p.1)

decode_flagged : ℕ → Bytes → Result (Bytes × Value)
decode_flagged flag b =
    if flag == int_flag
    then with_value int (decode_int b)
    else if flag == float_flag
    then with_value float (decode_float b)
    else if flag == bytes_flag
    then with_value bytes (decode_bytes b)
    else if flag == nil_flag
    then ok (b, nil)
    else err invalid_flag

unfoldable pub decode_one : Bytes → Result (Bytes × Value)
unfolding decode_flagged
decode_one [] = err empty_key
decode_one (flag ∷ b) = decode_flagged flag b

-- The loop of Decode runs while bytes are left, and each value takes one byte at least.
unfoldable pub decode_values : ℕ → Bytes → List Value → Result (List Value)
decode_values fuel [] values = ok values
decode_values zero (x ∷ b) values = err out_of_fuel
decode_values (suc fuel) (x ∷ b) values = do
  (rest, d) ← decode_one (x ∷ b)
  decode_values fuel rest (values ++ d ∷ [])

-- `size` only sets the capacity of the result.
unfoldable pub decode : Bytes → ℕ → Result (List Value)
decode [] size = err empty_key
decode (x ∷ b) size = decode_values (length (x ∷ b)) (x ∷ b) []

-- The length of an encoded byte string: up to the first group whose marker counts padding.
pub peek_bytes_loop : ℕ → Bytes → Bool → ℕ → Result ℕ
peek_bytes_loop zero b reverse offset = err out_of_fuel
peek_bytes_loop (suc fuel) b reverse offset =
    let marker = get_or b (offset + 8) 0 in
    let pad_count = if reverse then marker else 255 - marker in
    let more = peek_bytes_loop fuel b reverse (offset + 9) in
    if ltb (length b) (offset + 9)
    then err insufficient_bytes
    else if pad_count == 0
    then more
    else ok (offset + 9)

pub peek_bytes : Bytes → Bool → Result ℕ
peek_bytes b reverse = peek_bytes_loop (suc (length b)) b reverse 0

peek_flagged : ℕ → Bytes → Result ℕ
peek_flagged flag b =
    if flag == nil_flag
    then ok 0
    else if flag == int_flag
    then ok 8
    else if flag == float_flag
    then ok 8
    else if flag == bytes_flag
    then peek_bytes b false
    else err invalid_flag

pub peek : Bytes → Result ℕ
unfolding peek_flagged
peek [] = err empty_key
peek (flag ∷ b) = do l ← peek_flagged flag b; ok (1 + l)

-- `b[:l]` faults where `l` is past the end: a number cut short makes CutOne panic.
pub data CutResult : Type 0 where
  cut : Bytes → Bytes → CutResult
  cut_error : Error → CutResult
  cut_panic : CutResult

cut_at : Bytes → Result ℕ → CutResult
cut_at b (err e) = cut_error e
cut_at b (ok l) = if ltb (length b) l then cut_panic else cut (take l b) (drop l b)

pub cut_one : Bytes → CutResult
unfolding cut_at
cut_one b = cut_at b (peek b)
