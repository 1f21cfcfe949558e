-- ===== src/Codec/Memcmp/Laws.antt =====
-- Round trip and order of the tuple encoder.
use zan_redis_db.Prelude.{
  ℕ, zero, suc, ◌+◌, ◌≤◌, ◌<◌, ◌≡◌, refl, sym, ap, ◌∙◌, arith, List, [], ◌∷◌, ◌++◌, map, length,
  All, append_assoc, append-nil, length-append, ◌==◌, if◌then◌else◌,
}
use zan_redis_db.Result.{ok, ◌>>=◌}
use zan_redis_db.Bytes.{Bytes, IsByte, IsWord64}
use zan_redis_db.Codec.Number.{encode_int, encode_float, sign_mask}
use zan_redis_db.Codec.Number.Laws.{decode_int-encode_int, encode_int-append}
use zan_redis_db.Codec.Number.Float.{IsNumber, decode_float-encode_float, encode_float-append}
use zan_redis_db.Codec.Group.{encode_bytes}
use zan_redis_db.Codec.Group.RoundTrip.{decode_bytes-encode_bytes}
use zan_redis_db.Codec.Group.Shape.{encode_bytes-append}
use zan_redis_db.Codec.Memcmp.{
  Value, byte, int, string, bytes, float, nil, other, int_flag, bytes_flag, float_flag, nil_flag,
  encode_int64, encode_bytes_value, encode_value, memcmp_encode, decode_one, decode_values, decode,
}

-- The values that the encoder is meant for: an int64 or a byte in its range, a float that is a
-- number.
abbrev pub IsEncodable : Value → Type 0
IsEncodable (byte v) = IsByte v
IsEncodable (int v) = IsWord64 v
IsEncodable (string v) = Unit
IsEncodable (bytes v) = Unit
IsEncodable (float v) = IsNumber v
IsEncodable nil = Unit
IsEncodable other = ⊥

-- What the decoder returns for a value: a byte is read as an int64, a string as bytes, and the
-- negative zero as zero.
abbrev pub decoded : Value → Value
decoded (byte v) = int v
decoded (string v) = bytes v
decoded (float v) = float (if v == sign_mask then 0 else v)
decoded v = v

-- The bytes of one value, and of a tuple.
abbrev pub value_bytes : Value → Bytes
value_bytes (byte v) = int_flag ∷ encode_int [] v
value_bytes (int v) = int_flag ∷ encode_int [] v
value_bytes (string v) = bytes_flag ∷ encode_bytes [] v
value_bytes (bytes v) = bytes_flag ∷ encode_bytes [] v
value_bytes (float v) = float_flag ∷ encode_float [] v
value_bytes nil = nil_flag ∷ []
value_bytes other = []

abbrev pub tuple_bytes : List Value → Bytes
tuple_bytes [] = []
tuple_bytes (v ∷ vals) = value_bytes v ++ tuple_bytes vals

-- Appending behind a flag.
flagged : (b : Bytes) (flag : ℕ) (t : Bytes) → (b ++ flag ∷ []) ++ t ≡ b ++ flag ∷ t
flagged b flag t = append_assoc b (flag ∷ []) t

encode_value-value_bytes :
    (b : Bytes) (v : Value) → IsEncodable v → encode_value b v ≡ ok (b ++ value_bytes v)
unfolding encode_value encode_int64 encode_bytes_value
encode_value-value_bytes b (byte v) h =
    ap ok (encode_int-append (b ++ int_flag ∷ []) v ∙ flagged b int_flag _)
encode_value-value_bytes b (int v) h =
    ap ok (encode_int-append (b ++ int_flag ∷ []) v ∙ flagged b int_flag _)
encode_value-value_bytes b (string v) h =
    ap ok (encode_bytes-append (b ++ bytes_flag ∷ []) v ∙ flagged b bytes_flag _)
encode_value-value_bytes b (bytes v) h =
    ap ok (encode_bytes-append (b ++ bytes_flag ∷ []) v ∙ flagged b bytes_flag _)
encode_value-value_bytes b (float v) h =
    ap ok (encode_float-append (b ++ float_flag ∷ []) v ∙ flagged b float_flag _)
encode_value-value_bytes b nil h = refl
encode_value-value_bytes b other h = absurd h

-- On encodable values the encoder succeeds, and appends their bytes one after the other.
pub memcmp_encode-tuple_bytes :
    (b : Bytes) (vals : List Value)
    → All IsEncodable vals
    → memcmp_encode b vals ≡ ok (b ++ tuple_bytes vals)
unfolding memcmp_encode
memcmp_encode-tuple_bytes b [] h = ap ok (sym (append-nil b))
memcmp_encode-tuple_bytes b (v ∷ vals) (hv, hvals) = rw (encode_value-value_bytes b v hv) (
    memcmp_encode-tuple_bytes (b ++ value_bytes v) vals hvals
    ∙ ap ok (append_assoc b (value_bytes v) (tuple_bytes vals)))

decode_one-value_bytes :
    (v : Value) (rest : Bytes)
    → IsEncodable v
    → decode_one (value_bytes v ++ rest) ≡ ok (rest, decoded v)
unfolding decode_one
decode_one-value_bytes (byte v) rest h = rw (decode_int-encode_int v rest (omega arith))
decode_one-value_bytes (int v) rest h = rw (decode_int-encode_int v rest h)
decode_one-value_bytes (string v) rest h = rw (decode_bytes-encode_bytes v rest)
decode_one-value_bytes (bytes v) rest h = rw (decode_bytes-encode_bytes v rest)
decode_one-value_bytes (float v) rest h = rw (decode_float-encode_float v rest h)
decode_one-value_bytes nil rest h = refl
decode_one-value_bytes other rest h = absurd h

-- A value takes one byte at least, so as many rounds as there are bytes decode a tuple.
value_bytes_starts : (v : Value) → IsEncodable v → (x : ℕ) × (t : Bytes) × (value_bytes v ≡ x ∷ t)
value_bytes_starts (byte v) h = (int_flag, encode_int [] v, refl)
value_bytes_starts (int v) h = (int_flag, encode_int [] v, refl)
value_bytes_starts (string v) h = (bytes_flag, encode_bytes [] v, refl)
value_bytes_starts (bytes v) h = (bytes_flag, encode_bytes [] v, refl)
value_bytes_starts (float v) h = (float_flag, encode_float [] v, refl)
value_bytes_starts nil h = (nil_flag, [], refl)
value_bytes_starts other h = absurd h

value_bytes-pos : (v : Value) → IsEncodable v → 0 < length (value_bytes v)
value_bytes-pos v h = let (x, t, e) = value_bytes_starts v h in omega (arith, ap length e)

decode_values_step :
    (fuel : ℕ) (b rest : Bytes) (d : Value) (values : List Value)
    → 0 < length b
    → decode_one b ≡ ok (rest, d)
    → decode_values (suc fuel) b values ≡ decode_values fuel rest (values ++ d ∷ [])
unfolding decode_values
decode_values_step fuel [] rest d values h e = absurd (omega arith)
decode_values_step fuel (x ∷ t) rest d values h e = rw e

decode_values-tuple_bytes :
    (vals : List Value) (fuel : ℕ) (values : List Value)
    → All IsEncodable vals
    → length (tuple_bytes vals) ≤ fuel
    → decode_values fuel (tuple_bytes vals) values ≡ ok (values ++ map decoded vals)
decode_values-tuple_bytes [] fuel values h hf =
    unfold decode_values in ap ok (sym (append-nil values))
decode_values-tuple_bytes (v ∷ vals) zero values (hv, hvals) hf =
    absurd (omega (arith, length-append (value_bytes v) (tuple_bytes vals), value_bytes-pos v hv))
decode_values-tuple_bytes (v ∷ vals) (suc fuel) values (hv, hvals) hf =
    let sum : length (tuple_bytes (v ∷ vals)) ≡ length (value_bytes v) + length (tuple_bytes vals) =
      length-append (value_bytes v) (tuple_bytes vals) in
    let some_byte : 0 < length (value_bytes v) = value_bytes-pos v hv in
    decode_values_step fuel (tuple_bytes (v ∷ vals)) (tuple_bytes vals) (decoded v) values
      (omega arith) (decode_one-value_bytes v (tuple_bytes vals) hv)
    ∙ decode_values-tuple_bytes vals fuel (values ++ decoded v ∷ []) hvals (omega arith)
    ∙ ap ok (append_assoc values (decoded v ∷ []) (map decoded vals))

decode-values :
    (b : Bytes) (size : ℕ) → 0 < length b → decode b size ≡ decode_values (length b) b []
unfolding decode
decode-values [] size h = absurd (omega arith)
decode-values (x ∷ b) size h = refl

pub decode-tuple_bytes :
    (v : Value) (vals : List Value) (size : ℕ)
    → All IsEncodable (v ∷ vals)
    → decode (tuple_bytes (v ∷ vals)) size ≡ ok (map decoded (v ∷ vals))
decode-tuple_bytes v vals size h =
    decode-values (tuple_bytes (v ∷ vals)) size
      (omega (arith, length-append (value_bytes v) (tuple_bytes vals), value_bytes-pos v h.0))
    ∙ decode_values-tuple_bytes (v ∷ vals) _ [] h (omega arith)

-- Decode reads back every tuple of at least one encodable value (no NaN, no unsupported type) that
-- EncodeMemCmpKey wrote, with a byte as an int64, a string as bytes, and the negative zero as zero.
pub decode-memcmp_encode :
    (v : Value) (vals : List Value) (size : ℕ)
    → All IsEncodable (v ∷ vals)
    → (memcmp_encode [] (v ∷ vals) >>= λ b. decode b size) ≡ ok (map decoded (v ∷ vals))
decode-memcmp_encode v vals size h =
    rw (memcmp_encode-tuple_bytes [] (v ∷ vals) h) (decode-tuple_bytes v vals size h)
