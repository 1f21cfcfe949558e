-- ===== src/Codec/Memcmp/Order.antt =====
-- The order of encoded tuples.
use zan_redis_db.Prelude.{
  ℕ, ◌≡◌, refl, sym, ap, ◌∙◌, arith, List, [], ◌∷◌, ◌++◌, All, append_assoc, append-nil, compare,
  Ordering,
}
use mathlib.Core.Path.{ap₂}
use zan_redis_db.Result.{ok, ◌>>=◌}
use zan_redis_db.Bytes.{Bytes, IsByte, IsWord64, compare_bytes, compare_int64, and_then}
use zan_redis_db.Bytes.Order.{compare_bytes_refl}
use zan_redis_db.Codec.Number.Laws.{encode_int_order}
use zan_redis_db.Codec.Number.Float.{IsNumber, compare_float, encode_float_order}
use zan_redis_db.Codec.Group.Laws.{encode_bytes_order}
use zan_redis_db.Codec.Memcmp.{Value, byte, int, string, bytes, float, nil, memcmp_encode}
use zan_redis_db.Codec.Memcmp.Laws.{
  IsEncodable, value_bytes, tuple_bytes, memcmp_encode-tuple_bytes,
}

-- Two values that a key's schema puts in the same place: of one type, and encodable.
abbrev pub SameType : Value → Value → Type 0
SameType (byte a) (byte b) = IsByte a × IsByte b
SameType (int a) (int b) = IsWord64 a × IsWord64 b
SameType (string a) (string b) = Unit
SameType (bytes a) (bytes b) = Unit
SameType (float a) (float b) = IsNumber a × IsNumber b
SameType nil nil = Unit
SameType _ _ = ⊥

abbrev pub SameTypes : List Value → List Value → Type 0
SameTypes [] [] = Unit
SameTypes (a ∷ xs) (b ∷ ys) = SameType a b × SameTypes xs ys
SameTypes _ _ = ⊥

-- The order of values: signed, by bytes.Compare, as floats.
abbrev pub compare_value : Value → Value → Ordering
compare_value (byte a) (byte b) = compare a b
compare_value (int a) (int b) = compare_int64 a b
compare_value (string a) (string b) = compare_bytes a b
compare_value (bytes a) (bytes b) = compare_bytes a b
compare_value (float a) (float b) = compare_float a b
compare_value _ _ = Ordering.eq

abbrev pub compare_values : List Value → List Value → Ordering
compare_values [] ys = Ordering.eq
compare_values (a ∷ xs) [] = Ordering.eq
compare_values (a ∷ xs) (b ∷ ys) = and_then (compare_value a b) (compare_values xs ys)

byte_order : (a b : ℕ) → IsByte a → IsByte b → compare_int64 a b ≡ compare a b
byte_order a b ha hb = ground arith

value_order :
    (a b : Value) (r s : Bytes)
    → SameType a b
    → compare_bytes (value_bytes a ++ r) (value_bytes b ++ s)
      ≡ and_then (compare_value a b) (compare_bytes r s)
unfolding compare_bytes
value_order (byte a) (byte b) r s (ha, hb) =
    encode_int_order a b r s (omega arith) (omega arith)
    ∙ ap (λ (o : Ordering). and_then o (compare_bytes r s)) (byte_order a b ha hb)
value_order (int a) (int b) r s (ha, hb) = encode_int_order a b r s ha hb
value_order (string a) (string b) r s h = encode_bytes_order a b r s
value_order (bytes a) (bytes b) r s h = encode_bytes_order a b r s
value_order (float a) (float b) r s (ha, hb) = encode_float_order a b r s ha hb
value_order nil nil r s h = refl
value_order _ _ r s h = absurd h

and_then_assoc : (a b c : Ordering) → and_then a (and_then b c) ≡ and_then (and_then a b) c
and_then_assoc Ordering.lt b c = refl
and_then_assoc _ b c = refl

-- The bytes of tuples of one schema are ordered as the tuples, before whatever follows them.
pub tuple_order :
    (xs ys : List Value) (r s : Bytes)
    → SameTypes xs ys
    → compare_bytes (tuple_bytes xs ++ r) (tuple_bytes ys ++ s)
      ≡ and_then (compare_values xs ys) (compare_bytes r s)
tuple_order [] [] r s h = refl
tuple_order [] (b ∷ ys) r s h = absurd h
tuple_order (a ∷ xs) [] r s h = absurd h
tuple_order (a ∷ xs) (b ∷ ys) r s (h, hs) =
    ap₂ compare_bytes (append_assoc (value_bytes a) _ r) (append_assoc (value_bytes b) _ s)
    ∙ value_order a b (tuple_bytes xs ++ r) (tuple_bytes ys ++ s) h
    ∙ ap (and_then (compare_value a b)) (tuple_order xs ys r s hs)
    ∙ and_then_assoc (compare_value a b) (compare_values xs ys) (compare_bytes r s)

SameType-IsEncodable : (a b : Value) → SameType a b → IsEncodable a × IsEncodable b
SameType-IsEncodable (byte a) (byte b) h = h
SameType-IsEncodable (int a) (int b) h = h
SameType-IsEncodable (string a) (string b) h = (tt, tt)
SameType-IsEncodable (bytes a) (bytes b) h = (tt, tt)
SameType-IsEncodable (float a) (float b) h = h
SameType-IsEncodable nil nil h = (tt, tt)
SameType-IsEncodable _ _ h = absurd h

SameTypes-IsEncodable :
    (xs ys : List Value) → SameTypes xs ys → All IsEncodable xs × All IsEncodable ys
SameTypes-IsEncodable [] [] h = (tt, tt)
SameTypes-IsEncodable [] (b ∷ ys) h = absurd h
SameTypes-IsEncodable (a ∷ xs) [] h = absurd h
SameTypes-IsEncodable (a ∷ xs) (b ∷ ys) (h, hs) =
    let (ha, hb) = SameType-IsEncodable a b h in
    let (has, hys) = SameTypes-IsEncodable xs ys hs in ((ha, has), (hb, hys))

and_then-eq : (o : Ordering) → and_then o Ordering.eq ≡ o
and_then-eq Ordering.lt = refl
and_then-eq _ = refl

whole_tuples :
    (xs ys : List Value)
    → SameTypes xs ys
    → compare_bytes (tuple_bytes xs) (tuple_bytes ys) ≡ compare_values xs ys
whole_tuples xs ys h =
    ap₂ compare_bytes (sym (append-nil (tuple_bytes xs))) (sym (append-nil (tuple_bytes ys)))
    ∙ tuple_order xs ys [] [] h
    ∙ ap (and_then (compare_values xs ys)) (compare_bytes_refl [])
    ∙ and_then-eq (compare_values xs ys)

-- Tuples with the same types of encodable values at the same places (no NaN, no unsupported type)
-- are encoded to keys that bytes.Compare orders as the tuples: by the first place that differs, in
-- the order of its type.
pub memcmp_encode_order :
    (xs ys : List Value)
    → SameTypes xs ys
    → (do x ← memcmp_encode [] xs; y ← memcmp_encode [] ys; ok (compare_bytes x y))
      ≡ ok (compare_values xs ys)
memcmp_encode_order xs ys h =
    let (ha, hb) = SameTypes-IsEncodable xs ys h in
    rw (memcmp_encode-tuple_bytes [] xs ha, memcmp_encode-tuple_bytes [] ys hb)
      (ap ok (whole_tuples xs ys h))
