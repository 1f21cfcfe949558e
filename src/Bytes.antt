-- ===== src/Bytes.antt =====
-- Byte slices, and the parts of Go's standard library that the encoders use: encoding/binary's
-- big-endian words and bytes.Compare. A slice is a list of numbers below 256.
pub mod Order
pub mod Words
pub mod Members
use zan_redis_db.Prelude.{
  ℕ, zero, suc, ◌+◌, ◌-◌, ◌≡◌, refl, arith, Bool, true, false, ◌&&◌, ◌||◌, ltb, ◌==◌, ◌*◌, ◌/◌, ◌%◌,
  ◌^◌, ◌<◌, compare, Ordering, List, [], ◌∷◌, length, take, All,
}

abbrev pub Bytes : Type 0
Bytes = List ℕ

abbrev pub IsByte : ℕ → Type 0
IsByte b = b < 256

abbrev pub IsBytes : Bytes → Type 0
IsBytes = All IsByte

-- An int64 or a uint64 is its bit pattern.
abbrev pub IsWord64 : ℕ → Type 0
IsWord64 v = v < 2 ^ 64

-- The n lowest bytes of a number, the highest byte first.
pub put_be : ℕ → ℕ → Bytes
put_be zero v = []
put_be (suc n) v = (v / 256 ^ n % 256) ∷ put_be n v

unfoldable pub get_be : Bytes → ℕ
get_be [] = 0
get_be (b ∷ bs) = b * 256 ^ length bs + get_be bs

-- binary.BigEndian.PutUint16, PutUint32, PutUint64 and their readers, which read a prefix.
abbrev pub put_uint16 : ℕ → Bytes
put_uint16 = put_be 2

abbrev pub put_uint32 : ℕ → Bytes
put_uint32 = put_be 4

abbrev pub put_uint64 : ℕ → Bytes
put_uint64 = put_be 8

abbrev pub uint16 : Bytes → ℕ
uint16 b = get_be (take 2 b)

abbrev pub uint32 : Bytes → ℕ
uint32 b = get_be (take 4 b)

abbrev pub uint64 : Bytes → ℕ
uint64 b = get_be (take 8 b)

-- The first of two comparisons, and the second where the first is a draw.
abbrev pub and_then : Ordering → Ordering → Ordering
and_then Ordering.lt o = Ordering.lt
and_then Ordering.eq o = o
and_then Ordering.gt o = Ordering.gt

-- bytes.Compare, the order of the storage engine's keys.
unfoldable pub compare_bytes : Bytes → Bytes → Ordering
compare_bytes [] [] = Ordering.eq
compare_bytes [] (y ∷ ys) = Ordering.lt
compare_bytes (x ∷ xs) [] = Ordering.gt
compare_bytes (x ∷ xs) (y ∷ ys) = and_then (compare x y) (compare_bytes xs ys)

-- Signed and unsigned 64-bit comparison, on bit patterns.
abbrev pub compare_int64 : ℕ → ℕ → Ordering
compare_int64 a b = compare ((a + 2 ^ 63) % 2 ^ 64) ((b + 2 ^ 63) % 2 ^ 64)

-- Go's `<` on int64 values, and its `+`, which wraps.
abbrev pub lt_int64 : ℕ → ℕ → Bool
lt_int64 a b = ltb ((a + 2 ^ 63) % 2 ^ 64) ((b + 2 ^ 63) % 2 ^ 64)

abbrev pub add_int64 : ℕ → ℕ → ℕ
add_int64 a b = (a + b) % 2 ^ 64

abbrev pub neg_int64 : ℕ → ℕ
neg_int64 a = (2 ^ 64 - a) % 2 ^ 64

-- `==` on strings, and bytes.Equal.
unfoldable pub eq_bytes : Bytes → Bytes → Bool
eq_bytes [] [] = true
eq_bytes (x ∷ xs) (y ∷ ys) = x == y && eq_bytes xs ys
eq_bytes [] (y ∷ ys) = false
eq_bytes (x ∷ xs) [] = false

-- Whether a list of keys has a key: a map of Go that is a set.
unfoldable pub contains : List Bytes → Bytes → Bool
contains [] key = false
contains (k ∷ keys) key = eq_bytes k key || contains keys key

pub eq_bytes_refl : (b : Bytes) → eq_bytes b b ≡ true
unfolding eq_bytes
eq_bytes_refl [] = refl
eq_bytes_refl (x ∷ b) = ground (arith, eq_bytes_refl b)

pub eq_bytes_sound : (a b : Bytes) → eq_bytes a b ≡ true → a ≡ b
unfolding eq_bytes
eq_bytes_sound [] [] h = refl
eq_bytes_sound [] (y ∷ ys) h = ground arith
eq_bytes_sound (x ∷ xs) [] h = ground arith
eq_bytes_sound (x ∷ xs) (y ∷ ys) h = ground (arith, eq_bytes_sound xs ys)
