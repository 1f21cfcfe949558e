-- ===== src/Bytes/Order.antt =====
-- bytes.Compare orders byte strings, and the order of fixed-width words is that of the numbers.
use zan_redis_db.Prelude.{
  ℕ, zero, suc, ◌+◌, ◌*◌, ◌/◌, ◌%◌, ◌^◌, ◌≤◌, ◌<◌, ◌≡◌, refl, sym, ap, ◌∙◌, arith, compare,
  Ordering, [], ◌∷◌, ◌++◌, length,
}
use mathlib.Core.Path.{ap₂}
use native.Mathlib.Nat.{mod-eq_of_lt, mod-lt, one-le-pow}
use zan_redis_db.Bytes.Words.{split_top}
use zan_redis_db.Bytes.{Bytes, and_then, compare_bytes, put_be}

pub compare_bytes_refl : (xs : Bytes) → compare_bytes xs xs ≡ Ordering.eq
unfolding compare_bytes
compare_bytes_refl [] = refl
compare_bytes_refl (x ∷ xs) = ground (arith, compare_bytes_refl xs)

-- Strings that compare equal are equal.
pub eq_of_compare_bytes : (xs ys : Bytes) → compare_bytes xs ys ≡ Ordering.eq → xs ≡ ys
unfolding compare_bytes
eq_of_compare_bytes [] [] h = refl
eq_of_compare_bytes [] (y ∷ ys) h = cc
eq_of_compare_bytes (x ∷ xs) [] h = cc
eq_of_compare_bytes (x ∷ xs) (y ∷ ys) h = ground (arith, eq_of_compare_bytes xs ys)

-- The result of the comparison the other way round.
abbrev pub swap : Ordering → Ordering
swap Ordering.lt = Ordering.gt
swap Ordering.eq = Ordering.eq
swap Ordering.gt = Ordering.lt

pub compare_bytes-swap : (xs ys : Bytes) → compare_bytes ys xs ≡ swap (compare_bytes xs ys)
unfolding compare_bytes
compare_bytes-swap [] [] = refl
compare_bytes-swap [] (y ∷ ys) = refl
compare_bytes-swap (x ∷ xs) [] = refl
compare_bytes-swap (x ∷ xs) (y ∷ ys) = ground (arith, compare_bytes-swap xs ys)

-- A common prefix is skipped.
pub compare_bytes-append_left :
    (p xs ys : Bytes) → compare_bytes (p ++ xs) (p ++ ys) ≡ compare_bytes xs ys
unfolding compare_bytes
compare_bytes-append_left [] xs ys = refl
compare_bytes-append_left (x ∷ p) xs ys = ground (arith, compare_bytes-append_left p xs ys)

-- Fields of one width are compared before what follows them.
pub compare_bytes-append :
    (a b xs ys : Bytes)
    → length a ≡ length b
    → compare_bytes (a ++ xs) (b ++ ys) ≡ and_then (compare_bytes a b) (compare_bytes xs ys)
unfolding compare_bytes
compare_bytes-append [] [] xs ys h = refl
compare_bytes-append [] (y ∷ b) xs ys h = absurd (omega arith)
compare_bytes-append (x ∷ a) [] xs ys h = absurd (omega arith)
compare_bytes-append (x ∷ a) (y ∷ b) xs ys h = ground (arith, compare_bytes-append a b xs ys)

digit_below : (a b p : ℕ) → a < b → a * p + p ≤ b * p
digit_below a b p h = grind arith

-- Numbers written with a top digit and a rest are compared by the top digit first.
compare_digits :
    (p a r b s : ℕ)
    → r < p
    → s < p
    → and_then (compare a b) (compare r s) ≡ compare (a * p + r) (b * p + s)
compare_digits p a r b s hr hs = ground (arith, digit_below a b p, digit_below b a p)

compare_bytes-put_be_mod :
    (n a b : ℕ) → compare_bytes (put_be n a) (put_be n b) ≡ compare (a % 256 ^ n) (b % 256 ^ n)
unfolding compare_bytes put_be
compare_bytes-put_be_mod zero a b = ground arith
compare_bytes-put_be_mod (suc n) a b =
    let p : ℕ = 256 ^ n in
    let positive : 0 < p = one-le-pow n 256 (omega arith) in
    ap (λ (o : Ordering). and_then (compare (a / p % 256) (b / p % 256)) o)
      (compare_bytes-put_be_mod n a b)
    ∙ compare_digits p (a / p % 256) (a % p) (b / p % 256) (b % p) (mod-lt a positive)
        (mod-lt b positive)
    ∙ ap₂ compare (sym (split_top n a)) (sym (split_top n b))

-- Words of one width are ordered as the numbers that they stand for.
pub compare_bytes-put_be :
    (n a b : ℕ) → a < 256 ^ n → b < 256 ^ n → compare_bytes (put_be n a) (put_be n b) ≡ compare a b
compare_bytes-put_be n a b ha hb =
    compare_bytes-put_be_mod n a b ∙ ap₂ compare (mod-eq_of_lt ha) (mod-eq_of_lt hb)
