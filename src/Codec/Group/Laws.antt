-- ===== src/Codec/Group/Laws.antt =====
-- Round trip and order of the byte-string encoder.
use zan_redis_db.Prelude.{
  ℕ, zero, suc, ◌+◌, ◌-◌, ◌≤◌, ◌<◌, ◌≡◌, refl, ap, ◌∙◌, arith, [], ◌∷◌, ◌++◌, replicate,
  append_assoc, Ordering,
}
use mathlib.Core.Path.{ap₂}
use zan_redis_db.Bytes.{Bytes, compare_bytes, and_then}
use zan_redis_db.Bytes.Order.{compare_bytes-append_left, compare_bytes-swap, swap}
use zan_redis_db.Codec.Group.{encode_bytes}
use zan_redis_db.Codec.Group.Shape.{padding, groups, encode_bytes-groups}

-- Zeros with a marker below the one that fits come before every encoding.
low_marker :
    (k m : ℕ) (r ys s : Bytes)
    → m + k < 255
    → compare_bytes (replicate k 0 ++ (m ∷ r)) (groups k ys ++ s) ≡ Ordering.lt
unfolding compare_bytes groups
low_marker zero m r [] s h = ground arith
low_marker zero m r (y ∷ ys) s h = ground arith
low_marker (suc k) m r [] s h =
    ap₂ compare_bytes refl (append_assoc (replicate k 0) ((255 - suc k) ∷ []) s)
    ∙ compare_bytes-append_left (replicate k 0) (m ∷ r) ((255 - suc k) ∷ s)
    ∙ ground arith
low_marker (suc k) m r (y ∷ ys) s h = ground (arith, low_marker k m r ys s)

-- The end of a string comes before any further byte.
padding_below :
    (k y : ℕ) (r ys s : Bytes)
    → k < 8
    → compare_bytes (padding (suc k) ++ r) (y ∷ (groups k ys ++ s)) ≡ Ordering.lt
unfolding compare_bytes
padding_below k y r ys s h =
    ground (
      arith,
      append_assoc (replicate k 0) ((255 - suc k) ∷ []) r,
      low_marker k (255 - suc k) r ys s,
    )

padding_above :
    (k y : ℕ) (r ys s : Bytes)
    → k < 8
    → compare_bytes (y ∷ (groups k ys ++ s)) (padding (suc k) ++ r) ≡ Ordering.gt
padding_above k y r ys s h =
    compare_bytes-swap (padding (suc k) ++ r) (y ∷ (groups k ys ++ s))
    ∙ ap swap (padding_below k y r ys s h)

groups_order :
    (k : ℕ) (a b r s : Bytes)
    → k ≤ 8
    → compare_bytes (groups k a ++ r) (groups k b ++ s)
      ≡ and_then (compare_bytes a b) (compare_bytes r s)
unfolding compare_bytes groups
groups_order zero [] [] r s h = refl
groups_order zero [] (y ∷ ys) r s h = padding_below 7 y r ys s (omega arith)
groups_order zero (x ∷ xs) [] r s h = padding_above 7 x s xs r (omega arith)
groups_order zero (x ∷ xs) (y ∷ ys) r s h = ground (arith, groups_order 7 xs ys r s)
groups_order (suc k) [] [] r s h =
    ap₂ compare_bytes (append_assoc (replicate k 0) ((255 - suc k) ∷ []) r)
      (append_assoc (replicate k 0) ((255 - suc k) ∷ []) s)
    ∙ compare_bytes-append_left (replicate k 0) ((255 - suc k) ∷ r) ((255 - suc k) ∷ s)
    ∙ ground arith
groups_order (suc k) [] (y ∷ ys) r s h = padding_below k y r ys s h
groups_order (suc k) (x ∷ xs) [] r s h = padding_above k x s xs r h
groups_order (suc k) (x ∷ xs) (y ∷ ys) r s h = ground (arith, groups_order k xs ys r s)

-- Encoded strings are ordered as the strings, and before whatever follows them: no encoding is a
-- proper prefix of another.
pub encode_bytes_order :
    (a b r s : Bytes)
    → compare_bytes (encode_bytes [] a ++ r) (encode_bytes [] b ++ s)
      ≡ and_then (compare_bytes a b) (compare_bytes r s)
encode_bytes_order a b r s =
    rw (encode_bytes-groups [] a, encode_bytes-groups [] b) (groups_order 8 a b r s (omega arith))
