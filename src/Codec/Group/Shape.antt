-- ===== src/Codec/Group/Shape.antt =====
-- What `encode_bytes` writes, by recursion on the bytes.
use native.Mathlib.Decide.{dec_le}
use zan_redis_db.Prelude.{
  ℕ, zero, suc, ◌+◌, ◌-◌, ◌*◌, ◌≤◌, ◌<◌, ◌≡◌, refl, sym, ap, ◌∙◌, arith, [], ◌∷◌, ◌++◌, length,
  take, drop, replicate, length-drop, length-append, length-replicate, append_assoc, le→leb, lt→leb,
}
use zan_redis_db.Bytes.{Bytes}
use zan_redis_db.Codec.Group.{encode_groups, encode_bytes}

-- `k` bytes of the group are open: zeros, and the marker that counts them.
abbrev pub padding : ℕ → Bytes
padding k = replicate k 0 ++ ((255 - k) ∷ [])

-- The encoding from a place in a group on, where `k` bytes of the group are open.
unfoldable pub groups : ℕ → Bytes → Bytes
groups zero [] = 255 ∷ padding 8
groups zero (x ∷ xs) = 255 ∷ (x ∷ groups 7 xs)
groups (suc k) [] = padding (suc k)
groups (suc k) (x ∷ xs) = x ∷ groups k xs

pub length-groups : (k : ℕ) (src : Bytes) → length src ≤ length (groups k src)
unfolding groups
length-groups zero [] = omega arith
length-groups zero (x ∷ xs) = omega (arith, length-groups 7 xs)
length-groups (suc k) [] = omega arith
length-groups (suc k) (x ∷ xs) = omega (arith, length-groups k xs)

-- Eight bytes take nine.
pub length-groups_le :
    (k : ℕ) (src : Bytes) → k ≤ 8 → 8 * length (groups k src) ≤ 9 * length src + (8 - k) + 72
unfolding groups
length-groups_le zero [] h = omega arith
length-groups_le zero (x ∷ xs) h = omega (arith, length-groups_le 7 xs)
length-groups_le (suc k) [] h =
    omega (arith, length-append (replicate k 0) ((255 - suc k) ∷ []), length-replicate {A = ℕ} k 0)
length-groups_le (suc k) (x ∷ xs) h = omega (arith, length-groups_le k xs)

pub groups-full :
    (k : ℕ) (src : Bytes)
    → k ≤ length src
    → groups k src ≡ take k src ++ (255 ∷ groups 8 (drop k src))
unfolding groups
groups-full zero [] h = refl
groups-full zero (x ∷ xs) h = refl
groups-full (suc k) [] h = absurd (omega arith)
groups-full (suc k) (x ∷ xs) h = ap (λ (t : Bytes). x ∷ t) (groups-full k xs (omega arith))

pub groups-last :
    (k : ℕ) (src : Bytes) → length src < k → groups k src ≡ src ++ padding (k - length src)
unfolding groups
groups-last zero src h = absurd (omega arith)
groups-last (suc k) [] h = ap padding {x = suc k} {y = suc k - 0} (omega arith)
groups-last (suc k) (x ∷ xs) h =
    ap (λ (t : Bytes). x ∷ t)
      (groups-last k xs (omega arith)
        ∙ ap (λ (j : ℕ). xs ++ padding j) {x = k - length xs} {y = suc k - suc (length xs)}
            (omega arith))

encode_groups-groups :
    (n : ℕ) (src result : Bytes)
    → length src < n * 8
    → encode_groups n src result ≡ result ++ groups 8 src
unfolding encode_groups
encode_groups-groups zero src result h = absurd (omega arith)
encode_groups-groups (suc n) src result h = elim (dec_le 8 (length src)) [
  | yes p ↦ rw (le→leb _ _ p) (
      encode_groups-groups n (drop 8 src) _ (omega (arith, length-drop 8 src))
      ∙ append_assoc result _ _
      ∙ ap (λ (t : Bytes). result ++ t)
          (append_assoc (take 8 src) (255 ∷ []) _ ∙ sym (groups-full 8 src p)))
  | no p ↦
      rw (lt→leb 8 (length src) (omega arith))
        (ap (λ (t : Bytes). result ++ t) (sym (groups-last 8 src (omega arith))))
]

-- EncodeBytes appends the groups of its argument.
pub encode_bytes-groups : (b src : Bytes) → encode_bytes b src ≡ b ++ groups 8 src
unfolding encode_bytes
encode_bytes-groups b src = encode_groups-groups _ src b (omega arith)

pub encode_bytes-append : (b src : Bytes) → encode_bytes b src ≡ b ++ encode_bytes [] src
encode_bytes-append b src =
    encode_bytes-groups b src ∙ ap (λ (t : Bytes). b ++ t) (sym (encode_bytes-groups [] src))
