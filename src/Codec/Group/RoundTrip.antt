-- ===== src/Codec/Group/RoundTrip.antt =====
-- Decoding what the byte-string encoders wrote, in either direction.
use zan_redis_db.Prelude.{
  ℕ, zero, suc, ◌+◌, ◌-◌, ◌*◌, ◌≤◌, ◌<◌, ◌≡◌, refl, sym, ap, ◌∙◌, arith, Bool, true, false, [], ◌∷◌,
  ◌++◌, map, length, take, drop, replicate, append_assoc, length-append, length-drop, length-map,
  map-replicate, take-append-drop, length-take_le, length-replicate, take-append, drop-append,
  take-append_at, get_or-append_at, take_all, drop_past, le→ltb, if◌then◌else◌, ◌==◌,
}
use mathlib.Core.List.{map-append, map-id}
use mathlib.Core.Path.{ap₂}
use native.Mathlib.Decide.{dec_le}
use zan_redis_db.Result.{ok}
use zan_redis_db.Bytes.{Bytes, IsBytes}
use zan_redis_db.Codec.Group.{
  all_eq, encode_bytes, encode_bytes_desc, reverse_bytes, decode_groups, decode_bytes_with,
  decode_bytes, decode_bytes_desc,
}
use zan_redis_db.Codec.Group.Shape.{
  padding, groups, length-groups, groups-full, groups-last, encode_bytes-groups,
}

-- The bytes of an encoding as they are stored: as they are, or each reversed.
abbrev flip : Bool → ℕ → ℕ
flip true x = 255 - x
flip false x = x

abbrev flips : Bool → Bytes → Bytes
flips reverse = map (flip reverse)

-- A group that is full is taken whole, and the loop goes on behind its marker.
decode_full :
    (n : ℕ) (reverse : Bool) (g tail acc : Bytes)
    → length g ≡ 8
    → decode_groups (suc n) reverse (g ++ flip reverse 255 ∷ tail) acc
      ≡ decode_groups n reverse tail (acc ++ g)
unfolding decode_groups
decode_full n true g tail acc h = rw (
  le→ltb (length (g ++ 0 ∷ tail)) 9 (omega (arith, length-append g (0 ∷ tail))),
  get_or-append_at 8 g tail 0 0 h,
  take-append_at 8 g (0 ∷ tail) h,
  drop_past 8 g 0 tail h,
  take_all 8 g h,
)
decode_full n false g tail acc h = rw (
  le→ltb (length (g ++ 255 ∷ tail)) 9 (omega (arith, length-append g (255 ∷ tail))),
  get_or-append_at 8 g tail 255 0 h,
  take-append_at 8 g (255 ∷ tail) h,
  drop_past 8 g 255 tail h,
  take_all 8 g h,
)

all_eq-replicate : (n p : ℕ) → all_eq p (replicate n p) ≡ true
unfolding all_eq
all_eq-replicate zero p = refl
all_eq-replicate (suc n) p = ground (arith, all_eq-replicate n p)

full_group : (pad p : ℕ) (src : Bytes) → length src + pad ≡ 8 → length (src ++ replicate pad p) ≡ 8
full_group pad p src h =
    length-append src (replicate pad p)
    ∙ ap (λ (k : ℕ). length src + k) (length-replicate pad p)
    ∙ h

pos→ne : (n : ℕ) → 0 < n → (n == 0) ≡ false
pos→ne n h = ground arith

-- The last group gives its bytes and ends the loop.
decode_last :
    (n : ℕ) (reverse : Bool) (pad : ℕ) (src tail acc : Bytes)
    → length src + pad ≡ 8
    → 0 < pad
    → decode_groups
        (suc n)
        reverse
        ((src ++ replicate pad (flip reverse 0)) ++ flip reverse (255 - pad) ∷ tail)
        acc
      ≡ ok (tail, (if reverse then reverse_bytes (acc ++ src) else acc ++ src))
unfolding decode_groups
decode_last n true pad src tail acc h hp =
    let g : Bytes = src ++ replicate pad 255 in
    let m : ℕ = 255 - (255 - pad) in
    let full : length g ≡ 8 = full_group pad 255 src h in
    let counted : 255 - (255 - pad) ≡ pad = omega arith in
    let here : 8 - pad ≡ length src = omega arith in
    rw (
      le→ltb (length (g ++ m ∷ tail)) 9 (omega (arith, length-append g (m ∷ tail))),
      get_or-append_at 8 g tail m 0 full,
      take-append_at 8 g (m ∷ tail) full,
      drop_past 8 g m tail full,
      counted,
      le→ltb 8 pad (omega arith),
      pos→ne pad hp,
      here,
      take-append src (replicate pad 255),
      drop-append src (replicate pad 255),
      all_eq-replicate pad 255,
    )
decode_last n false pad src tail acc h hp =
    let g : Bytes = src ++ replicate pad 0 in
    let m : ℕ = 255 - pad in
    let full : length g ≡ 8 = full_group pad 0 src h in
    let counted : 255 - (255 - pad) ≡ pad = omega arith in
    let here : 8 - pad ≡ length src = omega arith in
    rw (
      le→ltb (length (g ++ m ∷ tail)) 9 (omega (arith, length-append g (m ∷ tail))),
      get_or-append_at 8 g tail m 0 full,
      take-append_at 8 g (m ∷ tail) full,
      drop_past 8 g m tail full,
      counted,
      le→ltb 8 pad (omega arith),
      pos→ne pad hp,
      here,
      take-append src (replicate pad 0),
      drop-append src (replicate pad 0),
      all_eq-replicate pad 0,
    )

flips-padding :
    (reverse : Bool) (pad : ℕ)
    → flips reverse (padding pad) ≡ replicate pad (flip reverse 0) ++ flip reverse (255 - pad) ∷ []
flips-padding reverse pad =
    map-append (flip reverse) (replicate pad 0) ((255 - pad) ∷ [])
    ∙ ap (λ (t : Bytes). t ++ flip reverse (255 - pad) ∷ []) (map-replicate pad 0 (flip reverse))

stored_full :
    (reverse : Bool) (src tail : Bytes)
    → 8 ≤ length src
    → flips reverse (groups 8 src) ++ tail
      ≡ flips reverse (take 8 src)
        ++ flip reverse 255 ∷ (flips reverse (groups 8 (drop 8 src)) ++ tail)
stored_full reverse src tail p = rw (
  groups-full 8 src p,
  map-append (flip reverse) (take 8 src) (255 ∷ groups 8 (drop 8 src)),
  append_assoc (flips reverse (take 8 src)),
)

stored_last :
    (reverse : Bool) (src tail : Bytes)
    → length src < 8
    → flips reverse (groups 8 src) ++ tail
      ≡ (flips reverse src ++ replicate (8 - length src) (flip reverse 0))
        ++ flip reverse (255 - (8 - length src)) ∷ tail
stored_last reverse src tail p =
    let pad : ℕ = 8 - length src in
    rw (
      groups-last 8 src p,
      map-append (flip reverse) src (padding pad),
      flips-padding reverse pad,
      ← append_assoc (flips reverse src),
      append_assoc (flips reverse src ++ replicate pad (flip reverse 0)),
    )

joined :
    (reverse : Bool) (src acc : Bytes)
    → (acc ++ flips reverse (take 8 src)) ++ flips reverse (drop 8 src) ≡ acc ++ flips reverse src
joined reverse src acc =
    append_assoc acc _ _
    ∙ ap (λ (t : Bytes). acc ++ t)
        (sym (map-append (flip reverse) (take 8 src) (drop 8 src))
          ∙ ap (flips reverse) (take-append-drop 8 src))

-- Enough rounds decode the stored form of any string, behind what is decoded already.
abbrev opened : Bool → Bytes → Bytes
opened reverse src = if reverse then reverse_bytes src else src

decode_groups-groups :
    (n : ℕ) (reverse : Bool) (src tail acc : Bytes)
    → length src < n * 8
    → decode_groups n reverse (flips reverse (groups 8 src) ++ tail) acc
      ≡ ok (tail, opened reverse (acc ++ flips reverse src))
decode_groups-groups zero reverse src tail acc h = absurd (omega arith)
decode_groups-groups (suc n) reverse src tail acc h = elim (dec_le 8 (length src)) [
  | yes p ↦
      ap (λ (t : Bytes). decode_groups (suc n) reverse t acc) (stored_full reverse src tail p)
      ∙ decode_full n reverse (flips reverse (take 8 src)) _ acc
          (length-map (take 8 src) (flip reverse) ∙ length-take_le 8 src p)
      ∙ decode_groups-groups n reverse (drop 8 src) tail (acc ++ flips reverse (take 8 src))
          (omega (arith, length-drop 8 src))
      ∙ ap (λ (t : Bytes). ok (tail, opened reverse t)) (joined reverse src acc)
  | no p ↦
      ap (λ (t : Bytes). decode_groups (suc n) reverse t acc)
        (stored_last reverse src tail (omega arith))
      ∙ decode_last n reverse (8 - length src) (flips reverse src) tail acc
          (omega (arith, length-map src (flip reverse))) (omega arith)
]

flips_twice : (src : Bytes) → IsBytes src → reverse_bytes (reverse_bytes src) ≡ src
flips_twice [] h = refl
flips_twice (x ∷ xs) h =
    ap₂ (λ (a : ℕ) (t : Bytes). a ∷ t) (omega (arith, h.0)) (flips_twice xs h.1)

-- The loop gets a round for each byte, which is enough for what the encoders wrote.
stored_fits :
    (reverse : Bool) (src rest : Bytes)
    → length src < suc (length (flips reverse (groups 8 src) ++ rest)) * 8
stored_fits reverse src rest = omega (
  arith,
  length-append (flips reverse (groups 8 src)) rest,
  length-map (groups 8 src) (flip reverse),
  length-groups 8 src,
)

-- DecodeBytes reads back the string that EncodeBytes wrote, and leaves the bytes that follow.
pub decode_bytes-encode_bytes :
    (src rest : Bytes) → decode_bytes (encode_bytes [] src ++ rest) ≡ ok (rest, src)
unfolding decode_bytes decode_bytes_with
decode_bytes-encode_bytes src rest = rw (encode_bytes-groups [] src) (
    rw (← map-id (groups 8 src)) (
      decode_groups-groups _ false src rest [] (stored_fits false src rest)
      ∙ ap (λ (t : Bytes). ok (rest, t)) (map-id src)))

-- DecodeBytesDesc reads back every byte string that EncodeBytesDesc wrote.
pub decode_bytes_desc-encode_bytes_desc :
    (src rest : Bytes)
    → IsBytes src
    → decode_bytes_desc (encode_bytes_desc [] src ++ rest) ≡ ok (rest, src)
unfolding decode_bytes_desc encode_bytes_desc decode_bytes_with
decode_bytes_desc-encode_bytes_desc src rest h = rw (encode_bytes-groups [] src) (
    decode_groups-groups _ true src rest [] (stored_fits true src rest)
    ∙ ap (λ (t : Bytes). ok (rest, t)) (flips_twice src h))
