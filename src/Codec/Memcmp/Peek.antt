-- ===== src/Codec/Memcmp/Peek.antt =====
-- CutOne splits a key behind its first value.
use zan_redis_db.Prelude.{
  ℕ, zero, suc, ◌+◌, ◌-◌, ◌*◌, ◌≤◌, ◌<◌, ◌≡◌, refl, sym, ap, ◌∙◌, arith, false, [], ◌∷◌, ◌++◌,
  length, take, drop, replicate, length-append, length-drop, length-take_le, length-replicate,
  append_assoc, get_or-append_at, take-append, drop-append, le→ltb, ◌==◌,
}
use native.Mathlib.Decide.{dec_le}
use mathlib.Core.Path.{ap₂}
use zan_redis_db.Result.{ok}
use zan_redis_db.Bytes.{Bytes}
use zan_redis_db.Codec.Number.Laws.{length-encode_int}
use zan_redis_db.Codec.Number.Float.{length-encode_float}
use zan_redis_db.Codec.Group.{encode_bytes}
use zan_redis_db.Codec.Group.Shape.{
  padding, groups, groups-full, groups-last, length-groups, encode_bytes-groups,
}
use zan_redis_db.Codec.Memcmp.{
  Value, byte, int, string, bytes, float, nil, other, peek_bytes_loop, peek_bytes, peek, cut_one,
  cut,
}
use zan_redis_db.Codec.Memcmp.Laws.{IsEncodable, value_bytes}

-- A group of eight bytes with a marker that counts no padding is passed over.
peek_full :
    (n : ℕ) (front g tail : Bytes)
    → length g ≡ 8
    → peek_bytes_loop (suc n) (front ++ g ++ 255 ∷ tail) false (length front)
      ≡ peek_bytes_loop n (front ++ g ++ 255 ∷ tail) false (length front + 9)
unfolding peek_bytes_loop
peek_full n front g tail h =
    let sum : length (front ++ g) ≡ length front + 8 = omega (arith, length-append front g) in
    rw (
      le→ltb (length (front ++ g ++ 255 ∷ tail)) (length front + 9)
          (omega (arith, length-append (front ++ g) (255 ∷ tail))),
      get_or-append_at (length front + 8) (front ++ g) tail 255 0 sum,
    )

-- A group whose marker counts padding is the last.
peek_last :
    (n : ℕ) (front g tail : Bytes) (pad : ℕ)
    → length g ≡ 8
    → 0 < pad
    → pad < 255
    → peek_bytes_loop (suc n) (front ++ g ++ (255 - pad) ∷ tail) false (length front)
      ≡ ok (length front + 9)
unfolding peek_bytes_loop
peek_last n front g tail pad h hp hq =
    let sum : length (front ++ g) ≡ length front + 8 = omega (arith, length-append front g) in
    let counted : (255 - (255 - pad) == 0) ≡ false = ground arith in
    rw (
      le→ltb (length (front ++ g ++ (255 - pad) ∷ tail)) (length front + 9)
          (omega (arith, length-append (front ++ g) ((255 - pad) ∷ tail))),
      get_or-append_at (length front + 8) (front ++ g) tail (255 - pad) 0 sum,
      counted,
    )

module _ (front src tail : Bytes) where
  -- The first group of a long string, and what is left of the string behind it.
  first_group :
      8 ≤ length src
      → front ++ (groups 8 src ++ tail)
        ≡ front ++ take 8 src ++ 255 ∷ (groups 8 (drop 8 src) ++ tail)
  first_group p =
      ap (λ (t : Bytes). front ++ (t ++ tail)) (groups-full 8 src p)
      ∙ ap (λ (t : Bytes). front ++ t) (append_assoc (take 8 src) _ tail)
      ∙ sym (append_assoc front (take 8 src) _)

  passed : Bytes
  passed = front ++ take 8 src ++ 255 ∷ []

  length-passed : 8 ≤ length src → length passed ≡ length front + 9
  unfolding passed
  length-passed p = omega (
    arith,
    length-append (front ++ take 8 src) (255 ∷ []),
    length-append front (take 8 src),
    length-take_le 8 src p,
  )

  behind : (r : Bytes) → front ++ take 8 src ++ 255 ∷ r ≡ passed ++ r
  unfolding passed
  behind r = sym (append_assoc (front ++ take 8 src) (255 ∷ []) r)

  last_group :
      length src < 8
      → front ++ (groups 8 src ++ tail)
        ≡ front ++ (src ++ replicate (8 - length src) 0) ++ (255 - (8 - length src)) ∷ tail
  last_group p =
      let pad : ℕ = 8 - length src in
      ap (λ (t : Bytes). front ++ (t ++ tail)) (groups-last 8 src p)
      ∙ ap (λ (t : Bytes). front ++ t)
          (append_assoc src (padding pad) tail
            ∙ ap (λ (t : Bytes). src ++ t) (append_assoc (replicate pad 0) ((255 - pad) ∷ []) tail)
            ∙ sym (append_assoc src (replicate pad 0) ((255 - pad) ∷ tail)))
      ∙ sym (append_assoc front (src ++ replicate pad 0) ((255 - pad) ∷ tail))

peek_groups :
    (n : ℕ) (front src tail : Bytes)
    → length src < n * 8
    → peek_bytes_loop n (front ++ (groups 8 src ++ tail)) false (length front)
      ≡ ok (length front + length (groups 8 src))
peek_groups zero front src tail h = absurd (omega arith)
peek_groups (suc n) front src tail h = elim (dec_le 8 (length src)) [
  | yes p ↦
      let r : Bytes = groups 8 (drop 8 src) ++ tail in
      ap (λ (b : Bytes). peek_bytes_loop (suc n) b false (length front))
        (first_group front src tail p)
      ∙ peek_full n front (take 8 src) r (length-take_le 8 src p)
      ∙ ap₂ (λ (b : Bytes) (o : ℕ). peek_bytes_loop n b false o) (behind front src tail r)
          (sym (length-passed front src tail p))
      ∙ peek_groups n (passed front src tail) (drop 8 src) tail (omega (arith, length-drop 8 src))
      ∙ ap ok (
          omega (
            arith,
            length-passed front src tail p,
            ap length (groups-full 8 src p),
            length-append (take 8 src) (255 ∷ groups 8 (drop 8 src)),
            length-take_le 8 src p,
          ))
  | no p ↦
      let pad : ℕ = 8 - length src in
      let g : Bytes = src ++ replicate pad 0 in
      let full : length g ≡ 8 =
        omega (arith, length-append src (replicate pad 0), length-replicate {A = ℕ} pad 0) in
      ap (λ (b : Bytes). peek_bytes_loop (suc n) b false (length front))
        (last_group front src tail (omega arith))
      ∙ peek_last n front g tail pad full (omega arith) (omega arith)
      ∙ ap ok (
          omega (
            arith,
            ap length (groups-last 8 src (omega arith)),
            length-append src (padding pad),
            length-append (replicate pad 0) ((255 - pad) ∷ []),
            length-replicate {A = ℕ} pad 0,
          ))
]

peek_bytes-encode_bytes :
    (v rest : Bytes)
    → peek_bytes (encode_bytes [] v ++ rest) false ≡ ok (length (encode_bytes [] v))
unfolding peek_bytes
peek_bytes-encode_bytes v rest = rw (encode_bytes-groups [] v) (
    peek_groups _ [] v rest (omega (arith, length-append (groups 8 v) rest, length-groups 8 v))
    ∙ ap ok (omega arith))

peek-value_bytes :
    (v : Value) (rest : Bytes)
    → IsEncodable v
    → peek (value_bytes v ++ rest) ≡ ok (length (value_bytes v))
unfolding peek
peek-value_bytes (byte v) rest h = rw (length-encode_int v)
peek-value_bytes (int v) rest h = rw (length-encode_int v)
peek-value_bytes (string v) rest h = rw (peek_bytes-encode_bytes v rest) (ap ok (omega arith))
peek-value_bytes (bytes v) rest h = rw (peek_bytes-encode_bytes v rest) (ap ok (omega arith))
peek-value_bytes (float v) rest h = rw (length-encode_float v)
peek-value_bytes nil rest h = refl
peek-value_bytes other rest h = absurd h

-- CutOne splits a key behind the encoding of its first value, for every value that can be encoded.
pub cut_one-value_bytes :
    (v : Value) (rest : Bytes)
    → IsEncodable v
    → cut_one (value_bytes v ++ rest) ≡ cut (value_bytes v) rest
unfolding cut_one
cut_one-value_bytes v rest h = rw (
  peek-value_bytes v rest h,
  le→ltb (length (value_bytes v ++ rest)) (length (value_bytes v))
      (omega (arith, length-append (value_bytes v) rest)),
  take-append (value_bytes v) rest,
  drop-append (value_bytes v) rest,
)
