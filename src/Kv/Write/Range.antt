-- ===== src/Kv/Write/Range.antt =====
-- SETRANGE on a value that is stored: the bytes it leaves, and what GET reads after.
use zan_redis_db.Prelude.{
  ℕ, zero, suc, ◌+◌, ◌-◌, ◌%◌, ◌^◌, ◌<◌, ◌≤◌, ◌≡◌, refl, ap, ◌∙◌, arith, true, false, not, ◌&&◌,
  Option, none, some, [], ◌∷◌, ◌++◌, length, take, drop, replicate, get_elem?, ltb, if◌then◌else◌,
  inl, inr, Bool-cases, le→ltb, ltb→lt, length-append, length-replicate, length-drop,
  length-take_le, take_past, get_elem?-append_left, get_elem?-append_right, get_elem?-take,
  get_elem?-drop, get_elem?_past,
}
use zan_redis_db.Result.{Result, ok, err, index_panic}
use zan_redis_db.Bytes.{Bytes, IsWord64, lt_int64, add_int64, eq_bytes}
use zan_redis_db.Key.{max_value_size}
use zan_redis_db.Expire.{HeaderMetaValue, header_is_expired}
use zan_redis_db.Engine.{Engine, RockDb, or_return}
use zan_redis_db.Kv.{kv_get}
use zan_redis_db.Kv.Write.{set_range, copy_at, extended}
use zan_redis_db.Kv.Write.Change.{IsStored, prepare_found, rewrite_found, over, over-live}

get_elem?-replicate :
    (n i : ℕ) (a : ℕ) → get_elem? (replicate n a) i ≡ (if ltb i n then some a else none)
get_elem?-replicate zero i a = ground arith
get_elem?-replicate (suc n) zero a = ground arith
get_elem?-replicate (suc n) (suc i) a = get_elem?-replicate n i a ∙ ground arith

-- The bytes that SETRANGE is to leave: those of the new text from the offset on, the old bytes around
-- it, and zeros where the old value was too short to reach the offset.
unfoldable pub byte_of_range : Bytes → ℕ → Bytes → ℕ → Option ℕ
byte_of_range v offset x i =
    if not (ltb i offset) && ltb i (offset + length x)
    then get_elem? x (i - offset)
    else if ltb i offset && not (ltb i (length v))
    then some 0
    else get_elem? v i

length-extended :
    (v : Bytes) (n : ℕ) → (length (extended v n) ≡ (if ltb (length v) n then n else length v))
unfolding extended
length-extended v n = elim (Bool-cases (ltb (length v) n)) [
  | inl h ↦ rw h (
      omega (
        arith,
        length-append v (replicate (n - length v) 0),
        length-replicate {A = ℕ} (n - length v) 0,
        ltb→lt (length v) n h,
      ))
  | inr h ↦ rw h refl
]

get_elem?-extended :
    (v : Bytes) (n i : ℕ)
    → get_elem? (extended v n) i
      ≡ (if not (ltb i (length v)) && ltb i n then some 0 else get_elem? v i)
unfolding extended
get_elem?-extended v n i = ground (
  arith,
  get_elem?-append_left v (replicate (n - length v) 0) i,
  get_elem?-append_right v (replicate (n - length v) 0) i,
  get_elem?-replicate (n - length v) (i - length v) 0,
  get_elem?_past v i,
)

-- A value with a text copied over it.
abbrev pasted : Bytes → ℕ → Bytes → Bytes
pasted v offset x = take offset v ++ (take (length v - offset) x ++ drop (offset + length x) v)

module _ (v : Bytes) (offset : ℕ) (x : Bytes) (room : offset + length x ≤ length v) where
  whole : take (length v - offset) x ≡ x
  whole = take_past (length v - offset) x (omega arith)

  length-pasted : length (pasted v offset x) ≡ length v
  length-pasted = rw whole (
      omega (
        arith,
        length-append (take offset v) (x ++ drop (offset + length x) v),
        length-append x (drop (offset + length x) v),
        length-take_le offset v,
        length-drop (offset + length x) v,
      ))

  from_offset :
      (i : ℕ)
      → offset ≤ i
      → get_elem? (x ++ drop (offset + length x) v) (i - offset)
        ≡ (if ltb i (offset + length x) then get_elem? x (i - offset) else get_elem? v i)
  from_offset i high = elim (Bool-cases (ltb i (offset + length x))) [
    | inl h ↦
        let below : i < offset + length x = ltb→lt i (offset + length x) h in
        rw h (get_elem?-append_left x (drop (offset + length x) v) (i - offset) (omega arith))
    | inr h ↦
        let past : offset + length x ≤ i = ground arith in
        let back : offset + length x + (i - offset - length x) ≡ i = omega arith in
        rw h (
          get_elem?-append_right x (drop (offset + length x) v) (i - offset) (omega arith)
          ∙ get_elem?-drop (offset + length x) v (i - offset - length x)
          ∙ ap (get_elem? v) back)
  ]

  get_elem?-pasted :
      (i : ℕ)
      → get_elem? (pasted v offset x) i ≡ (
          if not (ltb i offset) && ltb i (offset + length x)
          then get_elem? x (i - offset)
          else get_elem? v i)
  get_elem?-pasted i =
      let front : length (take offset v) ≡ offset = length-take_le offset v (omega arith) in
      rw whole (elim (Bool-cases (ltb i offset)) [
        | inl h ↦
            let below : i < offset = ltb→lt i offset h in
            rw h (
              get_elem?-append_left (take offset v) (x ++ drop (offset + length x) v) i
                (omega (arith, front))
              ∙ get_elem?-take offset v i below)
        | inr h ↦
            let high : offset ≤ i = ground arith in
            rw h (
              get_elem?-append_right (take offset v) (x ++ drop (offset + length x) v) i
                (omega (arith, front))
              ∙ ap (λ (n : ℕ). get_elem? (x ++ drop (offset + length x) v) (i - n)) front
              ∙ from_offset i high)
      ])

-- A test on int64s that are not negative.
lt_int64-small : (a b : ℕ) → a < 2 ^ 63 → b < 2 ^ 63 → lt_int64 a b ≡ ltb a b
lt_int64-small a b h k =
    let x : (a + 2 ^ 63) % 2 ^ 64 ≡ a + 2 ^ 63 = omega arith in
    let y : (b + 2 ^ 63) % 2 ^ 64 ≡ b + 2 ^ 63 = omega arith in rw (x, y) (ground arith)

copy_at-ok :
    (v : Bytes) (offset : ℕ) (x : Bytes)
    → offset + length x ≤ length v
    → length v < 2 ^ 63
    → copy_at v offset x ≡ ok (pasted v offset x)
unfolding copy_at
copy_at-ok v offset x room small =
    rw
      (
        lt_int64-small offset 0 (omega arith) (omega arith),
        le→ltb offset 0 (omega arith),
        lt_int64-small (length v) offset small (omega arith),
        le→ltb (length v) offset (omega arith),
      )
      refl

copy_at-negative :
    (v : Bytes) (offset : ℕ) (x : Bytes)
    → lt_int64 offset 0 ≡ true
    → copy_at v offset x ≡ err index_panic
unfolding copy_at
copy_at-negative v offset x negative = rw negative refl

module _ {E : Engine} (db : RockDb E) (ts : ℕ) (key table kk : Bytes) (h : HeaderMetaValue)
    (v : Bytes) (s : IsStored db key table kk h v) (w : IsWord64 ts) where
  abbrev new_value : ℕ → Bytes → Bytes
  new_value offset x = pasted (extended v (offset + length x)) offset x

  new_value-bytes :
      (offset : ℕ) (x : Bytes) (i : ℕ)
      → get_elem? (new_value offset x) i ≡ byte_of_range v offset x i
  unfolding byte_of_range
  new_value-bytes offset x i =
      let n : ℕ = offset + length x in
      let long : length (extended v n) ≡ (if ltb (length v) n then n else length v) =
        length-extended v n in
      get_elem?-pasted (extended v n) offset x (ground arith) i
      ∙ ap (λ (o : Option ℕ). if not (ltb i offset) && ltb i n then get_elem? x (i - offset) else o)
          (get_elem?-extended v n i)
      ∙ ground arith

  set_range_found :
      (offset b : ℕ) (bs : Bytes)
      → offset + length (b ∷ bs) ≤ max_value_size
      → length v ≤ max_value_size
      → set_range db ts key offset (b ∷ bs) ≡ (
        ok (length (new_value offset (b ∷ bs))),
        over db ts key table kk h v s (new_value offset (b ∷ bs)),
      )
  unfolding set_range or_return
  set_range_found offset b bs room small =
      let n : ℕ = offset + length (b ∷ bs) in
      let total : add_int64 (length (b ∷ bs)) offset ≡ n = omega arith in
      let long : length (extended v n) ≡ (if ltb (length v) n then n else length v) =
        length-extended v n in
      rw
        (
          total,
          lt_int64-small max_value_size n (omega arith) (omega arith),
          le→ltb max_value_size n room,
          prepare_found db ts key table kk h v s,
          lt_int64-small n 0 (omega arith) (omega arith),
          le→ltb n 0 (omega arith),
          copy_at-ok (extended v n) offset (b ∷ bs) (ground arith) (ground arith),
        )
        (rewrite_found db ts key table kk h v s (new_value offset (b ∷ bs))
          (length (new_value offset (b ∷ bs))) w)

  -- SETRANGE on a live stored value, at an offset from which a text that is not empty ends within the
  -- size allowed, gives the length of the new value: the new text from the offset on, the old bytes
  -- around it, and zeros where the old value did not reach the offset. GET then reads it until the
  -- value expires as it would have before, and every other key as before. The old value has an
  -- allowed size, no calls wait in the batch, and the time is a word.
  pub set_range_live :
      db.wb ≡ []
      → header_is_expired h ts ≡ false
      → (offset b : ℕ) (bs : Bytes) → offset + length (b ∷ bs) ≤ max_value_size
      → length v ≤ max_value_size
      → (new : Bytes) × ((i : ℕ) → get_elem? new i ≡ byte_of_range v offset (b ∷ bs) i)
        × ((set_range db ts key offset (b ∷ bs)).0 ≡ ok (length new))
        × ((now : ℕ) (other : Bytes)
            → kv_get ((set_range db ts key offset (b ∷ bs)).1) now other ≡ (
                if eq_bytes key other
                then ok (if header_is_expired h now then none else some new)
                else kv_get db now other))
  set_range_live empty alive offset b bs room small = (
    new_value offset (b ∷ bs),
    λ i. new_value-bytes offset (b ∷ bs) i,
    ap (λ (p : Result ℕ × RockDb E). p.0) (set_range_found offset b bs room small),
    λ now other.
        ap (λ (p : Result ℕ × RockDb E). kv_get (p.1) now other)
          (set_range_found offset b bs room small)
        ∙ over-live db ts key table kk h v s empty w alive (new_value offset (b ∷ bs)) now other,
  )

  -- SETRANGE on a stored value with a negative offset, of a text that is not empty and has an allowed
  -- size, panics. The time is a word.
  pub set_range_negative :
      (offset b : ℕ) (bs : Bytes)
      → IsWord64 offset
      → lt_int64 offset 0 ≡ true
      → length (b ∷ bs) ≤ max_value_size
      → (set_range db ts key offset (b ∷ bs)).0 ≡ err index_panic
  unfolding set_range or_return
  set_range_negative offset b bs wo negative room =
      let passes : lt_int64 max_value_size (add_int64 (length (b ∷ bs)) offset) ≡ false =
        ground arith in
      rw
        (
          passes,
          prepare_found db ts key table kk h v s,
          copy_at-negative _ offset (b ∷ bs) negative,
        )
        refl
