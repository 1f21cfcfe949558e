-- ===== src/Kv/Range.antt =====
-- GETRANGE: the bounds of a range never leave the value.
use zan_redis_db.Prelude.{
  ℕ, ◌+◌, ◌-◌, ◌^◌, ◌<◌, ◌≤◌, ◌≡◌, refl, ap, ◌∙◌, arith, Bool, true, false, not, ◌||◌, Option, none,
  some, length, take, drop, ltb, leb, if◌then◌else◌, inl, inr, Bool-cases, ltb→lt, length-drop,
  take_past,
}
use zan_redis_db.Result.{Result, ok, ◌>>=◌}
use zan_redis_db.Bytes.{Bytes, IsWord64, lt_int64, add_int64, neg_int64}
use zan_redis_db.Expire.{bytes_of}
use zan_redis_db.Engine.{Engine, RockDb}
use zan_redis_db.Kv.{kv_get, get_range, get_range_bounds, slice}

-- A place that is counted from the front, or from the back where it is negative; a place before the
-- front is the front.
abbrev pub place : ℕ → ℕ → ℕ
place n i = if lt_int64 i 0 then n - neg_int64 i else i

clamped :
    (n i : ℕ)
    → n < 2 ^ 62
    → IsWord64 i
    → (let i' : ℕ = if lt_int64 i 0 then add_int64 n i else i in if lt_int64 i' 0 then 0 else i')
      ≡ place n i
clamped n i small w = ground arith

place-lt : (n i : ℕ) → n < 2 ^ 62 → IsWord64 i → place n i < 2 ^ 63
place-lt n i small w = ground arith

bounds :
    (start end n : ℕ)
    → n < 2 ^ 62
    → IsWord64 start
    → IsWord64 end
    → get_range_bounds start end n ≡ (
      place n start,
      (if not (lt_int64 (place n end) n) then add_int64 n (neg_int64 1) else place n end),
    )
unfolding get_range_bounds
bounds start end n small ws we = rw (clamped n start small ws, clamped n end small we) refl

-- What a range gives.
abbrev pub range_of : Bytes → ℕ → ℕ → Option Bytes
range_of v from to =
    if leb (length v) from || ltb to from then none else some (take (to + 1 - from) (drop from v))

last_place :
    (n to : ℕ)
    → n < 2 ^ 62
    → to < 2 ^ 63
    → (if not (lt_int64 to n) then add_int64 n (neg_int64 1) else to)
      ≡ (if ltb to n then to else add_int64 n (neg_int64 1))
last_place n to small h = ground arith

slice-ok :
    (v : Bytes) (from to : ℕ)
    → from ≤ to
    → to ≤ length v
    → length v < 2 ^ 62
    → slice v from to ≡ ok (take (to - from) (drop from v))
unfolding slice
slice-ok v from to h k small =
    let a : lt_int64 from 0 ≡ false = ground arith in
    let b : lt_int64 to from ≡ false = ground arith in
    let c : lt_int64 (length v) to ≡ false = ground arith in rw (a, b, c) refl

abbrev read_last : Bytes → ℕ → ℕ → Result (Option Bytes)
read_last v from last =
    if lt_int64 last from then ok none else (slice v from (add_int64 last 1) >>= λ s. ok (some s))

read_inside :
    (v : Bytes) (from to : ℕ)
    → length v < 2 ^ 62
    → from < 2 ^ 63
    → to < length v
    → read_last v from to ≡ ok (range_of v from to)
read_inside v from to small hf h = elim (Bool-cases (ltb to from)) [
  | inl e ↦
      let a : lt_int64 to from ≡ true = ground arith in
      let b : (leb (length v) from || ltb to from) ≡ true = ground arith in rw (a, b) refl
  | inr e ↦
      let a : lt_int64 to from ≡ false = ground arith in
      let b : (leb (length v) from || ltb to from) ≡ false = ground arith in
      let c : add_int64 to 1 ≡ to + 1 = omega arith in
      rw (a, b, c, slice-ok v from (to + 1) (ground arith) (omega arith) small) refl
]

read_past :
    (v : Bytes) (from to : ℕ)
    → length v < 2 ^ 62
    → from < 2 ^ 63
    → length v ≤ to
    → read_last v from (add_int64 (length v) (neg_int64 1)) ≡ ok (range_of v from to)
read_past v from to small hf h = elim (Bool-cases (leb (length v) from)) [
  | inl e ↦
      let a : lt_int64 (add_int64 (length v) (neg_int64 1)) from ≡ true = ground arith in
      rw (a, e) refl
  | inr e ↦
      let a : lt_int64 (add_int64 (length v) (neg_int64 1)) from ≡ false = ground arith in
      let b : (leb (length v) from || ltb to from) ≡ false = ground arith in
      let c : add_int64 (add_int64 (length v) (neg_int64 1)) 1 ≡ length v = omega arith in
      let n : length (drop from v) ≡ length v - from = length-drop from v in
      let left : from ≤ length v = ground arith in
      rw
        (
          a,
          b,
          c,
          slice-ok v from (length v) left (omega arith) small,
          take_past (length v - from) (drop from v) (omega (arith, n)),
          take_past (to + 1 - from) (drop from v) (omega (arith, n)),
        )
        refl
]

read_range :
    (v : Bytes) (from to : ℕ)
    → length v < 2 ^ 62
    → from < 2 ^ 63
    → read_last v from (if ltb to (length v) then to else add_int64 (length v) (neg_int64 1))
      ≡ ok (range_of v from to)
read_range v from to small hf = elim (Bool-cases (ltb to (length v))) [
  | inl e ↦
      ap (λ (b : Bool). read_last v from (if b then to else add_int64 (length v) (neg_int64 1))) e
      ∙ read_inside v from to small hf (ltb→lt to (length v) e)
  | inr e ↦
      ap (λ (b : Bool). read_last v from (if b then to else add_int64 (length v) (neg_int64 1))) e
      ∙ read_past v from to small hf (ground arith)
]

-- GETRANGE of a value below 2^62 bytes never panics, for every int64 start and end: it gives the bytes
-- from the start up to the end, both counted from the back where they are negative and moved to the
-- front where they are before it, and nothing where the start is past the value or past the end.
pub get_range_total :
    {E : Engine} (db : RockDb E) (now : ℕ) (key : Bytes) (r : Option Bytes) (start end : ℕ)
    → kv_get db now key ≡ ok r
    → length (bytes_of r) < 2 ^ 62
    → IsWord64 start
    → IsWord64 end
    → get_range db now key start end
      ≡ ok (
          range_of
            (bytes_of r)
            (place (length (bytes_of r)) start)
            (place (length (bytes_of r)) end))
unfolding get_range
get_range_total db now key r start end found small ws we =
    let n : ℕ = length (bytes_of r) in
    rw (found, bounds start end n small ws we)
      (ap (read_last (bytes_of r) (place n start))
          (last_place n (place n end) small (place-lt n end small we))
        ∙ read_range (bytes_of r) (place n start) (place n end) small (place-lt n start small ws))
