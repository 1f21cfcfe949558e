-- ===== src/Codec/Group.antt =====
-- rockredis/bytes.go: byte strings in groups of eight bytes, each with a marker behind it.
pub mod Shape
pub mod Laws
pub mod RoundTrip
use zan_redis_db.Prelude.{
  ℕ, zero, suc, ◌+◌, ◌-◌, ◌/◌, Bool, true, false, ◌||◌, [], ◌∷◌, ◌++◌, map, length, take, drop,
  replicate, get_or, ltb, leb, ◌==◌, if◌then◌else◌,
}
use zan_redis_db.Result.{
  Result, ok, err, insufficient_bytes, invalid_marker, invalid_padding, out_of_fuel,
}
use zan_redis_db.Bytes.{Bytes}

abbrev pub enc_group_size : ℕ
enc_group_size = 8

abbrev pub enc_marker : ℕ
enc_marker = 255

abbrev pub enc_pad : ℕ
enc_pad = 0

-- `src` is what begins at `idx`. The loop runs while `idx <= dLen`, so a group that is not full,
-- and may be empty, is the last one. It makes `dLen / 8 + 1` rounds.
unfoldable pub encode_groups : ℕ → Bytes → Bytes → Bytes
encode_groups zero src result = result
encode_groups (suc rounds) src result =
    let remain = length src in
    let pad_count = enc_group_size - remain in
    let more =
      encode_groups rounds (drop enc_group_size src)
        (result ++ (take enc_group_size src ++ (enc_marker ∷ []))) in
    if leb enc_group_size remain
    then more
    else result ++ (src ++ (replicate pad_count enc_pad ++ ((enc_marker - pad_count) ∷ [])))

unfoldable pub encode_bytes : Bytes → Bytes → Bytes
encode_bytes b src = encode_groups (length src / enc_group_size + 1) src b

-- reverseBytes, `^b[i]` for each byte.
abbrev pub reverse_bytes : Bytes → Bytes
reverse_bytes = map (λ x. 255 - x)

all_eq : ℕ → Bytes → Bool
all_eq p [] = true
all_eq p (v ∷ vs) = if v == p then all_eq p vs else false

-- The loop of decodeBytes takes nine bytes a round, so `len(b)` rounds are enough.
unfoldable pub decode_groups : ℕ → Bool → Bytes → Bytes → Result (Bytes × Bytes)
unfolding all_eq
decode_groups zero reverse b src = err out_of_fuel
decode_groups (suc fuel) reverse b src =
    let group = take enc_group_size b in
    let marker = get_or b enc_group_size 0 in
    let pad_count = if reverse then marker else enc_marker - marker in
    let real_group_size = enc_group_size - pad_count in
    let src' = src ++ take real_group_size group in
    let rest = drop (enc_group_size + 1) b in
    let more = decode_groups fuel reverse rest src' in
    let pad_byte = if reverse then enc_marker else enc_pad in
    if ltb (length b) (enc_group_size + 1)
    then err insufficient_bytes
    else if ltb enc_group_size pad_count
    then err invalid_marker
    else if pad_count == 0
    then more
    else if all_eq pad_byte (drop real_group_size group)
    then ok (rest, (if reverse then reverse_bytes src' else src'))
    else err invalid_padding

unfoldable pub decode_bytes_with : Bytes → Bool → Result (Bytes × Bytes)
decode_bytes_with b reverse = decode_groups (suc (length b)) reverse b []

unfoldable pub decode_bytes : Bytes → Result (Bytes × Bytes)
decode_bytes b = decode_bytes_with b false

unfoldable pub encode_bytes_desc : Bytes → Bytes → Bytes
encode_bytes_desc b src = b ++ reverse_bytes (encode_bytes [] src)

unfoldable pub decode_bytes_desc : Bytes → Result (Bytes × Bytes)
decode_bytes_desc b = decode_bytes_with b true
