-- ===== src/Bytes/Words.antt =====
-- Big-endian words: reading what was written.
use native.Mathlib.Nat.{
  pow-suc, one-le-pow, div-add-mod, mod-lt, mul-add-mod_self_left, mod-eq_of_lt,
}
use zan_redis_db.Prelude.{
  ℕ, zero, suc, ◌+◌, ◌*◌, ◌/◌, ◌%◌, ◌^◌, ◌<◌, ◌≡◌, refl, sym, ap, ◌∙◌, arith, [], ◌∷◌, ◌++◌,
  append-nil, length, take, take-append_at,
}
use zan_redis_db.Bytes.{Bytes, IsBytes, put_be, get_be}

pub length-put_be : (n v : ℕ) → length (put_be n v) ≡ n
unfolding put_be
length-put_be zero v = refl
length-put_be (suc n) v = ap suc (length-put_be n v)

pub put_be-IsBytes : (n v : ℕ) → IsBytes (put_be n v)
unfolding put_be
put_be-IsBytes zero v = tt
put_be-IsBytes (suc n) v = (omega arith, put_be-IsBytes n v)

-- The n + 1 lowest digits to base 256 are the top one of them and the n below it.
pub split_top : (n v : ℕ) → v % 256 ^ suc n ≡ v / 256 ^ n % 256 * 256 ^ n + v % 256 ^ n
split_top n v =
    let p : ℕ = 256 ^ n in
    let q : ℕ = v / p in
    let low : ℕ = p * (q % 256) + v % p in
    let below : low < p * 256 = grind (arith, mod-lt v {m = p} (one-le-pow n 256 (omega arith))) in
    let whole : p * 256 * (q / 256) + low ≡ v =
      omega (arith, div-add-mod v p, ap (λ (t : ℕ). p * t) (div-add-mod q 256)) in
    ap (λ (t : ℕ). v % t) (pow-suc 256 n)
    ∙ ap (λ (t : ℕ). t % (p * 256)) (sym whole)
    ∙ mul-add-mod_self_left (p * 256) (q / 256) low
    ∙ mod-eq_of_lt below
    ∙ omega arith

get_be-put_be_mod : (n v : ℕ) → get_be (put_be n v) ≡ v % 256 ^ n
unfolding put_be get_be
get_be-put_be_mod zero v = omega arith
get_be-put_be_mod (suc n) v = omega (
  arith,
  split_top n v,
  get_be-put_be_mod n v,
  ap (λ (k : ℕ). v / 256 ^ n % 256 * 256 ^ k) (length-put_be n v),
)

-- Reading a word that stands in front of other bytes.
pub get_be-put_be :
    (n v : ℕ) (rest : Bytes) → v < 256 ^ n → get_be (take n (put_be n v ++ rest)) ≡ v
get_be-put_be n v rest h =
    rw (take-append_at n (put_be n v) rest (length-put_be n v))
      (get_be-put_be_mod n v ∙ mod-eq_of_lt h)

get_be-lt : (bs : Bytes) → IsBytes bs → get_be bs < 256 ^ length bs
unfolding get_be
get_be-lt [] h = omega arith
get_be-lt (b ∷ bs) (hb, hbs) = rw pow-suc (grind (arith, get_be-lt bs hbs))

-- Reading a word that nothing follows.
pub get_be-put_be_whole : (n v : ℕ) → v < 256 ^ n → get_be (take n (put_be n v)) ≡ v
get_be-put_be_whole n v h =
    ap (λ (t : Bytes). get_be (take n t)) (sym (append-nil (put_be n v))) ∙ get_be-put_be n v [] h
