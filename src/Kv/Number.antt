-- ===== src/Kv/Number.antt =====
-- rockredis/util.go: StrInt64 and FormatInt64ToSlice, which are strconv.ParseInt and AppendInt at
-- base 10. An int64 is its bit pattern.
use native.Mathlib.Nat.{pow-suc}
use zan_redis_db.Prelude.{
  ℕ, zero, suc, ◌+◌, ◌-◌, ◌*◌, ◌/◌, ◌%◌, ◌^◌, ◌<◌, ◌≤◌, ◌≡◌, refl, sym, ap, ◌∙◌, arith, true, false,
  ◌||◌, [], ◌∷◌, ltb, leb, ◌==◌, if◌then◌else◌, Bool-cases, inl, inr, ◌⊎◌, lt→ltb, le→ltb, lt→leb,
}
use zan_redis_db.Result.{Result, ok, err, int_syntax, int_range, ◌>>=◌}
use zan_redis_db.Bytes.{Bytes, IsWord64, lt_int64, neg_int64}

-- The loop of ParseUint behind the first digits.
parse_digits : Bytes → ℕ → Result ℕ
parse_digits [] n = ok n
parse_digits (c ∷ s) n =
    let n' = n * 10 + (c - b'0') in
    let rest = parse_digits s n' in
    if ltb c b'0' || ltb b'9' c
    then err int_syntax
    else if leb (2 ^ 64) n'
    then err int_range
    else rest

parse_uint : Bytes → Result ℕ
unfolding parse_digits
parse_uint [] = err int_syntax
parse_uint (c ∷ s) = parse_digits (c ∷ s) 0

parse_positive : Bytes → Result ℕ
unfolding parse_uint
parse_positive s = do n ← parse_uint s; if leb (2 ^ 63) n then err int_range else ok n

parse_negative : Bytes → Result ℕ
unfolding parse_uint
parse_negative s = do n ← parse_uint s; if ltb (2 ^ 63) n then err int_range else ok (neg_int64 n)

-- The value is not nil.
unfoldable pub str_int64 : Bytes → Result ℕ
unfolding parse_positive parse_negative
str_int64 [] = err int_syntax
str_int64 (c ∷ s) =
    if c == b'-'
    then parse_negative s
    else if c == b'+'
    then parse_positive s
    else parse_positive (c ∷ s)

-- The loop of formatBits, which writes from the last digit on. A uint64 has twenty at most.
digits : ℕ → ℕ → Bytes → Bytes
digits zero n out = out
digits (suc fuel) n out =
    let more = digits fuel (n / 10) ((b'0' + n % 10) ∷ out) in
    if ltb n 10 then (b'0' + n) ∷ out else more

unfoldable pub format_int64 : ℕ → Bytes
unfolding digits
format_int64 v = if lt_int64 v 0 then b'-' ∷ digits 20 (neg_int64 v) [] else digits 20 v []

parse_digits-nil : (n : ℕ) → parse_digits [] n ≡ ok n
unfolding parse_digits
parse_digits-nil n = refl

parse_digits_step :
    (d m n : ℕ) (out : Bytes)
    → d < 10
    → m * 10 + d ≡ n
    → n < 2 ^ 64
    → parse_digits ((b'0' + d) ∷ out) m ≡ parse_digits out n
unfolding parse_digits
parse_digits_step d m n out small e fits =
    let here : m * 10 + (b'0' + d - b'0') ≡ n = omega arith in
    rw
      (
        here,
        le→ltb (b'0' + d) b'0' (omega arith),
        le→ltb b'9' (b'0' + d) (omega arith),
        lt→leb (2 ^ 64) n (omega arith),
      )
      refl

-- The parser's loop reads the digits of a number back.
parse_digits-digits :
    (fuel n : ℕ) (out : Bytes)
    → n < 10 ^ suc fuel
    → n < 2 ^ 64
    → parse_digits (digits (suc fuel) n out) 0 ≡ parse_digits out n
unfolding digits
parse_digits-digits zero n out small fits =
    rw (lt→ltb n 10 (omega arith)) (parse_digits_step n 0 n out (omega arith) (omega arith) fits)
parse_digits-digits (suc fuel) n out small fits = elim (Bool-cases (ltb n 10)) [
  | inl h ↦ rw h (parse_digits_step n 0 n out (ground arith) (omega arith) fits)
  | inr h ↦ rw h (
      parse_digits-digits fuel (n / 10) ((b'0' + n % 10) ∷ out)
        (omega (arith, pow-suc 10 (suc fuel))) (omega arith)
      ∙ parse_digits_step (n % 10) (n / 10) n out (omega arith) (omega arith) fits)
]

digits-cons :
    (fuel n : ℕ) (out : Bytes)
    → (c : ℕ) × (s : Bytes) × (digits (suc fuel) n out ≡ c ∷ s) × (b'0' ≤ c) × (c ≤ b'9')
unfolding digits
digits-cons zero n out = elim (Bool-cases (ltb n 10)) [
  | inl h ↦ (b'0' + n, out, rw h refl, omega arith, ground arith)
  | inr h ↦ (b'0' + n % 10, out, rw h refl, omega arith, omega arith)
]
digits-cons (suc fuel) n out = elim (Bool-cases (ltb n 10)) [
  | inl h ↦ (b'0' + n, out, rw h refl, omega arith, ground arith)
  | inr h ↦ rw h (digits-cons fuel (n / 10) ((b'0' + n % 10) ∷ out))
]

parse_uint-digits : (n : ℕ) → n < 2 ^ 64 → parse_uint (digits 20 n []) ≡ ok n
unfolding parse_uint
parse_uint-digits n h =
    let (c, s, e, low, high) = digits-cons 19 n [] in
    ap parse_uint e
    ∙ sym (ap (λ (t : Bytes). parse_digits t 0) e)
    ∙ parse_digits-digits 19 n [] (omega arith) h
    ∙ parse_digits-nil n

str_int64-digit : (c : ℕ) (s : Bytes) → b'0' ≤ c → str_int64 (c ∷ s) ≡ parse_positive (c ∷ s)
unfolding str_int64
str_int64-digit c s low = ground arith

parse_positive-digits : (v : ℕ) → v < 2 ^ 63 → parse_positive (digits 20 v []) ≡ ok v
unfolding parse_positive
parse_positive-digits v h =
    rw (parse_uint-digits v (omega arith), lt→leb (2 ^ 63) v (omega arith)) refl

parse_negative-digits : (v : ℕ) → v ≤ 2 ^ 63 → parse_negative (digits 20 v []) ≡ ok (neg_int64 v)
unfolding parse_negative
parse_negative-digits v h =
    rw (parse_uint-digits v (omega arith), le→ltb (2 ^ 63) v (omega arith)) refl

str_int64-minus : (s : Bytes) → str_int64 (b'-' ∷ s) ≡ parse_negative s
unfolding str_int64
str_int64-minus s = refl

format_int64-cases :
    (v : ℕ)
    → format_int64 v ≡ (if lt_int64 v 0 then b'-' ∷ digits 20 (neg_int64 v) [] else digits 20 v [])
unfolding format_int64
format_int64-cases v = refl

-- Every int64 is read back from its decimal print.
pub str_int64-format_int64 : (v : ℕ) → IsWord64 v → str_int64 (format_int64 v) ≡ ok v
str_int64-format_int64 v w = ap str_int64 (format_int64-cases v) ∙ back (Bool-cases (lt_int64 v 0))
  where
    back :
        (lt_int64 v 0 ≡ true) ⊎ (lt_int64 v 0 ≡ false)
        → str_int64 (if lt_int64 v 0 then b'-' ∷ digits 20 (neg_int64 v) [] else digits 20 v [])
          ≡ ok v
    back (inl h) =
        let same : neg_int64 (neg_int64 v) ≡ v = ground arith in
        rw h (
          str_int64-minus (digits 20 (neg_int64 v) [])
          ∙ parse_negative-digits (neg_int64 v) (ground arith)
          ∙ ap ok same)
    back (inr h) =
        let (c, s, e, low, high) = digits-cons 19 v [] in
        rw h (
          ap str_int64 e
          ∙ str_int64-digit c s low
          ∙ sym (ap parse_positive e)
          ∙ parse_positive-digits v (ground arith))
