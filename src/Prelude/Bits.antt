-- ===== src/Prelude/Bits.antt =====
-- The sign bit of a word of any width, in plain arithmetic. The laws go by the digit recursion
-- that the native operations stand for.
use Prim.Native.Nat.{
  ℕ, zero, suc, ◌+◌, ◌-◌, ◌*◌, ◌/◌, ◌%◌, ◌^◌, ◌≤◌, ◌<◌, max, min, differ, bit_and, bit_or, bit_xor,
  digits, bit_and-bitwise, bit_or-bitwise, bit_xor-bitwise,
}
use mathlib.Core.Path.{◌≡◌, refl, ap, ap₂}
use native.Mathlib.Omega.{arith}
use native.Mathlib.Nat.{pow-suc}
use native.Mathlib.Decide.{dec_lt}

-- Any fuel that reaches the first number gives the same digits.
enough_digits :
    (ends : ℕ → ℕ) (op : ℕ → ℕ → ℕ) (x y k l : ℕ)
    → x ≤ l
    → x ≤ k
    → digits ends op l x y ≡ digits ends op k x y
enough_digits ends op zero y zero zero hl hk = refl
enough_digits ends op zero y (suc k) zero hl hk = refl
enough_digits ends op zero y zero (suc l) hl hk = refl
enough_digits ends op zero y (suc k) (suc l) hl hk = refl
enough_digits ends op (suc x) y zero l hl hk = absurd (omega arith)
enough_digits ends op (suc x) y (suc k) zero hl hk = absurd (omega arith)
enough_digits ends op (suc x) y (suc k) (suc l) hl hk =
    omega (arith, enough_digits ends op (suc x / 2) (y / 2) k l (omega arith) (omega arith))

xor_step : (a b : ℕ) → bit_xor a b ≡ bit_xor (a / 2) (b / 2) * 2 + differ (a % 2) (b % 2)
xor_step zero b = omega (arith, bit_xor-bitwise 0 b, bit_xor-bitwise 0 (b / 2))
xor_step (suc a) b = omega (
  arith,
  bit_xor-bitwise (suc a) b,
  bit_xor-bitwise (suc a / 2) (b / 2),
  enough_digits (λ r. r) differ (suc a / 2) (b / 2) (suc a / 2) a (omega arith) (omega arith),
)

or_step : (a b : ℕ) → bit_or a b ≡ bit_or (a / 2) (b / 2) * 2 + max (a % 2) (b % 2)
or_step zero b = omega (arith, bit_or-bitwise 0 b, bit_or-bitwise 0 (b / 2))
or_step (suc a) b = omega (
  arith,
  bit_or-bitwise (suc a) b,
  bit_or-bitwise (suc a / 2) (b / 2),
  enough_digits (λ r. r) max (suc a / 2) (b / 2) (suc a / 2) a (omega arith) (omega arith),
)

differ-zero : (x : ℕ) → differ x 0 ≡ x
differ-zero zero = refl
differ-zero (suc x) = refl

two_pow : (k : ℕ) → 2 ^ suc k ≡ 2 * 2 ^ k
two_pow k = omega (arith, pow-suc 2 k)

half_two_pow : (k : ℕ) → 2 ^ suc k / 2 ≡ 2 ^ k
half_two_pow k = omega (arith, two_pow k)

even_two_pow : (k : ℕ) → 2 ^ suc k % 2 ≡ 0
even_two_pow k = omega (arith, two_pow k)

-- The sign bit over the halved number.
half_high : (k a : ℕ) → (a + 2 ^ suc k) / 2 ≡ a / 2 + 2 ^ k
half_high k a = omega (arith, two_pow k)

-- Exclusive or with the sign bit sets a clear bit, and clears a set one.
xor-sign_low : (k a : ℕ) → a < 2 ^ k → bit_xor a (2 ^ k) ≡ a + 2 ^ k
xor-sign_low zero zero h = refl
xor-sign_low zero (suc a) h = absurd (omega arith)
xor-sign_low (suc k) a h = omega (
  arith,
  two_pow k,
  xor_step a (2 ^ suc k),
  ap (λ (t : ℕ). bit_xor (a / 2) t) (half_two_pow k),
  ap (λ (t : ℕ). differ (a % 2) t) (even_two_pow k),
  differ-zero (a % 2),
  xor-sign_low k (a / 2) (omega (arith, two_pow k)),
)

xor-sign_high : (k a : ℕ) → a < 2 ^ k → bit_xor (a + 2 ^ k) (2 ^ k) ≡ a
xor-sign_high zero zero h = refl
xor-sign_high zero (suc a) h = absurd (omega arith)
xor-sign_high (suc k) a h = omega (
  arith,
  two_pow k,
  xor_step (a + 2 ^ suc k) (2 ^ suc k),
  ap₂ bit_xor (half_high k a) (half_two_pow k),
  ap (λ (t : ℕ). differ ((a + 2 ^ suc k) % 2) t) (even_two_pow k),
  differ-zero ((a + 2 ^ suc k) % 2),
  xor-sign_high k (a / 2) (omega (arith, two_pow k)),
)

-- Or with the sign bit sets it, and keeps the bits below.
or-sign_low : (k a : ℕ) → a < 2 ^ k → bit_or a (2 ^ k) ≡ a + 2 ^ k
or-sign_low zero zero h = refl
or-sign_low zero (suc a) h = absurd (omega arith)
or-sign_low (suc k) a h = omega (
  arith,
  two_pow k,
  or_step a (2 ^ suc k),
  ap (λ (t : ℕ). bit_or (a / 2) t) (half_two_pow k),
  or-sign_low k (a / 2) (omega (arith, two_pow k)),
)

or-sign_high : (k a : ℕ) → a < 2 ^ k → bit_or (a + 2 ^ k) (2 ^ k) ≡ a + 2 ^ k
or-sign_high zero zero h = refl
or-sign_high zero (suc a) h = absurd (omega arith)
or-sign_high (suc k) a h = omega (
  arith,
  two_pow k,
  or_step (a + 2 ^ suc k) (2 ^ suc k),
  ap₂ bit_or (half_high k a) (half_two_pow k),
  or-sign_high k (a / 2) (omega (arith, two_pow k)),
)

and_step : (a b : ℕ) → bit_and a b ≡ bit_and (a / 2) (b / 2) * 2 + min (a % 2) (b % 2)
and_step zero b = omega (arith, bit_and-bitwise 0 b, bit_and-bitwise 0 (b / 2))
and_step (suc a) b = omega (
  arith,
  bit_and-bitwise (suc a) b,
  bit_and-bitwise (suc a / 2) (b / 2),
  enough_digits (λ r. zero) min (suc a / 2) (b / 2) (suc a / 2) a (omega arith) (omega arith),
)

-- And with the sign bit reads it.
and-sign_low : (k a : ℕ) → a < 2 ^ k → bit_and a (2 ^ k) ≡ 0
and-sign_low zero zero h = refl
and-sign_low zero (suc a) h = absurd (omega arith)
and-sign_low (suc k) a h = omega (
  arith,
  two_pow k,
  and_step a (2 ^ suc k),
  ap (λ (t : ℕ). bit_and (a / 2) t) (half_two_pow k),
  and-sign_low k (a / 2) (omega (arith, two_pow k)),
)

and-sign_high : (k a : ℕ) → a < 2 ^ k → bit_and (a + 2 ^ k) (2 ^ k) ≡ 2 ^ k
and-sign_high zero zero h = refl
and-sign_high zero (suc a) h = absurd (omega arith)
and-sign_high (suc k) a h = omega (
  arith,
  two_pow k,
  and_step (a + 2 ^ suc k) (2 ^ suc k),
  ap₂ bit_and (half_high k a) (half_two_pow k),
  and-sign_high k (a / 2) (omega (arith, two_pow k)),
)

-- And with the ones below the sign bit clears that bit.
half_ones : (k : ℕ) → (2 ^ suc k - 1) / 2 ≡ 2 ^ k - 1
half_ones k = omega (arith, two_pow k)

and-ones_low : (k a : ℕ) → a < 2 ^ k → bit_and a (2 ^ k - 1) ≡ a
and-ones_low zero zero h = refl
and-ones_low zero (suc a) h = absurd (omega arith)
and-ones_low (suc k) a h = omega (
  arith,
  two_pow k,
  and_step a (2 ^ suc k - 1),
  ap (λ (t : ℕ). bit_and (a / 2) t) (half_ones k),
  and-ones_low k (a / 2) (omega (arith, two_pow k)),
)

and-ones_high : (k a : ℕ) → a < 2 ^ k → bit_and (a + 2 ^ k) (2 ^ k - 1) ≡ a
and-ones_high zero zero h = refl
and-ones_high zero (suc a) h = absurd (omega arith)
and-ones_high (suc k) a h = omega (
  arith,
  two_pow k,
  and_step (a + 2 ^ suc k) (2 ^ suc k - 1),
  ap₂ bit_and (half_high k a) (half_ones k),
  and-ones_high k (a / 2) (omega (arith, two_pow k)),
)

restored : (a : ℕ) → 2 ^ 63 ≤ a → a - 2 ^ 63 + 2 ^ 63 ≡ a
restored a h = omega arith

-- The same for a 64-bit word.
pub xor-sign_64 : (a : ℕ) → a < 2 ^ 64 → bit_xor a (2 ^ 63) ≡ (a + 2 ^ 63) % 2 ^ 64
xor-sign_64 a h = elim (dec_lt a (2 ^ 63)) [
  | yes p ↦ omega (arith, xor-sign_low 63 a p)
  | no p ↦ omega (
    arith,
    ap (λ (t : ℕ). bit_xor t (2 ^ 63)) (restored a (omega arith)),
    xor-sign_high 63 (a - 2 ^ 63) (omega arith),
  )
]

pub or-sign_64 : (a : ℕ) → a < 2 ^ 64 → bit_or a (2 ^ 63) ≡ a % 2 ^ 63 + 2 ^ 63
or-sign_64 a h = elim (dec_lt a (2 ^ 63)) [
  | yes p ↦ omega (arith, or-sign_low 63 a p)
  | no p ↦ omega (
    arith,
    ap (λ (t : ℕ). bit_or t (2 ^ 63)) (restored a (omega arith)),
    or-sign_high 63 (a - 2 ^ 63) (omega arith),
  )
]

pub and-sign_64 :
    (a : ℕ) → a < 2 ^ 63 → (bit_and a (2 ^ 63) ≡ 0) × (bit_and (a + 2 ^ 63) (2 ^ 63) ≡ 2 ^ 63)
and-sign_64 a h = (and-sign_low 63 a h, and-sign_high 63 a h)

pub and-ones_64 : (a : ℕ) → a < 2 ^ 63 → bit_and (a + 2 ^ 63) (2 ^ 63 - 1) ≡ a
and-ones_64 = and-ones_high 63
