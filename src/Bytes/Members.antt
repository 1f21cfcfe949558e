-- ===== src/Bytes/Members.antt =====
-- Finite sets of byte strings, as lists without a string twice.
use zan_redis_db.Prelude.{
  ℕ, suc, ◌+◌, ◌≡◌, refl, sym, ap, ◌∙◌, arith, Bool, true, false, not, ◌&&◌, ◌||◌, List, [], ◌∷◌,
  ◌++◌, length, if◌then◌else◌, inl, inr, Bool-cases,
}
use zan_redis_db.Bytes.{Bytes, eq_bytes, eq_bytes_refl, eq_bytes_sound, contains}

unfoldable pub select : (Bytes → Bool) → List Bytes → List Bytes
select p [] = []
select p (x ∷ xs) = let rest = select p xs in if p x then x ∷ rest else rest

unfoldable pub distinct : List Bytes → Bool
distinct [] = true
distinct (x ∷ xs) = not (contains xs x) && distinct xs

pub contains-append :
    (xs ys : List Bytes) (m : Bytes) → contains (xs ++ ys) m ≡ (contains xs m || contains ys m)
unfolding contains
contains-append [] ys m = refl
contains-append (x ∷ xs) ys m = ground (arith, contains-append xs ys m)

-- What holds of one string that is asked for.
eq_bytes-same : (p : Bytes → Bool) (x m : Bytes) → (eq_bytes x m && p m) ≡ (eq_bytes x m && p x)
eq_bytes-same p x m = elim (Bool-cases (eq_bytes x m)) [
  | inl h ↦ ap (λ (b : Bytes). eq_bytes x m && p b) (sym (eq_bytes_sound x m h))
  | inr h ↦ rw h refl
]

pub contains-select :
    (p : Bytes → Bool) (xs : List Bytes) (m : Bytes)
    → contains (select p xs) m ≡ (contains xs m && p m)
unfolding contains select
contains-select p [] m = refl
contains-select p (x ∷ xs) m = elim (Bool-cases (p x)) [
  | inl h ↦ rw h (ground (arith, contains-select p xs m, eq_bytes-same p x m, h))
  | inr h ↦ rw h (ground (arith, contains-select p xs m, eq_bytes-same p x m, h))
]

pub distinct-select :
    (p : Bytes → Bool) (xs : List Bytes) → distinct xs ≡ true → distinct (select p xs) ≡ true
unfolding distinct select
distinct-select p [] h = refl
distinct-select p (x ∷ xs) h = elim (Bool-cases (p x)) [
  | inl e ↦ rw e (ground (arith, contains-select p xs x, distinct-select p xs, h))
  | inr e ↦ rw e (ground (arith, distinct-select p xs, h))
]

pub distinct-append :
    (xs ys : List Bytes)
    → distinct xs ≡ true
    → distinct ys ≡ true
    → ((m : Bytes) → contains xs m ≡ true → contains ys m ≡ false)
    → distinct (xs ++ ys) ≡ true
unfolding distinct contains
distinct-append [] ys h k apart = k
distinct-append (x ∷ xs) ys h k apart =
    let rest : distinct (xs ++ ys) ≡ true =
      distinct-append xs ys (ground arith) k (λ m there. apart m (ground (arith, there))) in
    let new : contains ys x ≡ false = apart x (ground (arith, eq_bytes_refl x)) in
    ground (arith, rest, new, contains-append xs ys x, h)

-- How many strings of a list there are of a kind.
abbrev pub count : (Bytes → Bool) → List Bytes → ℕ
count p xs = length (select p xs)

pub count-not :
    (p : Bytes → Bool) (xs : List Bytes) → count (λ m. not (p m)) xs + count p xs ≡ length xs
unfolding select
count-not p [] = refl
count-not p (x ∷ xs) = ground (arith, count-not p xs)

count-or :
    (p q : Bytes → Bool) (xs : List Bytes)
    → ((m : Bytes) → p m ≡ true → q m ≡ false)
    → count (λ m. p m || q m) xs ≡ count p xs + count q xs
unfolding select
count-or p q [] apart = refl
count-or p q (x ∷ xs) apart = elim (Bool-cases (p x)) [
  | inl h ↦ rw (h, apart x h) (ground (arith, count-or p q xs apart))
  | inr h ↦ rw h (ground (arith, count-or p q xs apart))
]

count_none : (a : Bytes) (xs : List Bytes) → contains xs a ≡ false → count (eq_bytes a) xs ≡ 0
unfolding select contains
count_none a [] h = refl
count_none a (x ∷ xs) h = elim (Bool-cases (eq_bytes a x)) [
  | inl e ↦
      let same : a ≡ x = eq_bytes_sound a x e in
      ground (arith, h, e, ap (eq_bytes x) same, eq_bytes_refl x)
  | inr e ↦ rw e (count_none a xs (ground (arith, h)))
]

count_one :
    (a : Bytes) (xs : List Bytes)
    → distinct xs ≡ true
    → count (eq_bytes a) xs ≡ (if contains xs a then 1 else 0)
unfolding select contains distinct
count_one a [] h = refl
count_one a (x ∷ xs) h = elim (Bool-cases (eq_bytes a x)) [
  | inl e ↦
      let same : a ≡ x = eq_bytes_sound a x e in
      let back : eq_bytes x a ≡ true = ap (eq_bytes x) same ∙ eq_bytes_refl x in
      let absent : contains xs a ≡ false = ap (contains xs) same ∙ ground (arith, h) in
      rw (e, back) (ap suc (count_none a xs absent))
  | inr e ↦
      let back : eq_bytes x a ≡ false = elim (Bool-cases (eq_bytes x a)) [
        | inl b ↦
            let same : x ≡ a = eq_bytes_sound x a b in
            ground (arith, e, ap (λ (y : Bytes). eq_bytes a y) same, eq_bytes_refl a)
        | inr b ↦ b
      ] in
      rw (e, back) (count_one a xs (ground (arith, h)))
]

count_never : (ys : List Bytes) → count (contains []) ys ≡ 0
unfolding select contains
count_never [] = refl
count_never (y ∷ ys) = count_never ys

-- Of two sets, as many strings of the one are in the other as the other way around.
pub count_both :
    (xs ys : List Bytes)
    → distinct xs ≡ true
    → distinct ys ≡ true
    → count (contains xs) ys ≡ count (contains ys) xs
unfolding distinct contains select
count_both [] ys h k = count_never ys
count_both (x ∷ xs) ys h k =
    count-or (eq_bytes x) (contains xs) ys
      (λ m there. ap (contains xs) (sym (eq_bytes_sound x m there)) ∙ ground (arith, h))
    ∙ ap (λ (n : ℕ). n + count (contains xs) ys) (count_one x ys k)
    ∙ ground (arith, count_both xs ys (ground (arith, h)) k)
