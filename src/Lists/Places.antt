-- ===== src/Lists/Places.antt =====
-- Where the values of a list stand after it has grown or shrunk.
use zan_redis_db.Prelude.{
  ℕ, zero, suc, ◌+◌, ◌-◌, ◌≤◌, ◌<◌, ◌≡◌, refl, sym, ◌∙◌, arith, Option, none, some, List, [], ◌∷◌,
  ◌++◌, length, ltb, ◌==◌, if◌then◌else◌, get_elem?, get_elem?-append_left, get_elem?-append_right,
  get_elem?_past, length-append,
}
use native.Mathlib.Decide.{dec_lt}
use zan_redis_db.Bytes.{Bytes}
use zan_redis_db.Lists.Model.{element}

pub element-nil : (head seq : ℕ) → element [] head seq ≡ none
unfolding element
element-nil head seq = ground arith

-- The places of a list, once its first value is gone.
pub element-rest :
    (x : Bytes) (xs : List Bytes) (head s : ℕ)
    → element xs (head + 1) s ≡ (if head == s then none else element (x ∷ xs) head s)
unfolding element
element-rest x xs head s = elim (dec_lt head s) [
  | no n ↦ ground arith
  | yes p ↦ let e : s - head ≡ suc (s - (head + 1)) = omega arith in rw e (ground arith)
]

get_elem?-single : (x : Bytes) (i : ℕ) → get_elem? (x ∷ []) i ≡ (if i == 0 then some x else none)
get_elem?-single x zero = refl
get_elem?-single x (suc i) = ground arith

-- And once its last value is gone.
pub element-front :
    (x : Bytes) (xs : List Bytes) (head s : ℕ)
    → element xs head s ≡ (if head + length xs == s then none else element (xs ++ x ∷ []) head s)
unfolding element
element-front x xs head s = elim (dec_lt s head) [
  | yes p ↦ ground arith
  | no n ↦ elim (dec_lt (s - head) (length xs)) [
    | yes p ↦
        let e : get_elem? (xs ++ x ∷ []) (s - head) ≡ get_elem? xs (s - head) =
          get_elem?-append_left xs (x ∷ []) (s - head) p in
        rw e (ground arith)
    | no m ↦
        let e : get_elem? (xs ++ x ∷ []) (s - head) ≡ get_elem? (x ∷ []) (s - head - length xs) =
          get_elem?-append_right xs (x ∷ []) (s - head) (omega arith) in
        let gone : get_elem? xs (s - head) ≡ none = get_elem?_past xs (s - head) (omega arith) in
        rw (e, gone, get_elem?-single x (s - head - length xs)) (ground arith)
  ]
]

abbrev pub or_else : Option Bytes → Option Bytes → Option Bytes
or_else (some v) o = some v
or_else none o = o

pub or_else-none : (o : Option Bytes) → or_else o none ≡ o
or_else-none none = refl
or_else-none (some v) = refl

-- The values in the opposite order.
unfoldable pub backwards : List Bytes → List Bytes
backwards [] = []
backwards (x ∷ xs) = backwards xs ++ (x ∷ [])

pub length-backwards : (xs : List Bytes) → length (backwards xs) ≡ length xs
unfolding backwards
length-backwards [] = refl
length-backwards (x ∷ xs) =
    omega (arith, length-append (backwards xs) (x ∷ []), length-backwards xs)

-- A place of two lists in a row is one of the second, or one of the first.
pub element-append :
    (xs ys : List Bytes) (head s : ℕ)
    → element (xs ++ ys) head s ≡ or_else (element ys (head + length xs) s) (element xs head s)
unfolding element
element-append xs ys head s = elim (dec_lt s head) [
  | yes p ↦ ground arith
  | no n ↦ elim (dec_lt (s - head) (length xs)) [
    | yes p ↦
        let e : get_elem? (xs ++ ys) (s - head) ≡ get_elem? xs (s - head) =
          get_elem?-append_left xs ys (s - head) p in
        rw e (ground arith)
    | no m ↦
        let e : get_elem? (xs ++ ys) (s - head) ≡ get_elem? ys (s - head - length xs) =
          get_elem?-append_right xs ys (s - head) (omega arith) in
        let there : s - (head + length xs) ≡ s - head - length xs = omega arith in
        let gone : get_elem? xs (s - head) ≡ none = get_elem?_past xs (s - head) (omega arith) in
        rw (e, there, gone)
          (second (get_elem? ys (s - head - length xs)) (omega arith) (omega arith))
  ]
]
  where
    second :
        (o : Option Bytes)
        → head + length xs ≤ s
        → head ≤ s
        → (if ltb s head then none else o)
          ≡ or_else
              (if ltb s (head + length xs) then none else o)
              (if ltb s head then none else none)
    second none p q = ground arith
    second (some v) p q = ground arith

-- And the first takes precedence as well, as no place is one of both.
pub element-append_first :
    (xs ys : List Bytes) (head s : ℕ)
    → element (xs ++ ys) head s ≡ or_else (element xs head s) (element ys (head + length xs) s)
unfolding element
element-append_first xs ys head s = elim (dec_lt s (head + length xs)) [
  | yes p ↦ element-append xs ys head s ∙ rw (before p) (sym (or_else-none (element xs head s)))
  | no n ↦
      element-append xs ys head s
      ∙ rw (past (omega arith)) (or_else-none (element ys (head + length xs) s))
]
  where
    before : s < head + length xs → element ys (head + length xs) s ≡ none
    before p = ground arith

    past : head + length xs ≤ s → element xs head s ≡ none
    past p = rw (get_elem?_past xs (s - head) (omega arith)) (ground arith)

-- The list with another value at a place.
unfoldable pub replace_at : List Bytes → ℕ → Bytes → List Bytes
replace_at [] i v = []
replace_at (x ∷ xs) zero v = v ∷ xs
replace_at (x ∷ xs) (suc i) v = x ∷ replace_at xs i v

pub length-replace_at :
    (xs : List Bytes) (i : ℕ) (v : Bytes) → length (replace_at xs i v) ≡ length xs
unfolding replace_at
length-replace_at [] i v = refl
length-replace_at (x ∷ xs) zero v = refl
length-replace_at (x ∷ xs) (suc i) v = omega (arith, length-replace_at xs i v)

get_elem?-replace_at :
    (xs : List Bytes) (i j : ℕ) (v : Bytes)
    → i < length xs
    → get_elem? (replace_at xs i v) j ≡ (if i == j then some v else get_elem? xs j)
unfolding replace_at
get_elem?-replace_at [] i j v h = absurd (omega arith)
get_elem?-replace_at (x ∷ xs) zero zero v h = ground arith
get_elem?-replace_at (x ∷ xs) zero (suc j) v h = ground arith
get_elem?-replace_at (x ∷ xs) (suc i) zero v h = ground arith
get_elem?-replace_at (x ∷ xs) (suc i) (suc j) v h =
    ground (arith, get_elem?-replace_at xs i j v (omega arith))

pub element-replace_at :
    (xs : List Bytes) (i : ℕ) (v : Bytes) (head s : ℕ)
    → i < length xs
    → element (replace_at xs i v) head s ≡ (if head + i == s then some v else element xs head s)
unfolding element
element-replace_at xs i v head s h = ground (arith, get_elem?-replace_at xs i (s - head) v h)
