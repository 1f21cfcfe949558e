-- ===== src/Placement/Rotated.antt =====
-- Successive nodes of the combined list, around its end.
use mathlib.Core.Path.{subst}
use native.Mathlib.Nat.{mod-eq_of_lt, add-mod_right, mod-lt, suc-mul, div-add-mod'}
use zan_redis_db.Prelude.{
  ℕ, zero, suc, ◌+◌, ◌-◌, ◌*◌, ◌/◌, ◌%◌, ◌≤◌, ◌≡◌, refl, sym, ap, ◌∙◌, arith, List, [], ◌∷◌, ◌++◌,
  length, get_or, append_assoc, length-append,
}
use zan_redis_db.Bytes.{Bytes}
use zan_redis_db.Placement.{replicas}
use zan_redis_db.Placement.Combined.{occurs, occurs-append}

pub length-replicas : (xs : List Bytes) (s c : ℕ) → length (replicas xs s c) ≡ c
unfolding replicas
length-replicas xs s zero = refl
length-replicas xs s (suc c) = ap suc (length-replicas xs (s + 1) c)

replicas-split :
    (xs : List Bytes) (s a b : ℕ) → replicas xs s (a + b) ≡ replicas xs s a ++ replicas xs (s + a) b
unfolding replicas
replicas-split xs s zero b =
    let none : 0 + b ≡ b = omega arith in
    let here : s ≡ s + 0 = omega arith in
    ap (λ (n : ℕ). replicas xs s n) none ∙ ap (λ (n : ℕ). replicas xs n b) here
replicas-split xs s (suc a) b =
    let more : suc a + b ≡ suc (a + b) = omega arith in
    let next : s + 1 + a ≡ s + suc a = omega arith in
    ap (λ (n : ℕ). replicas xs s n) more
    ∙ ap (λ l. get_or xs (s % length xs) [] ∷ l) (replicas-split xs (s + 1) a b)
    ∙ ap (λ (n : ℕ). get_or xs (s % length xs) [] ∷ (replicas xs (s + 1) a ++ replicas xs n b)) next

get_or-here : (ys zs : List Bytes) (z : Bytes) → get_or (ys ++ z ∷ zs) (length ys) [] ≡ z
get_or-here [] zs z = refl
get_or-here (y ∷ ys) zs z = get_or-here ys zs z

replicas-tail : (xs ys zs : List Bytes) → ys ++ zs ≡ xs → replicas xs (length ys) (length zs) ≡ zs
unfolding replicas
replicas-tail xs ys [] whole = refl
replicas-tail xs ys (z ∷ zs) whole =
    let size : length ys + suc (length zs) ≡ length xs =
      sym (length-append ys (z ∷ zs)) ∙ ap length whole in
    let inside : length ys % length xs ≡ length ys = mod-eq_of_lt (omega (arith, size)) in
    let next : replicas xs (length ys + 1) (length zs) ≡ zs =
      subst (λ (n : ℕ). replicas xs n (length zs) ≡ zs) (length-append ys (z ∷ []))
        (replicas-tail xs (ys ++ z ∷ []) zs (append_assoc ys (z ∷ []) zs ∙ whole)) in
    rw (inside, next)
      (ap (λ x. x ∷ zs) (subst (λ l. get_or l (length ys) [] ≡ z) whole (get_or-here ys zs z)))

-- As many nodes as there are have every node, wherever they begin.
around : (m : Bytes) (xs : List Bytes) (s : ℕ) → occurs m (replicas xs s (length xs)) ≡ occurs m xs
unfolding replicas occurs
around m xs zero = ap (occurs m) (replicas-tail xs [] xs refl)
around m xs (suc s) =
    let n : ℕ = length xs in
    let front : occurs m (replicas xs s (1 + n))
        ≡ occurs m (replicas xs s 1) + occurs m (replicas xs (s + 1) n) =
      ap (occurs m) (replicas-split xs s 1 n)
      ∙ occurs-append m (replicas xs s 1) (replicas xs (s + 1) n) in
    let back : occurs m (replicas xs s (n + 1))
        ≡ occurs m (replicas xs s n) + occurs m (replicas xs (s + n) 1) =
      ap (occurs m) (replicas-split xs s n 1)
      ∙ occurs-append m (replicas xs s n) (replicas xs (s + n) 1) in
    let same : replicas xs (s + n) 1 ≡ replicas xs s 1 =
      ap (λ (i : ℕ). get_or xs i [] ∷ []) (add-mod_right s n) in
    let turned : occurs m (replicas xs s (1 + n)) ≡ occurs m (replicas xs s (n + 1)) =
      let swap : 1 + n ≡ n + 1 = omega arith in ap (λ (i : ℕ). occurs m (replicas xs s i)) swap in
    let next : suc s ≡ s + 1 = omega arith in
    ap (λ (i : ℕ). occurs m (replicas xs i n)) next
    ∙ omega (arith, front, back, ap (occurs m) same, turned, around m xs s)

occurs-longer :
    (m : Bytes) (xs : List Bytes) (s a b : ℕ)
    → occurs m (replicas xs s (a + b))
      ≡ occurs m (replicas xs s a) + occurs m (replicas xs (s + a) b)
occurs-longer m xs s a b =
    ap (occurs m) (replicas-split xs s a b)
    ∙ occurs-append m (replicas xs s a) (replicas xs (s + a) b)

-- No more than there are: none more often than the list has it.
pub occurs-replicas :
    (m : Bytes) (xs : List Bytes) (s c : ℕ)
    → c ≤ length xs
    → occurs m (replicas xs s c) ≤ occurs m xs
occurs-replicas m xs s c few =
    let whole : c + (length xs - c) ≡ length xs = omega (arith, few) in
    let split = occurs-longer m xs s c (length xs - c) in
    let all = ap (λ (n : ℕ). occurs m (replicas xs s n)) whole ∙ around m xs s in
    omega (arith, split, all)

-- So many times around, each as many times.
pub occurs-rounds :
    (m : Bytes) (xs : List Bytes) (s k : ℕ)
    → occurs m (replicas xs s (k * length xs)) ≡ k * occurs m xs
unfolding occurs replicas
occurs-rounds m xs s zero =
    let none : 0 * length xs ≡ 0 = omega arith in
    ap (λ (i : ℕ). occurs m (replicas xs s i)) none ∙ omega arith
occurs-rounds m xs s (suc k) =
    let n : ℕ = length xs in
    let more : suc k * n ≡ n + k * n = suc-mul k n ∙ omega arith in
    let split = occurs-longer m xs s n (k * n) in
    ap (λ (i : ℕ). occurs m (replicas xs s i)) more
    ∙ omega (arith, split, around m xs s, occurs-rounds m xs (s + n) k, suc-mul k (occurs m xs))

-- Any number: each as many times as the list goes around, or once more.
pub occurs-even :
    (m : Bytes) (xs : List Bytes) (s c : ℕ)
    → 1 ≤ length xs
    → (c / length xs * occurs m xs ≤ occurs m (replicas xs s c))
      × (occurs m (replicas xs s c) ≤ c / length xs * occurs m xs + occurs m xs)
occurs-even m xs s c some =
    let n : ℕ = length xs in
    let k : ℕ = c / n in
    let whole : k * n + c % n ≡ c = div-add-mod' c n in
    let few : c % n ≤ n = omega (arith, mod-lt c {m = n} (omega (arith, some))) in
    let split = occurs-longer m xs s (k * n) (c % n) in
    let all = ap (λ (i : ℕ). occurs m (replicas xs s i)) whole in
    let even = occurs-rounds m xs s k in
    let rest = occurs-replicas m xs (s + k * n) (c % n) few in
    (omega (arith, split, all, even), omega (arith, split, all, even, rest))
