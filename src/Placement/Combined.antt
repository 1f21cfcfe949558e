-- ===== src/Placement/Combined.antt =====
-- The loop over the data centers ends, and takes every name once.
use mathlib.Core.Path.{subst}
use native.Mathlib.Nat.{mod-lt, mod-eq_of_lt, mod-add-mod, add-mod_right}
use zan_redis_db.Prelude.{
  ℕ, zero, suc, ◌+◌, ◌-◌, ◌%◌, ◌≤◌, ◌<◌, ◌≡◌, refl, sym, ap, ◌∙◌, arith, true, List, [], ◌∷◌, ◌++◌,
  map, length, take, drop, get_or, ltb, ◌==◌, if◌then◌else◌, inl, inr, Bool-cases, length-append,
  ltb→lt, lt→ltb, le→ltb,
}
use zan_redis_db.Bytes.{Bytes, eq_bytes}
use zan_redis_db.Placement.{
  sort_names, insert_name, less, total_count, set_names, combine, rounds, combine_names,
}

-- How often a name is in a list, and in some lists.
unfoldable pub occurs : Bytes → List Bytes → ℕ
occurs m [] = 0
occurs m (x ∷ xs) = (if eq_bytes m x then 1 else 0) + occurs m xs

unfoldable pub occurs_in : Bytes → List (List Bytes) → ℕ
unfolding occurs
occurs_in m [] = 0
occurs_in m (l ∷ lists) = occurs m l + occurs_in m lists

pub occurs-append :
    (m : Bytes) (xs ys : List Bytes) → occurs m (xs ++ ys) ≡ occurs m xs + occurs m ys
unfolding occurs
occurs-append m [] ys = omega arith
occurs-append m (x ∷ xs) ys = omega (arith, occurs-append m xs ys)

insert_name-occurs :
    (m x : Bytes) (ys : List Bytes) → occurs m (insert_name x ys) ≡ occurs m (x ∷ ys)
unfolding occurs insert_name
insert_name-occurs m x [] = refl
insert_name-occurs m x (y ∷ ys) = elim (Bool-cases (less y x)) [
  | inl h ↦ rw h (omega (arith, insert_name-occurs m x ys))
  | inr h ↦ rw h refl
]

insert_name-length : (x : Bytes) (ys : List Bytes) → length (insert_name x ys) ≡ suc (length ys)
unfolding insert_name
insert_name-length x [] = refl
insert_name-length x (y ∷ ys) = elim (Bool-cases (less y x)) [
  | inl h ↦ rw h (ap suc (insert_name-length x ys))
  | inr h ↦ rw h refl
]

pub sort_names-occurs : (m : Bytes) (xs : List Bytes) → occurs m (sort_names xs) ≡ occurs m xs
unfolding sort_names occurs
sort_names-occurs m [] = refl
sort_names-occurs m (x ∷ xs) =
    insert_name-occurs m x (sort_names xs)
    ∙ ap (λ (n : ℕ). (if eq_bytes m x then 1 else 0) + n) (sort_names-occurs m xs)

pub sort_names-length : (xs : List Bytes) → length (sort_names xs) ≡ length xs
unfolding sort_names
sort_names-length [] = refl
sort_names-length (x ∷ xs) = insert_name-length x (sort_names xs) ∙ ap suc (sort_names-length xs)

pub sorted-occurs :
    (m : Bytes) (lists : List (List Bytes)) → occurs_in m (map sort_names lists) ≡ occurs_in m lists
unfolding occurs_in
sorted-occurs m [] = refl
sorted-occurs m (l ∷ lists) = omega (arith, sort_names-occurs m l, sorted-occurs m lists)

pub sorted-total :
    (lists : List (List Bytes)) → total_count (map sort_names lists) ≡ total_count lists
unfolding total_count
sorted-total [] = refl
sorted-total (l ∷ lists) = omega (arith, sort_names-length l, sorted-total lists)

-- One list of some is replaced.
length-set_names :
    (lists : List (List Bytes)) (i : ℕ) (l : List Bytes)
    → length (set_names lists i l) ≡ length lists
unfolding set_names
length-set_names [] i l = refl
length-set_names (x ∷ lists) zero l = refl
length-set_names (x ∷ lists) (suc i) l = ap suc (length-set_names lists i l)

total-set_names :
    (lists : List (List Bytes)) (i : ℕ) (l : List Bytes)
    → i < length lists
    → total_count (set_names lists i l) + length (get_or lists i []) ≡ total_count lists + length l
unfolding set_names total_count
total-set_names [] i l h = absurd (omega arith)
total-set_names (x ∷ lists) zero l h = omega arith
total-set_names (x ∷ lists) (suc i) l h = omega (arith, total-set_names lists i l (omega arith))

occurs-set_names :
    (m : Bytes) (lists : List (List Bytes)) (i : ℕ) (l : List Bytes)
    → i < length lists
    → occurs_in m (set_names lists i l) + occurs m (get_or lists i [])
      ≡ occurs_in m lists + occurs m l
unfolding set_names occurs_in
occurs-set_names m [] i l h = absurd (omega arith)
occurs-set_names m (x ∷ lists) zero l h = omega arith
occurs-set_names m (x ∷ lists) (suc i) l h =
    omega (arith, occurs-set_names m lists i l (omega arith))

none_left : (m : Bytes) (lists : List (List Bytes)) → total_count lists ≡ 0 → occurs_in m lists ≡ 0
unfolding total_count occurs_in
none_left m [] h = refl
none_left m ([] ∷ lists) h = omega (arith, none_left m lists (omega (arith, h)))
none_left m ((x ∷ xs) ∷ lists) h = absurd (omega (arith, h))

-- Where names are left, a list that is not empty comes within a round.
some_left :
    (lists : List (List Bytes))
    → 1 ≤ total_count lists
    → (p : ℕ) × (p < length lists) × (1 ≤ length (get_or lists p []))
unfolding total_count
some_left [] h = absurd (omega (arith, h))
some_left ([] ∷ lists) h =
    let (p, below, there) = some_left lists (omega (arith, h)) in (suc p, omega arith, there)
some_left ((x ∷ xs) ∷ lists) h = (0, omega arith, omega arith)

reached : (n idx p : ℕ) → p < n → (k : ℕ) × (k < n) × ((idx + k) % n ≡ p)
reached n idx p below =
    let r : ℕ = idx % n in
    let small : r < n = mod-lt idx (omega (arith, below)) in
    elim (Bool-cases (ltb p r)) [
      | inl h ↦
          let back : r + (p + n - r) ≡ p + n = omega (arith, small) in
          (
            p + n - r,
            omega (arith, ltb→lt p r h),
            sym (mod-add-mod idx n (p + n - r))
                ∙ ap (λ (a : ℕ). a % n) back
                ∙ add-mod_right p n
                ∙ mod-eq_of_lt below,
          )
      | inr h ↦
          let front : r + (p - r) ≡ p = ground (arith, h) in
          (
            p - r,
            omega (arith, below),
            sym (mod-add-mod idx n (p - r)) ∙ ap (λ (a : ℕ). a % n) front ∙ mod-eq_of_lt below,
          )
    ]

combine_full :
    (fuel : ℕ) (lists : List (List Bytes)) (idx : ℕ) (combined : List Bytes)
    → combine fuel lists idx combined (length combined) ≡ combined
unfolding combine
combine_full zero lists idx combined = refl
combine_full (suc fuel) lists idx combined =
    rw (le→ltb (length combined) (length combined) (omega arith)) refl

-- A list that is not empty, without its first name.
first-occurs : (m : Bytes) (l : List Bytes) → occurs m (take 1 l) + occurs m (drop 1 l) ≡ occurs m l
unfolding occurs
first-occurs m [] = omega arith
first-occurs m (x ∷ xs) = omega arith

length-first :
    (l : List Bytes) → 1 ≤ length l → (length (take 1 l) ≡ 1) × (suc (length (drop 1 l)) ≡ length l)
length-first [] h = absurd (omega (arith, h))
length-first (x ∷ xs) h = (omega arith, refl)

abbrev Taken : ℕ → List (List Bytes) → ℕ → List Bytes → ℕ → Type 0
Taken fuel lists idx combined total =
    (length (combine fuel lists idx combined total) ≡ total)
    × ((m : Bytes)
        → occurs m (combine fuel lists idx combined total) ≡ occurs m combined + occurs_in m lists)

-- What the loop gives when it takes a name.
taken_once :
    (m : Bytes) (lists : List (List Bytes)) (i : ℕ) (combined : List Bytes)
    → i < length lists
    → 1 ≤ length (get_or lists i [])
    → (length (combined ++ take 1 (get_or lists i [])) ≡ suc (length combined))
      × (suc (total_count (set_names lists i (drop 1 (get_or lists i [])))) ≡ total_count lists)
      × (occurs m (combined ++ take 1 (get_or lists i []))
            + occurs_in m (set_names lists i (drop 1 (get_or lists i [])))
          ≡ occurs m combined + occurs_in m lists)
taken_once m lists i combined inside some =
    let l : List Bytes = get_or lists i [] in
    let (one, fewer) = length-first l some in
    (
      omega (arith, length-append combined (take 1 l), one),
      omega (arith, total-set_names lists i (drop 1 l) inside, fewer),
      omega (
        arith,
        occurs-append m combined (take 1 l),
        occurs-set_names m lists i (drop 1 l) inside,
        first-occurs m l,
      ),
    )

rounds-left : (n r : ℕ) → 1 ≤ r → rounds n r ≡ n + rounds n (r - 1)
unfolding rounds
rounds-left n zero left = absurd (omega (arith, left))
rounds-left n (suc r) left =
    let less : r ≡ suc r - 1 = omega arith in ap (λ (a : ℕ). n + rounds n a) less

-- From any index, within the fuel, the loop takes every name; the next one is k steps on.
abbrev Ends : ℕ → Type 0
Ends fuel =
    (lists : List (List Bytes)) (idx : ℕ) (combined : List Bytes) (total k : ℕ)
    → length combined + total_count lists ≡ total
    → k < length lists
    → 1 ≤ length (get_or lists ((idx + k) % length lists) [])
    → suc k + rounds (length lists) (total_count lists - 1) ≤ fuel
    → 1 ≤ total_count lists
    → Taken fuel lists idx combined total

skip :
    (fuel : ℕ)
    → Ends fuel
    → (lists : List (List Bytes)) (idx : ℕ) (combined : List Bytes) (total k : ℕ)
    → length combined + total_count lists ≡ total
    → k < length lists
    → 1 ≤ length (get_or lists ((idx + k) % length lists) [])
    → suc k + rounds (length lists) (total_count lists - 1) ≤ suc fuel
    → 1 ≤ total_count lists
    → length (get_or lists (idx % length lists) []) ≡ 0
    → Taken fuel lists (idx + 1) combined total
skip fuel ends lists idx combined total zero sum below there enough left e =
    let same : idx + 0 ≡ idx = omega arith in
    let now = subst (λ (j : ℕ). 1 ≤ length (get_or lists (j % length lists) [])) same there in
    absurd (omega (arith, e, now))
skip fuel ends lists idx combined total (suc k) sum below there enough left e =
    let next : idx + suc k ≡ idx + 1 + k = omega arith in
    ends lists (idx + 1) combined total k sum (omega (arith, below))
      (subst (λ (j : ℕ). 1 ≤ length (get_or lists (j % length lists) [])) next there)
      (omega (arith, enough)) left

-- The loop after it took a name of the lists: what is left is taken as well.
take_rest :
    (fuel : ℕ)
    → Ends fuel
    → (lists : List (List Bytes)) (idx : ℕ) (combined : List Bytes) (total : ℕ)
    → length combined + total_count lists ≡ total
    → rounds (length lists) (total_count lists) ≤ fuel
    → Taken fuel lists idx combined total
unfolding rounds
take_rest fuel ends lists idx combined total sum enough =
    elim (Bool-cases (total_count lists == 0)) [
      | inl e ↦
          let none : total_count lists ≡ 0 = ground (arith, e) in
          let full : length combined ≡ total = omega (arith, sum, none) in
          let still : combine fuel lists idx combined total ≡ combined =
            subst (λ (t : ℕ). combine fuel lists idx combined t ≡ combined) full
              (combine_full fuel lists idx combined) in
          (
            ap length still ∙ full,
            λ (m : Bytes). ap (occurs m) still ∙ omega (arith, none_left m lists none),
          )
      | inr e ↦
          let left : 1 ≤ total_count lists = ground (arith, e) in
          let (p, inside, some) = some_left lists left in
          let (k, below, at_p) = reached (length lists) idx p inside in
          ends lists idx combined total k sum below
            (subst (λ (j : ℕ). 1 ≤ length (get_or lists j [])) (sym at_p) some)
            (omega (arith, below, enough, rounds-left (length lists) (total_count lists) left)) left
    ]

take_one :
    (fuel : ℕ)
    → Ends fuel
    → (lists : List (List Bytes)) (i idx : ℕ) (combined : List Bytes) (total : ℕ)
    → length combined + total_count lists ≡ total
    → i < length lists
    → 1 ≤ length (get_or lists i [])
    → rounds (length lists) (total_count lists - 1) ≤ fuel
    → (length (
          combine fuel
            (set_names lists i (drop 1 (get_or lists i [])))
            idx
            (combined ++ take 1 (get_or lists i []))
            total)
        ≡ total)
      × ((m : Bytes)
          → occurs m (
              combine fuel
                (set_names lists i (drop 1 (get_or lists i [])))
                idx
                (combined ++ take 1 (get_or lists i []))
                total)
            ≡ occurs m combined + occurs_in m lists)
take_one fuel ends lists i idx combined total sum inside some enough =
    let lists' = set_names lists i (drop 1 (get_or lists i [])) in
    let combined' = combined ++ take 1 (get_or lists i []) in
    let (longer, fewer, _) = taken_once [] lists i combined inside some in
    let one_less : total_count lists - 1 ≡ total_count lists' = omega (arith, fewer) in
    let fuel' : rounds (length lists') (total_count lists') ≤ fuel =
      rw (length-set_names lists i (drop 1 (get_or lists i [])))
        (subst (λ (t : ℕ). rounds (length lists) t ≤ fuel) one_less enough) in
    let (full, all) =
      take_rest fuel ends lists' idx combined' total (omega (arith, longer, fewer, sum)) fuel' in
    (
      full,
      λ (m : Bytes). let (_, _, same) = taken_once m lists i combined inside some in all m ∙ same,
    )

combine_takes : (fuel : ℕ) → Ends fuel
unfolding combine
combine_takes zero lists idx combined total k sum below there enough left =
    absurd (omega (arith, enough))
combine_takes (suc fuel) lists idx combined total k sum below there enough left =
    let go_on : ltb (length combined) total ≡ true =
      lt→ltb (length combined) total (omega (arith, sum, left)) in
    elim (Bool-cases (length (get_or lists (idx % length lists) []) == 0)) [
      | inl e ↦
          rw (go_on, e)
            (skip fuel (combine_takes fuel) lists idx combined total k sum below there enough left
              (ground (arith, e)))
      | inr e ↦
          rw (go_on, e)
            (take_one fuel (combine_takes fuel) lists (idx % length lists) (idx + 1) combined total
              sum (mod-lt idx (omega (arith, below))) (ground (arith, e)) (omega (arith, enough)))
    ]

-- The rounds over the data centers are enough: the loop ends, having taken as many names as there
-- are in all lists, each as often as the lists have it.
pub combine_names-takes_all :
    (lists : List (List Bytes))
    → (length (combine_names lists) ≡ total_count lists)
      × ((m : Bytes) → occurs m (combine_names lists) ≡ occurs_in m lists)
unfolding combine_names occurs
combine_names-takes_all lists =
    let fuel : ℕ = rounds (length lists) (total_count lists) in
    let (full, all) =
      take_rest fuel (combine_takes fuel) lists 0 [] (total_count lists) (omega arith)
        (omega arith) in
    (full, λ (m : Bytes). all m ∙ omega arith)
