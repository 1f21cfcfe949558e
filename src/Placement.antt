-- ===== src/Placement.antt =====
-- cluster/pdnode_coord/place_driver.go: how the partitions of a namespace are placed on nodes
-- (getRebalancedPartitionsFromNameList). Node names are grouped by data center. murmur3, which picks
-- the first node, is a parameter.
pub mod Combined
pub mod Rotated
pub mod Laws
mod Examples
use zan_redis_db.Prelude.{
  ℕ, zero, suc, ◌+◌, ◌%◌, Bool, true, false, not, Ordering, Option, none, some, List, [], ◌∷◌, ◌++◌,
  map, length, take, drop, get_or, ltb, ◌==◌, if◌then◌else◌,
}
use zan_redis_db.Bytes.{Bytes, compare_bytes}

-- sort.Sort of strings.
less : Bytes → Bytes → Bool
less a b = elim (compare_bytes a b) [ Ordering.lt ↦ true | _ ↦ false ]

insert_name : Bytes → List Bytes → List Bytes
unfolding less
insert_name x [] = x ∷ []
insert_name x (y ∷ ys) = let rest = insert_name x ys in if less y x then y ∷ rest else x ∷ y ∷ ys

unfoldable pub sort_names : List Bytes → List Bytes
unfolding insert_name
sort_names [] = []
sort_names (x ∷ xs) = insert_name x (sort_names xs)

unfoldable pub total_count : List (List Bytes) → ℕ
total_count [] = 0
total_count (l ∷ lists) = length l + total_count lists

unfoldable pub set_names : List (List Bytes) → ℕ → List Bytes → List (List Bytes)
set_names [] i l = []
set_names (x ∷ lists) zero l = l ∷ lists
set_names (x ∷ lists) (suc i) l = x ∷ set_names lists i l

-- The loop that takes the first name of each data center in turn, and passes over those that have
-- none left. The fuel is a round over the data centers for each name.
unfoldable pub combine : ℕ → List (List Bytes) → ℕ → List Bytes → ℕ → List Bytes
combine zero lists idx combined total = combined
combine (suc fuel) lists idx combined total =
    let i = idx % length lists in
    let n_list = get_or lists i [] in
    let empty = length n_list == 0 in
    let rest =
      combine fuel (if empty then lists else set_names lists i (drop 1 n_list)) (idx + 1)
        (if empty then combined else combined ++ take 1 n_list) total in
    if ltb (length combined) total then rest else combined

unfoldable pub rounds : ℕ → ℕ → ℕ
rounds n zero = 0
rounds n (suc r) = n + rounds n r

unfoldable pub combine_names : List (List Bytes) → List Bytes
unfolding combine rounds total_count
combine_names lists =
    combine (rounds (length lists) (total_count lists)) lists 0 [] (total_count lists)

-- The nodes of one partition: `replica` of them in a row, from the index on, around the end.
unfoldable pub replicas : List Bytes → ℕ → ℕ → List Bytes
replicas combined select zero = []
replicas combined select (suc replica) =
    get_or combined (select % length combined) [] ∷ replicas combined (select + 1) replica

-- The nodes of the partitions, each of which begins one node further.
unfoldable pub partitions : List Bytes → ℕ → ℕ → ℕ → List (List Bytes)
unfolding replicas
partitions combined select replica zero = []
partitions combined select replica (suc partition_num) =
    replicas combined select replica ∷ partitions combined (select + 1) replica partition_num

-- None is ErrNodeUnavailable.
unfoldable pub get_rebalanced_partitions_from_name_list :
    (Bytes → ℕ) → Bytes → ℕ → ℕ → List (List Bytes) → Option (List (List Bytes))
unfolding sort_names combine_names partitions total_count
get_rebalanced_partitions_from_name_list sum32 ns partition_num replica name_lists =
    let sorted = map sort_names name_lists in
    if ltb (total_count sorted) replica
    then none
    else some (partitions (combine_names sorted) (sum32 ns) replica partition_num)
