-- ===== src/Placement/Examples.antt =====
-- The theorems at two data centers with three nodes.
use zan_redis_db.Prelude.{
  ℕ, ◌+◌, ◌/◌, ◌≤◌, ◌≡◌, refl, arith, some, List, [], ◌∷◌, map, length, get_or,
}
use zan_redis_db.Bytes.{Bytes, compare_bytes, eq_bytes}
use zan_redis_db.Placement.{
  sort_names, insert_name, less, total_count, set_names, combine, rounds, combine_names, replicas,
  partitions, get_rebalanced_partitions_from_name_list,
}
use zan_redis_db.Placement.Combined.{occurs, occurs_in, combine_names-takes_all}
use zan_redis_db.Placement.Laws.{leader, replicas_differ, leaders_even}

-- Node 5 and node 2 in one data center, node 7 in the other.
abbrev name_lists : List (List Bytes)
name_lists = ((5 ∷ []) ∷ (2 ∷ []) ∷ []) ∷ ((7 ∷ []) ∷ []) ∷ []

abbrev sum32 : Bytes → ℕ
sum32 ns = length ns + 1

abbrev ns : Bytes
ns = 9 ∷ []

-- Four partitions with two replicas, from index 2 of the nodes 2, 7, 5.
abbrev placed : List (List Bytes)
placed =
    ((5 ∷ []) ∷ (2 ∷ []) ∷ [])
    ∷ ((2 ∷ []) ∷ (7 ∷ []) ∷ [])
    ∷ ((7 ∷ []) ∷ (5 ∷ []) ∷ [])
    ∷ ((5 ∷ []) ∷ (2 ∷ []) ∷ [])
    ∷ []

run : get_rebalanced_partitions_from_name_list sum32 ns 4 2 name_lists ≡ some placed
unfolding get_rebalanced_partitions_from_name_list combine_names partitions replicas combine rounds
    set_names total_count sort_names insert_name less compare_bytes
run = refl

combine_names-takes_all_example :
    (length (combine_names name_lists) ≡ total_count name_lists)
    × ((m : Bytes) → occurs m (combine_names name_lists) ≡ occurs_in m name_lists)
combine_names-takes_all_example = combine_names-takes_all name_lists

replicas_differ_example :
    (length placed ≡ 4)
    × (length (get_or placed 1 []) ≡ 2)
    × (occurs (7 ∷ []) (get_or placed 1 []) ≤ occurs_in (7 ∷ []) name_lists)
replicas_differ_example =
    replicas_differ sum32 ns 4 2 name_lists placed 1 (7 ∷ []) run (omega arith)

listed_once : occurs_in (5 ∷ []) name_lists ≡ 1
unfolding occurs_in occurs eq_bytes
listed_once = refl

leaders_even_example :
    (4 / total_count name_lists ≤ occurs (5 ∷ []) (map leader placed))
    × (occurs (5 ∷ []) (map leader placed) ≤ 4 / total_count name_lists + 1)
leaders_even_example = leaders_even sum32 ns 4 1 name_lists placed (5 ∷ []) run listed_once
