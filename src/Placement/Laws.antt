-- ===== src/Placement/Laws.antt =====
-- What getRebalancedPartitionsFromNameList gives: nodes for each partition, and an even share for
-- each node.
use mathlib.Core.Option.{some-injective}
use zan_redis_db.Prelude.{
  ℕ, zero, suc, ◌+◌, ◌*◌, ◌/◌, ◌%◌, ◌≤◌, ◌<◌, ◌≡◌, refl, sym, ap, ◌∙◌, arith, none, some, List, [],
  ◌∷◌, map, length, get_or, ltb, Bool-cases, inl, inr, ltb→lt, lt→ltb, le→ltb,
}
use zan_redis_db.Bytes.{Bytes}
use zan_redis_db.Placement.{
  sort_names, total_count, combine_names, replicas, partitions,
  get_rebalanced_partitions_from_name_list,
}
use zan_redis_db.Placement.Combined.{
  occurs, occurs_in, sorted-occurs, sorted-total, combine_names-takes_all,
}
use zan_redis_db.Placement.Rotated.{length-replicas, occurs-replicas, occurs-even}

-- The node that leads a partition is the first.
unfoldable pub leader : List Bytes → Bytes
leader n_list = get_or n_list 0 []

length-partitions : (xs : List Bytes) (s replica n : ℕ) → length (partitions xs s replica n) ≡ n
unfolding partitions
length-partitions xs s replica zero = refl
length-partitions xs s replica (suc n) = ap suc (length-partitions xs (s + 1) replica n)

get_or-partitions :
    (xs : List Bytes) (s replica n i : ℕ)
    → i < n
    → get_or (partitions xs s replica n) i [] ≡ replicas xs (s + i) replica
unfolding partitions
get_or-partitions xs s replica zero i inside = absurd (omega (arith, inside))
get_or-partitions xs s replica (suc n) zero inside =
    let here : s ≡ s + 0 = omega arith in ap (λ (j : ℕ). replicas xs j replica) here
get_or-partitions xs s replica (suc n) (suc i) inside =
    let next : s + 1 + i ≡ s + suc i = omega arith in
    get_or-partitions xs (s + 1) replica n i (omega (arith, inside))
    ∙ ap (λ (j : ℕ). replicas xs j replica) next

leaders-partitions :
    (xs : List Bytes) (s replica n : ℕ)
    → map leader (partitions xs s (suc replica) n) ≡ replicas xs s n
unfolding partitions replicas leader
leaders-partitions xs s replica zero = refl
leaders-partitions xs s replica (suc n) =
    ap (λ l. get_or xs (s % length xs) [] ∷ l) (leaders-partitions xs (s + 1) replica n)

-- The nodes, one data center after the other.
abbrev nodes : List (List Bytes) → List Bytes
nodes name_lists = combine_names (map sort_names name_lists)

nodes-length : (name_lists : List (List Bytes)) → length (nodes name_lists) ≡ total_count name_lists
nodes-length name_lists =
    let (full, _) = combine_names-takes_all (map sort_names name_lists) in
    full ∙ sorted-total name_lists

nodes-occurs :
    (name_lists : List (List Bytes)) (m : Bytes)
    → occurs m (nodes name_lists) ≡ occurs_in m name_lists
nodes-occurs name_lists m =
    let (_, all) = combine_names-takes_all (map sort_names name_lists) in
    all m ∙ sorted-occurs m name_lists

module _ (sum32 : Bytes → ℕ) (ns : Bytes) (partition_num replica : ℕ)
    (name_lists : List (List Bytes)) where
  -- Where the nodes are enough.
  placed_enough :
      replica ≤ total_count name_lists
      → get_rebalanced_partitions_from_name_list sum32 ns partition_num replica name_lists
        ≡ some (partitions (nodes name_lists) (sum32 ns) replica partition_num)
  unfolding get_rebalanced_partitions_from_name_list
  placed_enough enough =
      rw
        (le→ltb (total_count (map sort_names name_lists)) replica
          (omega (arith, enough, sorted-total name_lists)))
        refl

  placed_few :
      total_count name_lists < replica
      → get_rebalanced_partitions_from_name_list sum32 ns partition_num replica name_lists ≡ none
  unfolding get_rebalanced_partitions_from_name_list
  placed_few few =
      rw
        (lt→ltb (total_count (map sort_names name_lists)) replica
          (omega (arith, few, sorted-total name_lists)))
        refl

  placed_as :
      (placed : List (List Bytes))
      → get_rebalanced_partitions_from_name_list sum32 ns partition_num replica name_lists
        ≡ some placed
      → (replica ≤ total_count name_lists)
        × (placed ≡ partitions (nodes name_lists) (sum32 ns) replica partition_num)
  placed_as placed done = elim (Bool-cases (ltb (total_count name_lists) replica)) [
    | inl few ↦ let none_now = placed_few (ltb→lt (total_count name_lists) replica few) in absurd cc
    | inr enough ↦
        let all : replica ≤ total_count name_lists = ground (arith, enough) in
        (all, some-injective placed _ (sym done ∙ placed_enough all))
  ]

  -- Where a placement is made, it has every partition, each partition has `replica` nodes, and a
  -- partition has no node more often than the data centers list it: where the names differ, its
  -- nodes do.
  pub replicas_differ :
      (placed : List (List Bytes)) (i : ℕ) (m : Bytes)
      → get_rebalanced_partitions_from_name_list sum32 ns partition_num replica name_lists
        ≡ some placed
      → i < partition_num
      → (length placed ≡ partition_num)
        × (length (get_or placed i []) ≡ replica)
        × (occurs m (get_or placed i []) ≤ occurs_in m name_lists)
  replicas_differ placed i m done inside =
      let (enough, same) = placed_as placed done in
      let at_i : get_or placed i [] ≡ replicas (nodes name_lists) (sum32 ns + i) replica =
        ap (λ l. get_or l i []) same
        ∙ get_or-partitions (nodes name_lists) (sum32 ns) replica partition_num i inside in
      let few =
        occurs-replicas m (nodes name_lists) (sum32 ns + i) replica
          (omega (arith, enough, nodes-length name_lists)) in
      (
        ap length same ∙ length-partitions (nodes name_lists) (sum32 ns) replica partition_num,
        ap length at_i ∙ length-replicas (nodes name_lists) (sum32 ns + i) replica,
        omega (arith, ap (occurs m) at_i, few, nodes-occurs name_lists m),
      )

-- Where a placement with at least one replica is made, the leaders are spread evenly: a node that
-- the data centers list once leads as many partitions as the number of partitions divided by the
-- number of nodes, rounded down, or one more.
pub leaders_even :
    (sum32 : Bytes → ℕ) (ns : Bytes) (partition_num replica : ℕ)
    (name_lists placed : List (List Bytes)) (m : Bytes)
    → get_rebalanced_partitions_from_name_list sum32 ns partition_num (suc replica) name_lists
      ≡ some placed
    → occurs_in m name_lists ≡ 1
    → (partition_num / total_count name_lists ≤ occurs m (map leader placed))
      × (occurs m (map leader placed) ≤ partition_num / total_count name_lists + 1)
leaders_even sum32 ns partition_num replica name_lists placed m done once =
    let (enough, same) = placed_as sum32 ns partition_num (suc replica) name_lists placed done in
    let all_nodes : List Bytes = nodes name_lists in
    let size : length all_nodes ≡ total_count name_lists = nodes-length name_lists in
    let has_one : occurs m all_nodes ≡ 1 = nodes-occurs name_lists m ∙ once in
    let all =
      ap (map leader) same ∙ leaders-partitions all_nodes (sum32 ns) replica partition_num in
    let (lower, upper) =
      occurs-even m all_nodes (sum32 ns) partition_num (omega (arith, enough, size)) in
    let share : partition_num / length all_nodes ≡ partition_num / total_count name_lists =
      ap (λ (t : ℕ). partition_num / t) size in
    let unit : partition_num / length all_nodes * occurs m all_nodes
        ≡ partition_num / length all_nodes =
      ap (λ (o : ℕ). partition_num / length all_nodes * o) has_one ∙ omega arith in
    let led = ap (occurs m) all in
    (omega (arith, lower, led, unit, share), omega (arith, upper, led, unit, share, has_one))
