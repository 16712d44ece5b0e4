-- ===== src/Tests/Bisection.antt =====
-- The bisections of crates/assignments/src/reader.rs on small inputs.
use sqd_network.Base.{ℕ, ◌≤◌, ◌≡◌, refl, some, Ordering, compare, arith, ltb}
use sqd_network.Assignments.Search.{
  partition_point, lookup_index_by_key, binary_search_by, found, missing,
}
use sqd_network.Assignments.Search.Partition.{
  HoldsForPrefix, IsPartition, partition_point-IsPartition,
}
use sqd_network.Assignments.Search.Keyed.{IsAscending, Answers, lookup_index_by_key-Answers}
use sqd_network.Assignments.Search.Greatest.{Splits, binary_search_by-Splits}

below_three : HoldsForPrefix (λ i. ltb i 3)
below_three i j le h = ground arith

partition_point-IsPartition_example :
    IsPartition 5 (λ i. ltb i 3) (partition_point 5 (λ i. ltb i 3))
partition_point-IsPartition_example = partition_point-IsPartition 5 (λ i. ltb i 3) below_three

partition_point_runs : partition_point 5 (λ i. ltb i 3) ≡ 3
unfolding partition_point
partition_point_runs = refl

-- Entries 0, 2, 4, ... looked up for 6.
at_six : IsAscending (λ i. compare i 3)
at_six = record { lt_below = λ i j le h. below i j le h; gt_above = λ i j le h. above i j le h }
  where
    below : (i j : ℕ) → i ≤ j → compare j 3 ≡ Ordering.lt → compare i 3 ≡ Ordering.lt
    below i j le h = ground arith

    above : (i j : ℕ) → i ≤ j → compare i 3 ≡ Ordering.gt → compare j 3 ≡ Ordering.gt
    above i j le h = ground arith

lookup_index_by_key-Answers_example :
    Answers 5 (λ i. compare i 3) (lookup_index_by_key 5 (λ i. compare i 3))
lookup_index_by_key-Answers_example = lookup_index_by_key-Answers 5 (λ i. compare i 3) at_six

lookup_runs : lookup_index_by_key 5 (λ i. compare i 3) ≡ some 3
unfolding lookup_index_by_key
lookup_runs = refl

binary_search_by-Splits_example :
    Splits 5 (λ i. compare i 3) (binary_search_by 5 (λ i. compare i 3))
binary_search_by-Splits_example = binary_search_by-Splits 5 (λ i. compare i 3) at_six

binary_search_runs :
    (binary_search_by 5 (λ i. compare i 3) ≡ found 3)
    × (binary_search_by 2 (λ i. compare i 3) ≡ missing (some 1))
unfolding binary_search_by
binary_search_runs = (refl, refl)
