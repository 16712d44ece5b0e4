-- ===== src/Assignments/Search.antt =====
-- The bisections of crates/assignments/src/reader.rs. Each runs over anything subscriptable, so
-- what it reads is a function of the index. A loop takes the width of its interval as fuel.
pub mod Partition
pub mod Keyed
pub mod Greatest
use sqd_network.Base.{
  ℕ, zero, suc, ◌+◌, ◌-◌, ◌/◌, Bool, true, false, Option, none, some, Ordering, ltb, leb, ◌==◌,
  if◌then◌else◌,
}

-- The `while low < high` of `partition_point`.
pub partition_loop : ℕ → (ℕ → Bool) → ℕ → ℕ → ℕ
partition_loop zero pred low high = low
partition_loop (suc fuel) pred low high =
    let mid = low + (high - low) / 2 in
    let right = partition_loop fuel pred (mid + 1) high in
    let left = partition_loop fuel pred low mid in
    if ltb low high then if pred mid then right else left else low

unfoldable pub partition_point : ℕ → (ℕ → Bool) → ℕ
unfolding partition_loop
partition_point len pred = partition_loop len pred 0 len

-- The `while left <= right` of `lookup_index_by_key`; `right` is inclusive.
pub lookup_loop : ℕ → (ℕ → Ordering) → ℕ → ℕ → Option ℕ
lookup_loop zero f left right = none
lookup_loop (suc fuel) f left right =
    let mid = (left + right) / 2 in
    let above = lookup_loop fuel f (mid + 1) right in
    let below = lookup_loop fuel f left (mid - 1) in
    if leb left right
    then elim (f mid) [
      | Ordering.eq ↦ some mid
      | Ordering.lt ↦ above
      | Ordering.gt ↦ if mid == 0 then none else below
    ]
    else none

unfoldable pub lookup_index_by_key : ℕ → (ℕ → Ordering) → Option ℕ
unfolding lookup_loop
lookup_index_by_key len f = if len == 0 then none else lookup_loop len f 0 (len - 1)

-- The same search where a comparison may panic, which is `none`.
pub try_lookup_loop : ℕ → (ℕ → Option Ordering) → ℕ → ℕ → Option (Option ℕ)
try_lookup_loop zero f left right = some none
try_lookup_loop (suc fuel) f left right =
    let mid = (left + right) / 2 in
    let above = try_lookup_loop fuel f (mid + 1) right in
    let below = try_lookup_loop fuel f left (mid - 1) in
    if leb left right
    then elim (f mid) [
      | none ↦ none
      | some Ordering.eq ↦ some (some mid)
      | some Ordering.lt ↦ above
      | some Ordering.gt ↦ if mid == 0 then some none else below
    ]
    else some none

unfoldable pub try_lookup_index_by_key : ℕ → (ℕ → Option Ordering) → Option (Option ℕ)
unfolding try_lookup_loop
try_lookup_index_by_key len f = if len == 0 then some none else try_lookup_loop len f 0 (len - 1)

-- The result of `binary_search_by`: `found i` is `Ok(i)`, `missing o` is `Err(o)`.
pub data Found : Type 0 where
  found : ℕ → Found
  missing : Option ℕ → Found

-- The `while left + 1 < right` of `binary_search_by`. The source's `left` starts at -1; here
-- `left` is one more than it, so the middle is `(left - 1 + right) / 2` and `left = mid` is
-- `mid + 1`. Inside the loop `left + right` is positive.
pub greatest_loop : ℕ → (ℕ → Ordering) → ℕ → ℕ → Found
greatest_loop zero cmp left right = missing (if left == 0 then none else some (left - 1))
greatest_loop (suc fuel) cmp left right =
    let mid = (left + right - 1) / 2 in
    let above = greatest_loop fuel cmp (mid + 1) right in
    let below = greatest_loop fuel cmp left mid in
    if ltb left right
    then elim (cmp mid) [ Ordering.lt ↦ above | Ordering.gt ↦ below | Ordering.eq ↦ found mid ]
    else missing (if left == 0 then none else some (left - 1))

unfoldable pub binary_search_by : ℕ → (ℕ → Ordering) → Found
unfolding greatest_loop
binary_search_by len cmp = greatest_loop len cmp 0 len
