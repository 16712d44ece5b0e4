-- ===== src/Assignments/Portal/Timestamps.antt =====
-- `PortalAssignment::find_chunk_by_timestamp` over a column of ascending timestamps.
use sqd_network.Base.{
  ℕ, ◌≤◌, ◌<◌, ◌≡◌, refl, true, none, some, length, get_elem?-bound, get_elem?-below, ltb, Outcome,
  ok, err, panic, ◌==◌, arith, inl, inr, Bool-cases,
}
use sqd_network.Assignments.Search.{partition_point}
use sqd_network.Assignments.Search.Partition.{
  HoldsForPrefix, IsPartition, partition_point-IsPartition,
}
use sqd_network.Assignments.Portal.{Dataset}
use sqd_network.Assignments.Portal.Reader.{
  ChunkNotFound, older, chunk_count, chunk, expect_chunk, find_chunk_by_timestamp,
  last_block_timestamp,
}

-- One timestamp for each chunk, and none less than an earlier one.
pub record HasTimestamps (d : Dataset) : Type 0 where
  pub count : length d.timestamps ≡ chunk_count d
  pub ascend :
      (i j s t : ℕ)
      → i ≤ j
      → last_block_timestamp d i ≡ some s
      → last_block_timestamp d j ≡ some t
      → s ≤ t

-- What an answer of `find_chunk_by_timestamp` means.
abbrev pub FindsTimestamp : Dataset → ℕ → Outcome ChunkNotFound ℕ → Type 0
FindsTimestamp d ts (ok i) =
    ((t : ℕ) × (last_block_timestamp d i ≡ some t) × (ts ≤ t))
    × ((j t : ℕ) → j < i → last_block_timestamp d j ≡ some t → t < ts)
FindsTimestamp d ts (err ChunkNotFound.after_last) =
    (j t : ℕ) → last_block_timestamp d j ≡ some t → t < ts
FindsTimestamp d ts (err _) = ⊥
FindsTimestamp d ts panic = ⊥

older-HoldsForPrefix : (d : Dataset) (ts : ℕ) → HasTimestamps d → HoldsForPrefix (older d ts)
unfolding older last_block_timestamp
older-HoldsForPrefix d ts o i j le h = from (last_block_timestamp d j) refl
  where
    from : (t : _) → last_block_timestamp d j ≡ t → older d ts i ≡ true
    from none e = absurd (ground arith)
    from (some t) e =
        let (s, at) =
          get_elem?-below d.timestamps i (omega (arith, get_elem?-bound d.timestamps j t e)) in
        ground (arith, o.ascend i j s t le at e)

older_iff : (d : Dataset) (ts i t : ℕ) → last_block_timestamp d i ≡ some t → older d ts i ≡ ltb t ts
unfolding older last_block_timestamp
older_iff d ts i t h = rw (h, older)

-- Over ascending timestamps `find_chunk_by_timestamp` never panics: it returns the first chunk whose
-- timestamp is at or after the given one, or `after_last` if all are before it.
pub find_chunk_by_timestamp-Finds :
    (d : Dataset) (ts : ℕ)
    → HasTimestamps d
    → FindsTimestamp d ts (find_chunk_by_timestamp (some d) ts)
unfolding find_chunk_by_timestamp
find_chunk_by_timestamp-Finds d ts o =
    answer (partition_point (chunk_count d) (older d ts)) refl
      (partition_point-IsPartition (chunk_count d) (older d ts) (older-HoldsForPrefix d ts o))
  where
    stamp : (j t : ℕ) → last_block_timestamp d j ≡ some t → j < chunk_count d
    stamp j t h =
        unfold last_block_timestamp in omega (arith, get_elem?-bound d.timestamps j t h, o.count)

    answer :
        (index : ℕ)
        → partition_point (chunk_count d) (older d ts) ≡ index
        → IsPartition (chunk_count d) (older d ts) index
        → FindsTimestamp d ts (find_chunk_by_timestamp (some d) ts)
    answer index e (most, low, high) = elim (Bool-cases (index == chunk_count d)) [
      | inl all ↦
          rw (e, find_chunk_by_timestamp, all)
            (λ j t at. ground (arith, older_iff d ts j t at, low j (ground (arith, stamp j t at))))
      | inr some_left ↦
          let less : index < chunk_count d = ground arith in
          let c : expect_chunk d index ≡ ok index = unfold expect_chunk chunk in ground arith in
          let (t, at) = get_elem?-below d.timestamps index (omega (arith, o.count)) in
          let here : last_block_timestamp d index ≡ some t = unfold last_block_timestamp in at in
          rw (e, find_chunk_by_timestamp, some_left, c)
            (
              (t, here, ground (arith, older_iff d ts index t here, high index (omega arith) less)),
              λ j u lt there. ground (arith, older_iff d ts j u there, low j lt),
            )
    ]
