-- ===== src/Assignments/Portal/Finding.antt =====
-- `PortalAssignment::find_chunk` and `find_chunk_by_timestamp`: which chunk they return, and why none.
use sqd_network.Base.{
  ℕ, zero, suc, ◌≤◌, ◌<◌, ◌≡◌, refl, sym, ap, ◌∙◌, false, some, length, get_elem?-bound,
  get_elem?-below, leb, Outcome, ok, err, panic, ltb, ltb→lt, arith, inl, inr, Bool-cases,
  Option-cases, lt_or_le,
}
use sqd_network.Assignments.Search.{partition_point}
use sqd_network.Assignments.Search.Partition.{
  HoldsForPrefix, IsPartition, partition_point-IsPartition,
}
use sqd_network.Assignments.Portal.{Dataset}
use sqd_network.Assignments.Portal.Reader.{
  ChunkNotFound, first_block, last_block, begins_by, chunk_count, chunk, expect_chunk, within,
  find_chunk,
}

-- Chunks in block order that do not overlap; gaps are allowed.
pub record IsOrdered (d : Dataset) : Type 0 where
  pub ends_after :
      (i f : ℕ) → first_block d i ≡ some f → (l : ℕ) × (last_block d i ≡ some l) × (f ≤ l)
  pub apart : (i j l f : ℕ) → i < j → last_block d i ≡ some l → first_block d j ≡ some f → l < f

-- What an answer of `find_chunk` means.
abbrev pub Finds : Dataset → ℕ → Outcome ChunkNotFound ℕ → Type 0
Finds d block (ok i) =
    (f l : ℕ) × (first_block d i ≡ some f) × (last_block d i ≡ some l) × (f ≤ block) × (block ≤ l)
Finds d block (err ChunkNotFound.after_last) = d.last_block < block
Finds d block (err ChunkNotFound.before_first) = (i f : ℕ) → first_block d i ≡ some f → block < f
Finds d block (err ChunkNotFound.in_gap) =
    ((i : ℕ) × (f : ℕ) × (first_block d i ≡ some f) × (f ≤ block))
    × ((i f l : ℕ) → first_block d i ≡ some f → last_block d i ≡ some l → f ≤ block → l < block)
Finds d block (err ChunkNotFound.unknown_dataset) = ⊥
Finds d block panic = ⊥

begins_by-HoldsForPrefix :
    (d : Dataset) (block : ℕ) → IsOrdered d → HoldsForPrefix (begins_by d block)
unfolding begins_by first_block
begins_by-HoldsForPrefix d block o i j le h = elim (Option-cases (first_block d j)) [
  | inl n ↦ absurd (ground arith)
  | inr (g, at) ↦
      let (f, here) =
        get_elem?-below d.first_blocks i (omega (arith, get_elem?-bound d.first_blocks j g at)) in
      let (l, ends, long) = o.ends_after i f here in
      elim (lt_or_le i j) [
        | inl less ↦ ground (arith, o.apart i j l g less ends at)
        | inr more ↦ let e : i ≡ j = omega arith in rw e h
      ]
]

-- A chunk in range begins by the block or not.
begins_by_iff :
    (d : Dataset) (block i f : ℕ) → first_block d i ≡ some f → begins_by d block i ≡ leb f block
unfolding begins_by first_block
begins_by_iff d block i f h = rw (h, begins_by)

module _ (d : Dataset) (block : ℕ) (o : IsOrdered d) where
  -- The last chunk that begins by the block: it, or none, holds the block.
  within-Finds :
      (index : ℕ)
      → IsPartition (length d.first_blocks) (begins_by d block) (suc index)
      → Finds d block (within d block index)
  within-Finds index (most, low, high) =
      let (f, at) = get_elem?-below d.first_blocks index (omega arith) in
      let here : first_block d index ≡ some f = unfold first_block in at in
      let (l, ends, long) = o.ends_after index f here in
      let begun : f ≤ block =
        ground (arith, begins_by_iff d block index f here, low index (omega arith)) in
      elim (Bool-cases (ltb l block)) [
        | inl past ↦
            unfold within in
            rw (ends, within, past)
              (
                (index, f, here, begun),
                λ j g m first last starts. elim (lt_or_le j index) [
                  | inl before ↦ omega (arith, o.apart j index m f before last here)
                  | inr after ↦ elim (lt_or_le index j) [
                    | inl later ↦
                        let bound : j < length d.first_blocks =
                          unfold first_block in get_elem?-bound d.first_blocks j g first in
                        absurd (
                          ground
                            (arith, begins_by_iff d block j g first, high j (omega arith) bound))
                    | inr same ↦
                        let e : index ≡ j = omega arith in
                        let k : l ≡ m = some_eq l m (sym ends ∙ ap (last_block d) e ∙ last) in
                        ground arith
                  ]
                ],
              )
        | inr holds ↦
            unfold within in rw (ends, within, holds) (f, l, here, ends, begun, ground arith)
      ]
    where
      some_eq : (l m : ℕ) → some l ≡ some m → l ≡ m
      some_eq l m e = cc

  -- In an ordered dataset `find_chunk` never panics, and its answer means what it says: a chunk holds
  -- the block, the block is after the dataset's last one, every chunk begins after it, or it
  -- lies in a gap: a chunk begins by it, and each that does ends before it.
  pub find_chunk-Finds : Finds d block (find_chunk (some d) block)
  unfolding find_chunk
  find_chunk-Finds = elim (Bool-cases (ltb d.last_block block)) [
    | inl after ↦ rw (after, find_chunk) (ltb→lt d.last_block block after)
    | inr inside ↦
        answer inside (partition_point (length d.first_blocks) (begins_by d block)) refl (
          partition_point-IsPartition (length d.first_blocks) (begins_by d block)
            (begins_by-HoldsForPrefix d block o))
  ]
    where
      answer :
          ltb d.last_block block ≡ false
          → (above : ℕ) → partition_point (length d.first_blocks) (begins_by d block) ≡ above
          → IsPartition (length d.first_blocks) (begins_by d block) above
          → Finds d block (find_chunk (some d) block)
      answer inside zero e (most, low, high) =
          rw (inside, find_chunk, e)
            (λ i f first.
              let bound : i < length d.first_blocks =
                unfold first_block in get_elem?-bound d.first_blocks i f first in
              ground (arith, begins_by_iff d block i f first, high i (omega arith) bound))
      answer inside (suc index) e (most, low, high) =
          let c : expect_chunk d index ≡ ok index =
            unfold expect_chunk chunk chunk_count in ground arith in
          rw (inside, find_chunk, e, c) (within-Finds index (most, low, high))
