-- ===== src/Assignments/Monolithic/Lookups.antt =====
-- Which chunk the lookups of `Assignment` return.
use sqd_network.Base.{
  ℕ, ◌≤◌, ◌<◌, ◌≡◌, refl, false, none, some, Ordering, compare, length, get_elem?, get_elem?-bound,
  get_elem?-below, Outcome, ok, err, panic, ltb, ltb→lt, arith, inl, inr, Bool-cases, Option-cases,
  lt_or_le,
}
use sqd_network.Assignments.Search.{Found, found, missing, binary_search_by}
use sqd_network.Assignments.Search.Keyed.{IsAscending}
use sqd_network.Assignments.Search.Greatest.{Splits, binary_search_by-Splits}
use sqd_network.Assignments.Portal.Reader.{ChunkNotFound}
use sqd_network.Assignments.Monolithic.{Chunk, Dataset, compare_block, find_chunk}

-- Chunks in strictly ascending order of their first blocks.
abbrev pub BlocksAscend : Dataset → Type 0
BlocksAscend d =
    (i j : ℕ) (a b : Chunk)
    → i < j
    → get_elem? d.chunks i ≡ some a
    → get_elem? d.chunks j ≡ some b
    → a.first_block < b.first_block

-- What the comparison answers at a chunk.
compare_block_at :
    (d : Dataset) (block i : ℕ) (c : Chunk)
    → get_elem? d.chunks i ≡ some c
    → compare_block d block i ≡ compare c.first_block block
unfolding compare_block
compare_block_at d block i c h = rw (h, compare_block)

compare_block_out :
    (d : Dataset) (block i : ℕ)
    → get_elem? d.chunks i ≡ none
    → compare_block d block i ≡ Ordering.gt
unfolding compare_block
compare_block_out d block i h = rw (h, compare_block)

compare_block-IsAscending :
    (d : Dataset) (block : ℕ) → BlocksAscend d → IsAscending (compare_block d block)
compare_block-IsAscending d block o = record {
  lt_below = λ i j le h. elim (Option-cases (get_elem? d.chunks j)) [
    | inl n ↦ absurd (ground (arith, compare_block_out d block j n))
    | inr (b, at) ↦
        let (a, here) =
          get_elem?-below d.chunks i (omega (arith, get_elem?-bound d.chunks j b at)) in
        elim (lt_or_le i j) [
          | inl lt ↦ ground (
            arith,
            o i j a b lt here at,
            compare_block_at d block i a here,
            compare_block_at d block j b at,
          )
          | inr ge ↦ let e : i ≡ j = omega arith in rw e h
        ]
  ];
  gt_above = λ i j le h. elim (Option-cases (get_elem? d.chunks j)) [
    | inl n ↦ compare_block_out d block j n
    | inr (b, at) ↦
        let (a, here) =
          get_elem?-below d.chunks i (omega (arith, get_elem?-bound d.chunks j b at)) in
        elim (lt_or_le i j) [
          | inl lt ↦ ground (
            arith,
            o i j a b lt here at,
            compare_block_at d block i a here,
            compare_block_at d block j b at,
          )
          | inr ge ↦ let e : i ≡ j = omega arith in rw (← e) h
        ]
  ];
}

-- What an answer of `find_chunk` means.
abbrev pub FindsLast : Dataset → ℕ → Outcome ChunkNotFound ℕ → Type 0
FindsLast d block (ok i) =
    ((c : Chunk) × (get_elem? d.chunks i ≡ some c)
      × (c.first_block ≤ block)
      × (block ≤ d.last_block))
    × ((j : ℕ) (c : Chunk) → get_elem? d.chunks j ≡ some c → i < j → block < c.first_block)
FindsLast d block (err ChunkNotFound.after_last) = d.last_block < block
FindsLast d block (err ChunkNotFound.before_first) =
    (j : ℕ) (c : Chunk) → get_elem? d.chunks j ≡ some c → block < c.first_block
FindsLast d block (err _) = ⊥
FindsLast d block panic = ⊥

module _ (d : Dataset) (block : ℕ) (o : BlocksAscend d) where
  after_gt :
      (j : ℕ) (c : Chunk)
      → get_elem? d.chunks j ≡ some c
      → compare_block d block j ≡ Ordering.gt
      → block < c.first_block
  after_gt j c at h = ground (arith, compare_block_at d block j c at)

  -- Over chunks in strictly ascending order `find_chunk` never panics: it returns the last chunk that
  -- begins at or before the block, or tells that the block is behind the dataset's last one, or that
  -- every chunk begins after it.
  pub find_chunk-FindsLast : FindsLast d block (find_chunk (some d) block)
  unfolding find_chunk
  find_chunk-FindsLast = elim (Bool-cases (ltb d.last_block block)) [
    | inl past ↦ rw (past, find_chunk) (ltb→lt d.last_block block past)
    | inr inside ↦ answer inside (binary_search_by (length d.chunks) (compare_block d block)) refl (
        binary_search_by-Splits (length d.chunks) (compare_block d block)
          (compare_block-IsAscending d block o))
  ]
    where
      answer :
          ltb d.last_block block ≡ false
          → (f : Found) → binary_search_by (length d.chunks) (compare_block d block) ≡ f
          → Splits (length d.chunks) (compare_block d block) f
          → FindsLast d block (find_chunk (some d) block)
      answer inside (found i) e (lt, eq) =
          let (c, at) = get_elem?-below d.chunks i lt in
          rw (inside, find_chunk, e)
            (
              (c, at, ground (arith, compare_block_at d block i c at), ground arith),
              λ j b there more.
                  ground (arith, o i j c b more at there, compare_block_at d block i c at),
            )
      answer inside (missing (some i)) e (lt, low, high) =
          let (c, at) = get_elem?-below d.chunks i lt in
          rw (inside, find_chunk, e)
            (
              (
                c,
                at,
                ground (arith, low i (omega arith), compare_block_at d block i c at),
                ground arith,
              ),
              λ j b there more.
                  after_gt j b there (high j more (get_elem?-bound d.chunks j b there)),
            )
      answer inside (missing none) e all =
          rw (inside, find_chunk, e)
            (λ j b there. after_gt j b there (all j (get_elem?-bound d.chunks j b there)))
