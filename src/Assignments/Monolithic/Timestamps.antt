-- ===== src/Assignments/Monolithic/Timestamps.antt =====
-- Which chunk `Assignment::find_chunk_by_timestamp` returns.
use sqd_network.Base.{
  ℕ, zero, suc, ◌+◌, ◌≤◌, ◌<◌, ◌≡◌, refl, true, false, none, some, Ordering, compare, length,
  get_elem?, get_elem?-bound, get_elem?-below, Outcome, ok, err, panic, ltb, ◌==◌, if◌then◌else◌,
  arith, inl, inr, Bool-cases, Option-cases,
}
use sqd_network.Assignments.Search.{Found, found, missing, binary_search_by}
use sqd_network.Assignments.Search.Keyed.{IsAscending}
use sqd_network.Assignments.Search.Greatest.{Splits, binary_search_by-Splits}
use sqd_network.Assignments.Portal.Reader.{ChunkNotFound}
use sqd_network.Assignments.Monolithic.{
  Chunk, Dataset, stamp, unwrap_or_zero, compare_timestamp, has_stamp, walk_back, first_at_or_after,
  find_chunk_by_timestamp,
}

-- A chunk's timestamp as the search reads it.
abbrev pub time : Chunk → ℕ
time c = unwrap_or_zero c.last_block_timestamp

-- Chunks in ascending order of their timestamps; equal ones are allowed.
abbrev pub TimesAscend : Dataset → Type 0
TimesAscend d =
    (i j : ℕ) (a b : Chunk)
    → i ≤ j
    → get_elem? d.chunks i ≡ some a
    → get_elem? d.chunks j ≡ some b
    → time a ≤ time b

compare_timestamp_at :
    (d : Dataset) (ts i : ℕ) (c : Chunk)
    → get_elem? d.chunks i ≡ some c
    → compare_timestamp d ts i ≡ compare (time c) ts
unfolding compare_timestamp
compare_timestamp_at d ts i c h = rw (h, compare_timestamp)

compare_timestamp_out :
    (d : Dataset) (ts i : ℕ) → get_elem? d.chunks i ≡ none → compare_timestamp d ts i ≡ Ordering.gt
unfolding compare_timestamp
compare_timestamp_out d ts i h = rw (h, compare_timestamp)

compare_timestamp-IsAscending :
    (d : Dataset) (ts : ℕ) → TimesAscend d → IsAscending (compare_timestamp d ts)
compare_timestamp-IsAscending d ts o = record {
  lt_below = λ i j le h. elim (Option-cases (get_elem? d.chunks j)) [
    | inl n ↦ absurd (ground (arith, compare_timestamp_out d ts j n))
    | inr (b, at) ↦
        let (a, here) =
          get_elem?-below d.chunks i (omega (arith, get_elem?-bound d.chunks j b at)) in
        ground (
          arith,
          o i j a b le here at,
          compare_timestamp_at d ts i a here,
          compare_timestamp_at d ts j b at,
        )
  ];
  gt_above = λ i j le h. elim (Option-cases (get_elem? d.chunks j)) [
    | inl n ↦ compare_timestamp_out d ts j n
    | inr (b, at) ↦
        let (a, here) =
          get_elem?-below d.chunks i (omega (arith, get_elem?-bound d.chunks j b at)) in
        ground (
          arith,
          o i j a b le here at,
          compare_timestamp_at d ts i a here,
          compare_timestamp_at d ts j b at,
        )
  ];
}

-- For a positive timestamp, having it is comparing equal.
has_stamp_iff :
    (d : Dataset) (ts i : ℕ) (c : Chunk)
    → 0 < ts
    → get_elem? d.chunks i ≡ some c
    → has_stamp d ts i ≡ (time c == ts)
unfolding has_stamp stamp unwrap_or_zero
has_stamp_iff d ts i c p h = ground (arith, h)

-- The walk stops at a chunk with the timestamp whose predecessor, if any, has another.
walk_back_lem :
    (d : Dataset) (ts i : ℕ)
    → has_stamp d ts i ≡ true
    → (walk_back d ts i ≤ i)
      × (has_stamp d ts (walk_back d ts i) ≡ true)
      × ((k : ℕ) → suc k ≡ walk_back d ts i → has_stamp d ts k ≡ false)
unfolding walk_back
walk_back_lem d ts zero h = rw (h, walk_back) (omega arith, h, λ k e. absurd (omega arith))
walk_back_lem d ts (suc i) h = elim (Bool-cases (has_stamp d ts i)) [
  | inl more ↦
      let (low, has, first) = walk_back_lem d ts i more in
      rw (h, walk_back) (omega arith, has, first)
  | inr other ↦
      let e : walk_back d ts i ≡ suc i = stays i other in
      rw (h, walk_back, e) (omega arith, h, λ k q. let s : k ≡ i = omega arith in rw s other)
]
  where
    stays : (i : ℕ) → has_stamp d ts i ≡ false → walk_back d ts i ≡ suc i
    stays zero other = rw (other, walk_back)
    stays (suc i) other = rw (other, walk_back)

-- What an answer of `find_chunk_by_timestamp` means.
abbrev pub FindsFirst : Dataset → ℕ → Outcome ChunkNotFound ℕ → Type 0
FindsFirst d ts (ok i) =
    ((c : Chunk) × (get_elem? d.chunks i ≡ some c) × (ts ≤ time c))
    × ((j : ℕ) (c : Chunk) → get_elem? d.chunks j ≡ some c → j < i → time c < ts)
FindsFirst d ts (err ChunkNotFound.after_last) =
    (j : ℕ) (c : Chunk) → get_elem? d.chunks j ≡ some c → time c < ts
FindsFirst d ts (err _) = ⊥
FindsFirst d ts panic = ⊥

module _ (d : Dataset) (ts : ℕ) (p : 0 < ts) (o : TimesAscend d) where
  -- From a chunk with the timestamp the walk finds the first of all.
  walked :
      (i : ℕ)
      → i < length d.chunks
      → has_stamp d ts i ≡ true
      → FindsFirst d ts (ok (walk_back d ts i))
  walked i lt h =
      let (low, has, first) = walk_back_lem d ts i h in
      let (c, at) = get_elem?-below d.chunks (walk_back d ts i) (omega arith) in
      (
        (c, at, ground (arith, has_stamp_iff d ts (walk_back d ts i) c p at)),
        before (walk_back d ts i) c at
            (ground (arith, has_stamp_iff d ts (walk_back d ts i) c p at)) first,
      )
    where
      before :
          (w : ℕ) (c : Chunk)
          → get_elem? d.chunks w ≡ some c
          → time c ≡ ts
          → ((k : ℕ) → suc k ≡ w → has_stamp d ts k ≡ false)
          → (j : ℕ) (b : Chunk) → get_elem? d.chunks j ≡ some b
          → j < w
          → time b < ts
      before zero c at e first j b there lt = absurd (omega arith)
      before (suc k) c at e first j b there lt =
          let (a, here) =
            get_elem?-below d.chunks k (omega (arith, get_elem?-bound d.chunks (suc k) c at)) in
          ground (
            arith,
            o j k b a (omega arith) there here,
            o k (suc k) a c (omega arith) here at,
            has_stamp_iff d ts k a p here,
            first k refl,
          )

  -- For a positive timestamp, over chunks in ascending order of their timestamps, equal and unset ones
  -- included, `find_chunk_by_timestamp` never panics: it returns the first chunk at or after the given
  -- timestamp, or tells that all are before it.
  pub find_chunk_by_timestamp-FindsFirst : FindsFirst d ts (find_chunk_by_timestamp (some d) ts)
  unfolding find_chunk_by_timestamp
  find_chunk_by_timestamp-FindsFirst =
      answer (binary_search_by (length d.chunks) (compare_timestamp d ts)) refl (
        binary_search_by-Splits (length d.chunks) (compare_timestamp d ts)
          (compare_timestamp-IsAscending d ts o))
    where
      stop :
          (i : ℕ)
          → i < length d.chunks
          → ((j : ℕ) (c : Chunk) → get_elem? d.chunks j ≡ some c → j < i → time c < ts)
          → ((c : Chunk) → get_elem? d.chunks i ≡ some c → ts < time c)
          → FindsFirst d ts (if has_stamp d ts i then ok (walk_back d ts i) else ok i)
      stop i lt low here =
          let (c, at) = get_elem?-below d.chunks i lt in
          let other : has_stamp d ts i ≡ false =
            ground (arith, has_stamp_iff d ts i c p at, here c at) in
          rw other ((c, at, ground (arith, here c at)), low)

      above :
          (j : ℕ) (c : Chunk)
          → get_elem? d.chunks j ≡ some c
          → compare_timestamp d ts j ≡ Ordering.gt
          → ts < time c
      above j c at h = ground (arith, compare_timestamp_at d ts j c at)

      below :
          (j : ℕ) (c : Chunk)
          → get_elem? d.chunks j ≡ some c
          → compare_timestamp d ts j ≡ Ordering.lt
          → time c < ts
      below j c at h = ground (arith, compare_timestamp_at d ts j c at)

      answer :
          (f : Found)
          → binary_search_by (length d.chunks) (compare_timestamp d ts) ≡ f
          → Splits (length d.chunks) (compare_timestamp d ts) f
          → FindsFirst d ts (find_chunk_by_timestamp (some d) ts)
      answer (found i) e (lt, eq) =
          let (c, at) = get_elem?-below d.chunks i lt in
          let has : has_stamp d ts i ≡ true =
            ground (arith, has_stamp_iff d ts i c p at, compare_timestamp_at d ts i c at) in
          unfold first_at_or_after in rw (e, find_chunk_by_timestamp, has) (walked i lt has)
      answer (missing (some i)) e (lt, low, high) =
          elim (Bool-cases (ltb (i + 1) (length d.chunks))) [
            | inl more ↦
                unfold first_at_or_after in
                rw (e, find_chunk_by_timestamp, more)
                  (stop (i + 1) (ground arith) (λ j c at l. below j c at (low j (omega arith)))
                    (λ c at.
                      above (i + 1) c at
                        (high (i + 1) (omega arith) (get_elem?-bound d.chunks (i + 1) c at))))
            | inr over ↦
                unfold first_at_or_after in
                rw (e, find_chunk_by_timestamp, over)
                  (λ j c at. below j c at (low j (ground (arith, get_elem?-bound d.chunks j c at))))
          ]
      answer (missing none) e all = elim (Bool-cases (length d.chunks == 0)) [
        | inl empty ↦
            unfold first_at_or_after in
            rw (e, find_chunk_by_timestamp, empty)
              (λ j c at. absurd (ground (arith, get_elem?-bound d.chunks j c at)))
        | inr some_left ↦
            unfold first_at_or_after in
            rw (e, find_chunk_by_timestamp, some_left)
              (stop 0 (ground arith) (λ j c at l. absurd (omega arith))
                (λ c at. above 0 c at (all 0 (get_elem?-bound d.chunks 0 c at))))
      ]
