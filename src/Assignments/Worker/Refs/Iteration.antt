-- ===== src/Assignments/Worker/Refs/Iteration.antt =====
-- The references that a worker iterates over are those of the chunks that name it.
use sqd_network.Base.{
  ℕ, zero, suc, ◌+◌, ◌-◌, ◌%◌, ◌≤◌, ◌<◌, ◌≡◌, ◌↔◌, refl, sym, ap, ap₂, subst, ◌∙◌, true, some, List,
  [], ◌∷◌, ◌++◌, map, length, get_elem?, get_elem?-bound, ltb, u32_mod, Mem, Mem-append_left,
  Mem-append_right, Mem-append_cases, All, All-imp, ok, arith, inl, inr,
}
use sqd_network.Assignments.Loading.{
  check_datasets-All, check_worker_dataset, check_worker_dataset-offsets, worker_from_owned,
}
use sqd_network.Assignments.Worker.{Dataset}
use sqd_network.Assignments.Worker.Reader
use sqd_network.Assignments.Worker.Refs.{
  ChunkRef, WorkerChunk, get_dataset_by_ref, get_chunk, refs_from, iter_chunks_with_ref,
}
use sqd_network.Assignments.Worker.Refs.Holdings.{Names, Holds, holdings-Holds}

module _ {A B : Type 0} (f : A → B) where
  Mem-map : (a : A) (xs : List A) → Mem a xs → Mem (f a) (map f xs)
  Mem-map a [] m = absurd m
  Mem-map a (x ∷ xs) (inl e) = inl (ap f e)
  Mem-map a (x ∷ xs) (inr m) = inr (Mem-map a xs m)

  Mem-map_from : (b : B) (xs : List A) → Mem b (map f xs) → (a : A) × Mem a xs × (b ≡ f a)
  Mem-map_from b [] m = absurd m
  Mem-map_from b (x ∷ xs) (inl e) = (x, inl refl, e)
  Mem-map_from b (x ∷ xs) (inr m) = let (a, n, e) = Mem-map_from b xs m in (a, inr n, e)

abbrev OffsetsFit : Dataset → Type 0
OffsetsFit d = length d.worker_offsets - 1 ≡ length d.first_blocks

abbrev named : ℕ → Dataset → ℕ → ChunkRef × WorkerChunk
named n d i = (record { dataset_index = n % u32_mod; chunk_index = i }, (d, i))

-- A reference to a chunk of the datasets from an index on, and the chunk, which names the worker.
abbrev IsRef : ℕ → List Dataset → ℕ → ChunkRef × WorkerChunk → Type 0
IsRef n datasets w (r, (d, i)) =
    (k : ℕ) × (r.dataset_index ≡ n + k)
    × (get_elem? datasets k ≡ some d)
    × (r.chunk_index ≡ i)
    × (i < length d.first_blocks)
    × Names d i w

refs_from-step :
    (n : ℕ) (d : Dataset) (datasets : List Dataset) (w : ℕ) (is : List ℕ)
    (more : List (ChunkRef × WorkerChunk))
    → Reader.holdings d w ≡ some is
    → refs_from (suc n) datasets w ≡ some more
    → refs_from n (d ∷ datasets) w ≡ some (map (named n d) is ++ more)
unfolding refs_from
refs_from-step n d datasets w is more h k = rw (h, refs_from, k) refl

refs_from-Refs :
    (n : ℕ) (datasets : List Dataset) (w : ℕ)
    → All OffsetsFit datasets
    → n + length datasets ≤ u32_mod
    → (refs : List (ChunkRef × WorkerChunk)) × (refs_from n datasets w ≡ some refs)
      × ((p : ChunkRef × WorkerChunk) → Mem p refs ↔ IsRef n datasets w p)
unfolding refs_from
refs_from-Refs n [] w a b = ([], refl, λ p. (λ m. absurd m, λ (k, _, at, _, _, _). absurd (cc)))
refs_from-Refs n (d ∷ datasets) w a b =
    let (is, e, holds) = holdings-Holds d w a.0 in
    let (more, f, rest) = refs_from-Refs (suc n) datasets w a.1 (omega (arith, b)) in
    (
      map (named n d) is ++ more,
      refs_from-step n d datasets w is more e f,
      λ p. (
        λ m. elim (Mem-append_cases p (map (named n d) is) more m) [
          | inl l ↦ here p is (Mem-map_from (named n d) p is l) holds
          | inr l ↦ later p ((rest p).0 l)
        ],
        λ h. back p is more holds (λ g. (rest p).1 g) h,
      ),
    )
  where
    here :
        (p : ChunkRef × WorkerChunk) (is : List ℕ)
        → (i : ℕ) × Mem i is × (p ≡ named n d i)
        → Holds d w 0 (length d.first_blocks) is
        → IsRef n (d ∷ datasets) w p
    here p is (i, m, e) holds =
        let (_, bound, names) = (holds i).0 m in
        let small : n % u32_mod ≡ n = omega (arith, b) in
        rw e (zero, omega (arith, small), refl, refl, omega (arith, bound), names)

    later : (p : ChunkRef × WorkerChunk) → IsRef (suc n) datasets w p → IsRef n (d ∷ datasets) w p
    later p (k, at, same, index, bound, names) =
        (suc k, omega (arith, at), same, index, bound, names)

    back :
        (p : ChunkRef × WorkerChunk) (is : List ℕ) (more : List (ChunkRef × WorkerChunk))
        → Holds d w 0 (length d.first_blocks) is
        → (IsRef (suc n) datasets w p → Mem p more)
        → IsRef n (d ∷ datasets) w p
        → Mem p (map (named n d) is ++ more)
    back p is more holds rest (zero, at, same, index, bound, names) =
        let dataset : d ≡ p.1.0 = cc in
        let held : Mem p.1.1 is =
          (holds p.1.1).1 (omega arith, rw dataset (omega (arith, bound)), rw dataset names) in
        let small : n % u32_mod ≡ p.0.dataset_index = omega (arith, b, at) in
        let same_p : named n d p.1.1 ≡ p =
          ap₂ (λ a c. (record { dataset_index = a; chunk_index = p.1.1 }, (c, p.1.1))) small dataset
          ∙ ap (λ a. (record { dataset_index = p.0.dataset_index; chunk_index = a }, p.1))
              (sym index) in
        Mem-append_left p (map (named n d) is) more
          (subst (λ q. Mem q (map (named n d) is)) same_p (Mem-map (named n d) p.1.1 is held))
    back p is more holds rest (suc k, at, same, index, bound, names) =
        Mem-append_right p (map (named n d) is) more
          (rest (k, omega (arith, at), same, index, bound, names))

get_chunk-at :
    (datasets : List Dataset) (r : ChunkRef) (c : WorkerChunk)
    → get_chunk datasets r ≡ some c
    → (get_elem? datasets r.dataset_index ≡ some c.0)
      × (r.chunk_index ≡ c.1)
      × (c.1 < length c.0.first_blocks)
unfolding get_chunk get_dataset_by_ref Reader.chunk Reader.chunk_count
get_chunk-at datasets r c h = ground arith

get_chunk-of :
    (datasets : List Dataset) (r : ChunkRef) (c : WorkerChunk)
    → get_elem? datasets r.dataset_index ≡ some c.0
    → r.chunk_index ≡ c.1
    → c.1 < length c.0.first_blocks
    → get_chunk datasets r ≡ some c
unfolding get_chunk get_dataset_by_ref Reader.chunk Reader.chunk_count
get_chunk-of datasets r c at index bound =
    let inside = get_elem?-bound datasets r.dataset_index c.0 at in
    let t1 : ltb r.dataset_index (length datasets) ≡ true = ground (arith, inside) in
    let t2 : ltb r.chunk_index (length c.0.first_blocks) ≡ true = ground (arith, index, bound) in
    rw (t1, get_chunk, at, t2) (ap (λ i. some (c.0, i)) index)

-- In an assignment of at most 2^32 datasets that `from_owned` accepts, `iter_chunks_with_ref` never
-- panics, and it yields a reference with a chunk exactly if `get_chunk` returns that chunk for the
-- reference and the chunk's worker indexes have the worker.
pub iter_chunks_with_ref_iff :
    (datasets : List Dataset) (w : ℕ)
    → worker_from_owned datasets ≡ ok tt
    → length datasets ≤ u32_mod
    → (refs : List (ChunkRef × WorkerChunk)) × (iter_chunks_with_ref datasets w ≡ some refs)
      × ((r : ChunkRef) (c : WorkerChunk)
          → Mem (r, c) refs ↔ ((get_chunk datasets r ≡ some c) × Names c.0 c.1 w))
unfolding iter_chunks_with_ref worker_from_owned
iter_chunks_with_ref_iff datasets w loads b =
    let fit =
      All-imp check_worker_dataset-offsets datasets
        (check_datasets-All check_worker_dataset datasets loads) in
    let (refs, e, is_ref) = refs_from-Refs 0 datasets w fit (omega (arith, b)) in
    (
      refs,
      e,
      λ r c. (
        λ m.
            let (k, at, dataset, index, bound, names) = (is_ref (r, c)).0 m in
            let same : r.dataset_index ≡ k = omega (arith, at) in
            (get_chunk-of datasets r c (ap (get_elem? datasets) same ∙ dataset) index bound, names),
        λ (got, names).
            let (at, index, bound) = get_chunk-at datasets r c got in
            (is_ref (r, c)).1 (r.dataset_index, omega arith, at, index, bound, names),
      ),
    )
