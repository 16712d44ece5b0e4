-- ===== src/Assignments/Monolithic/Refs/Iteration.antt =====
-- The chunks that a worker iterates over are those that name it, each under its reference.
use sqd_network.Base.{
  ℕ, zero, suc, ◌+◌, ◌%◌, ◌≤◌, ◌<◌, ◌≡◌, ◌↔◌, refl, sym, ap, ap₂, ◌∙◌, true, false, Option, none,
  some, List, [], ◌∷◌, ◌++◌, map, map-append, length, get_elem?, get_elem?-bound, ltb, u32_mod, Mem,
  Mem-append_left, Mem-append_right, Mem-append_cases, All, arith, inl, inr, Bool-cases,
}
use sqd_network.Assignments.Monolithic.{Chunk, Dataset}
use sqd_network.Assignments.Worker.Reader
use sqd_network.Assignments.Worker.Refs.{ChunkRef}
use sqd_network.Assignments.Worker.Refs.Holdings.{contains_iff}
use sqd_network.Assignments.Monolithic.Refs.{
  get_chunk, filter_chunks, filter_refs, iter_chunks, refs_from, iter_chunks_with_ref,
}

abbrev ref : ℕ → ℕ → ChunkRef
ref d c = record { dataset_index = d; chunk_index = c }

filter_chunks-refs :
    (d n : ℕ) (chunks : List Chunk) (w : ℕ)
    → filter_chunks chunks w ≡ map (λ (p : ChunkRef × Chunk). p.1) (filter_refs d n chunks w)
unfolding filter_chunks filter_refs
filter_chunks-refs d n [] w = refl
filter_chunks-refs d n (c ∷ chunks) w = elim (Bool-cases (Reader.contains c.worker_indexes w)) [
  | inl t ↦ rw t (ap (◌∷◌ c) (filter_chunks-refs d (suc n) chunks w))
  | inr t ↦ rw t (filter_chunks-refs d (suc n) chunks w)
]

iter_chunks-refs :
    (n : ℕ) (datasets : List Dataset) (w : ℕ)
    → iter_chunks datasets w ≡ map (λ (p : ChunkRef × Chunk). p.1) (refs_from n datasets w)
unfolding iter_chunks refs_from
iter_chunks-refs n [] w = refl
iter_chunks-refs n (d ∷ datasets) w =
    ap₂ (λ a b. a ++ b) (filter_chunks-refs n 0 d.chunks w) (iter_chunks-refs (suc n) datasets w)
    ∙ sym (
        map-append (λ (p : ChunkRef × Chunk). p.1) (filter_refs n 0 d.chunks w)
          (refs_from (suc n) datasets w))

-- A reference into one dataset's chunks from an index on.
abbrev IsRow : ℕ → ℕ → List Chunk → ℕ → ChunkRef × Chunk → Type 0
IsRow d n chunks w (r, c) =
    (k : ℕ) × (r.dataset_index ≡ d)
    × (r.chunk_index ≡ n + k)
    × (get_elem? chunks k ≡ some c)
    × Mem w c.worker_indexes

filter_refs_iff :
    (d n : ℕ) (chunks : List Chunk) (w : ℕ) (p : ChunkRef × Chunk)
    → d < u32_mod
    → n + length chunks ≤ u32_mod
    → Mem p (filter_refs d n chunks w) ↔ IsRow d n chunks w p
unfolding filter_refs
filter_refs_iff d n [] w p small fits = (λ m. absurd m, λ (k, _, _, at, _). absurd (cc))
filter_refs_iff d n (c ∷ chunks) w p small fits =
    let rest = filter_refs_iff d (suc n) chunks w p small (omega (arith, fits)) in
    elim (Bool-cases (Reader.contains c.worker_indexes w)) [
      | inl t ↦ rw t (
        λ m. elim m [ inl e ↦ first e t | inr l ↦ later (rest.0 l) ],
        λ (k, at, index, chunk, names). back k at index chunk names (λ h. rest.1 h),
      )
      | inr t ↦ rw t (
        λ m. later (rest.0 m),
        λ (k, at, index, chunk, names). skip k at index chunk names t (λ h. rest.1 h),
      )
    ]
  where
    first :
        p ≡ (ref (d % u32_mod) (n % u32_mod), c)
        → Reader.contains c.worker_indexes w ≡ true
        → IsRow d n (c ∷ chunks) w p
    first e t = rw e (
      zero,
      omega (arith, small),
      omega (arith, fits),
      refl,
      (contains_iff c.worker_indexes w).0 t,
    )

    later : IsRow d (suc n) chunks w p → IsRow d n (c ∷ chunks) w p
    later (k, at, index, chunk, names) = (suc k, at, omega (arith, index), chunk, names)

    back :
        (k : ℕ)
        → p.0.dataset_index ≡ d
        → p.0.chunk_index ≡ n + k
        → get_elem? (c ∷ chunks) k ≡ some p.1
        → Mem w p.1.worker_indexes
        → (IsRow d (suc n) chunks w p → Mem p (filter_refs d (suc n) chunks w))
        → Mem p ((ref (d % u32_mod) (n % u32_mod), c) ∷ filter_refs d (suc n) chunks w)
    back zero at index chunk names more =
        let same : p.1 ≡ c = cc in
        let e1 : p.0.dataset_index ≡ d % u32_mod = omega (arith, small, at) in
        let e2 : p.0.chunk_index ≡ n % u32_mod = omega (arith, fits, index) in
        inl (
          ap₂ (λ (a : ℕ) (q : ℕ × Chunk). (ref a q.0, q.1)) e1
            (ap₂ (λ (b : ℕ) (x : Chunk). (b, x)) e2 same))
    back (suc k) at index chunk names more = inr (more (k, at, omega (arith, index), chunk, names))

    skip :
        (k : ℕ)
        → p.0.dataset_index ≡ d
        → p.0.chunk_index ≡ n + k
        → get_elem? (c ∷ chunks) k ≡ some p.1
        → Mem w p.1.worker_indexes
        → Reader.contains c.worker_indexes w ≡ false
        → (IsRow d (suc n) chunks w p → Mem p (filter_refs d (suc n) chunks w))
        → Mem p (filter_refs d (suc n) chunks w)
    skip zero at index chunk names t more =
        let same : p.1 ≡ c = cc in
        let yes = (contains_iff p.1.worker_indexes w).1 names in
        absurd (ground (arith, ap (λ (x : Chunk). Reader.contains x.worker_indexes w) same, yes, t))
    skip (suc k) at index chunk names t more = more (k, at, omega (arith, index), chunk, names)

-- A reference to a chunk of the datasets from an index on, and the chunk, which names the worker.
abbrev IsRef : ℕ → List Dataset → ℕ → ChunkRef × Chunk → Type 0
IsRef n datasets w (r, c) =
    (k : ℕ) × (d : Dataset) × (r.dataset_index ≡ n + k)
    × (get_elem? datasets k ≡ some d)
    × (get_elem? d.chunks r.chunk_index ≡ some c)
    × Mem w c.worker_indexes

abbrev pub Fits : Dataset → Type 0
Fits d = length d.chunks ≤ u32_mod

refs_from_iff :
    (n : ℕ) (datasets : List Dataset) (w : ℕ) (p : ChunkRef × Chunk)
    → All Fits datasets
    → n + length datasets ≤ u32_mod
    → Mem p (refs_from n datasets w) ↔ IsRef n datasets w p
unfolding refs_from
refs_from_iff n [] w p a b = (λ m. absurd m, λ (k, d, _, at, _, _). absurd (cc))
refs_from_iff n (d ∷ datasets) w p a b =
    let here = filter_refs_iff n 0 d.chunks w p (omega (arith, b)) (omega (arith, a.0)) in
    let rest = refs_from_iff (suc n) datasets w p a.1 (omega (arith, b)) in
    (
      λ m. elim (Mem-append_cases p (filter_refs n 0 d.chunks w) (refs_from (suc n) datasets w) m) [
        | inl l ↦
            let (k, at, index, chunk, names) = here.0 l in
            let same : p.0.chunk_index ≡ k = omega (arith, index) in
            (zero, d, omega (arith, at), refl, ap (get_elem? d.chunks) same ∙ chunk, names)
        | inr l ↦
            let (k, e, at, dataset, chunk, names) = rest.0 l in
            (suc k, e, omega (arith, at), dataset, chunk, names)
      ],
      λ (k, e, at, dataset, chunk, names).
          back k e at dataset chunk names (λ h. here.1 h) (λ h. rest.1 h),
    )
  where
    back :
        (k : ℕ) (e : Dataset)
        → p.0.dataset_index ≡ n + k
        → get_elem? (d ∷ datasets) k ≡ some e
        → get_elem? e.chunks p.0.chunk_index ≡ some p.1
        → Mem w p.1.worker_indexes
        → (IsRow n 0 d.chunks w p → Mem p (filter_refs n 0 d.chunks w))
        → (IsRef (suc n) datasets w p → Mem p (refs_from (suc n) datasets w))
        → Mem p (filter_refs n 0 d.chunks w ++ refs_from (suc n) datasets w)
    back zero e at dataset chunk names here rest =
        let same : d ≡ e = cc in
        Mem-append_left p (filter_refs n 0 d.chunks w) (refs_from (suc n) datasets w)
          (here (p.0.chunk_index, omega (arith, at), omega arith, rw same chunk, names))
    back (suc k) e at dataset chunk names here rest =
        Mem-append_right p (filter_refs n 0 d.chunks w) (refs_from (suc n) datasets w)
          (rest (k, e, omega (arith, at), dataset, chunk, names))

get_chunk-at :
    (datasets : List Dataset) (r : ChunkRef) (c : Chunk)
    → get_chunk datasets r ≡ some c
    → (d : Dataset) × (get_elem? datasets r.dataset_index ≡ some d)
      × (get_elem? d.chunks r.chunk_index ≡ some c)
get_chunk-at datasets r c h = from (get_elem? datasets r.dataset_index) refl
  where
    from :
        (o : Option Dataset)
        → get_elem? datasets r.dataset_index ≡ o
        → (d : Dataset) × (get_elem? datasets r.dataset_index ≡ some d)
          × (get_elem? d.chunks r.chunk_index ≡ some c)
    from none e = absurd (unfold get_chunk in ground (arith, e, h))
    from (some d) e = (d, e, unfold get_chunk in ground (arith, e, h))

get_chunk-of :
    (datasets : List Dataset) (r : ChunkRef) (d : Dataset) (c : Chunk)
    → get_elem? datasets r.dataset_index ≡ some d
    → get_elem? d.chunks r.chunk_index ≡ some c
    → get_chunk datasets r ≡ some c
unfolding get_chunk
get_chunk-of datasets r d c at chunk =
    let inside = get_elem?-bound datasets r.dataset_index d at in
    let bound = get_elem?-bound d.chunks r.chunk_index c chunk in
    let t1 : ltb r.dataset_index (length datasets) ≡ true = ground (arith, inside) in
    let t2 : ltb r.chunk_index (length d.chunks) ≡ true = ground (arith, bound) in
    rw (t1, get_chunk, at, t2) chunk

-- With at most 2^32 datasets of at most 2^32 chunks each, `iter_chunks_with_ref` yields a
-- reference with a chunk exactly if `get_chunk` returns that chunk for the reference and the chunk
-- names the worker; `iter_chunks` yields the same chunks in the same order.
pub iter_chunks-refs_iff :
    (datasets : List Dataset) (w : ℕ)
    → All Fits datasets
    → length datasets ≤ u32_mod
    → ((r : ChunkRef) (c : Chunk)
        → Mem (r, c) (iter_chunks_with_ref datasets w)
          ↔ ((get_chunk datasets r ≡ some c) × Mem w c.worker_indexes))
      × (iter_chunks datasets w
          ≡ map (λ (p : ChunkRef × Chunk). p.1) (iter_chunks_with_ref datasets w))
unfolding iter_chunks_with_ref
iter_chunks-refs_iff datasets w a b = (
  λ r c.
      let is_ref = refs_from_iff 0 datasets w (r, c) a (omega (arith, b)) in
      (
        λ m.
            let (k, d, at, dataset, chunk, names) = is_ref.0 m in
            let same : r.dataset_index ≡ k = omega (arith, at) in
            (get_chunk-of datasets r d c (ap (get_elem? datasets) same ∙ dataset) chunk, names),
        λ (got, names).
            let (d, dataset, chunk) = get_chunk-at datasets r c got in
            is_ref.1 (r.dataset_index, d, omega arith, dataset, chunk, names),
      ),
  iter_chunks-refs 0 datasets w,
)
