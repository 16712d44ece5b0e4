-- ===== src/Assignments/Monolithic/Refs.antt =====
-- `Assignment::get_chunk`, and the iterators of `Worker` over the chunks that name it, in the
-- format of one file (crates/assignments/src/reader.rs). An iterator is the list of what it
-- yields.
pub mod Iteration
use sqd_network.Base.{
  ℕ, suc, ◌%◌, Option, none, some, List, [], ◌∷◌, ◌++◌, length, get_elem?, ltb, u32_mod,
  if◌then◌else◌,
}
use sqd_network.Assignments.Monolithic.{Chunk, Dataset}
use sqd_network.Assignments.Worker.Reader
use sqd_network.Assignments.Worker.Refs.{ChunkRef}

-- `get_chunk`, with its two early returns.
unfoldable pub get_chunk : List Dataset → ChunkRef → Option Chunk
get_chunk datasets r =
    if ltb r.dataset_index (length datasets)
    then elim (get_elem? datasets r.dataset_index) [
      | none ↦ none
      | some d ↦
          if ltb r.chunk_index (length d.chunks) then get_elem? d.chunks r.chunk_index else none
    ]
    else none

-- The filter within one dataset, without and with references from an index on, whose casts to
-- `u32` wrap.
unfoldable pub filter_chunks : List Chunk → ℕ → List Chunk
filter_chunks [] index = []
filter_chunks (c ∷ chunks) index =
    let rest = filter_chunks chunks index in
    if Reader.contains c.worker_indexes index then c ∷ rest else rest

unfoldable pub filter_refs : ℕ → ℕ → List Chunk → ℕ → List (ChunkRef × Chunk)
filter_refs d n [] index = []
filter_refs d n (c ∷ chunks) index =
    let rest = filter_refs d (suc n) chunks index in
    if Reader.contains c.worker_indexes index
    then (record { dataset_index = d % u32_mod; chunk_index = n % u32_mod }, c) ∷ rest
    else rest

-- `Worker::iter_chunks`.
unfoldable pub iter_chunks : List Dataset → ℕ → List Chunk
iter_chunks [] index = []
iter_chunks (d ∷ datasets) index = filter_chunks d.chunks index ++ iter_chunks datasets index

-- `Worker::iter_chunks_with_ref`, from the first dataset on.
unfoldable pub refs_from : ℕ → List Dataset → ℕ → List (ChunkRef × Chunk)
refs_from n [] index = []
refs_from n (d ∷ datasets) index =
    filter_refs n 0 d.chunks index ++ refs_from (suc n) datasets index

unfoldable pub iter_chunks_with_ref : List Dataset → ℕ → List (ChunkRef × Chunk)
iter_chunks_with_ref datasets index = refs_from 0 datasets index
