-- ===== src/Assignments/Worker/Refs.antt =====
-- Chunks by reference (crates/assignments/src/reader.rs): `ChunkRef`, `get_dataset_by_ref`,
-- `get_chunk`, `chunk_url`, and the iterators of `AssignedWorker`. A chunk is its dataset and its
-- index there, and an iterator the list of what it yields, `none` where it panics on the way.
pub mod Holdings
pub mod Iteration
use sqd_network.Base.{
  ℕ, suc, ◌%◌, Option, none, some, List, [], ◌∷◌, ◌++◌, map, length, get_elem?, ltb, u32_mod,
  if◌then◌else◌,
}
use sqd_network.Base.Text.{Text}
use sqd_network.Assignments.Worker.{Dataset}
use sqd_network.Assignments.Worker.Reader
use sqd_network.Assignments.Worker.Urls.{url}

-- `ChunkRef`.
pub record ChunkRef : Type 0 where
  pub dataset_index : ℕ
  pub chunk_index : ℕ

-- `WorkerChunk`.
abbrev pub WorkerChunk : Type 0
WorkerChunk = Dataset × ℕ

-- `get_dataset_by_ref`.
unfoldable pub get_dataset_by_ref : List Dataset → ChunkRef → Option Dataset
get_dataset_by_ref datasets r =
    if ltb r.dataset_index (length datasets) then get_elem? datasets r.dataset_index else none

-- `get_chunk`.
unfoldable pub get_chunk : List Dataset → ChunkRef → Option WorkerChunk
get_chunk datasets r = elim (get_dataset_by_ref datasets r) [
  | none ↦ none
  | some d ↦ elim (Reader.chunk d r.chunk_index) [ none ↦ none | some i ↦ some (d, i) ]
]

-- `chunk_url`.
unfoldable pub chunk_url :
    (List (ℕ × Text) → ℕ → Option (ℕ × Text)) → List Dataset → ChunkRef → Option (Option Text)
chunk_url lookup_by_key datasets r = elim (get_chunk datasets r) [
  | none ↦ some none
  | some (d, i) ↦ url lookup_by_key d i
]

-- `iter_chunks_with_ref`, over the datasets from an index on; both indexes are cast to `u32`.
unfoldable pub refs_from : ℕ → List Dataset → ℕ → Option (List (ChunkRef × WorkerChunk))
refs_from n [] index = some []
refs_from n (d ∷ datasets) index =
    let rest = refs_from (suc n) datasets index in
    elim (Reader.holdings d index) [
      | none ↦ none
      | some held ↦ elim rest [
        | none ↦ none
        | some more ↦ some (
            map (λ i. (record { dataset_index = n % u32_mod; chunk_index = i }, (d, i))) held
            ++ more)
      ]
    ]

unfoldable pub iter_chunks_with_ref : List Dataset → ℕ → Option (List (ChunkRef × WorkerChunk))
iter_chunks_with_ref datasets index = refs_from 0 datasets index

-- `iter_chunks_with_dataset`.
unfoldable pub iter_chunks_with_dataset : List Dataset → ℕ → Option (List (Dataset × WorkerChunk))
iter_chunks_with_dataset [] index = some []
iter_chunks_with_dataset (d ∷ datasets) index =
    let rest = iter_chunks_with_dataset datasets index in
    elim (Reader.holdings d index) [
      | none ↦ none
      | some held ↦ elim rest [
        | none ↦ none
        | some more ↦ some (map (λ i. (d, (d, i))) held ++ more)
      ]
    ]

-- `iter_chunks`.
unfoldable pub iter_chunks : List Dataset → ℕ → Option (List WorkerChunk)
iter_chunks datasets index = elim (iter_chunks_with_dataset datasets index) [
  | none ↦ none
  | some chunks ↦ some (map (λ p. p.1) chunks)
]
