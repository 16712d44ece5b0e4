-- ===== src/Assignments/Portal/Reader.antt =====
-- `PortalChunk`, the dataset's accessors and the lookups of `PortalAssignment`
-- (crates/assignments/src/reader.rs). A `get` past the end of a vector is `none`, or a panic.
use sqd_network.Base.{
  ℕ, zero, suc, ◌+◌, ◌%◌, Bool, false, Option, none, some, List, length, get_elem?, min, ltb, leb,
  Outcome, ok, err, panic, ◌==◌, if◌then◌else◌, u64_mod, ◌%◌,
}
use sqd_network.Base.Text.{Text}
use sqd_network.DataChunk.{trim_nul}
use sqd_network.Assignments.Search.{partition_point}
use sqd_network.Assignments.Columns.{slice, top_at}
use sqd_network.Assignments.Portal.{Dataset}

unfoldable pub chunk_count : Dataset → ℕ
chunk_count d = length d.first_blocks

unfoldable pub chunk : Dataset → ℕ → Option ℕ
unfolding chunk_count
chunk d index = if ltb index (chunk_count d) then some index else none

unfoldable pub first_block : Dataset → ℕ → Option ℕ
first_block d i = get_elem? d.first_blocks i

unfoldable pub last_block : Dataset → ℕ → Option ℕ
unfolding first_block
last_block d i = elim (first_block d i) [
  | none ↦ none
  | some first ↦ elim (get_elem? d.block_deltas i) [
    | none ↦ none
    | some delta ↦ some ((first + delta) % u64_mod)
  ]
]

unfoldable pub last_block_timestamp : Dataset → ℕ → Option ℕ
last_block_timestamp d i = get_elem? d.timestamps i

unfoldable pub version : Dataset → ℕ → Option ℕ
version d i = elim d.versions [ none ↦ some 0 | some column ↦ get_elem? column i ]

unfoldable pub top : Dataset → ℕ → Option ℕ
top d i = top_at d.tops i

unfoldable pub hash : Dataset → ℕ → Option Text
hash d i = elim (get_elem? d.hashes i) [ none ↦ none | some bytes ↦ some (trim_nul bytes) ]

unfoldable pub worker_indexes : Dataset → ℕ → Option (List ℕ)
worker_indexes d i = elim (get_elem? d.worker_offsets i) [
  | none ↦ none
  | some start ↦ elim (get_elem? d.worker_offsets (suc i)) [
    | none ↦ none
    | some end ↦ some (slice d.worker_indexes start (min end (length d.worker_indexes)))
  ]
]

-- `ChunkNotFound`.
pub data ChunkNotFound : Type 0 where
  unknown_dataset after_last before_first in_gap : ChunkNotFound

-- `first_blocks.get(i) <= block`, and `timestamps.get(i) < ts`.
unfoldable pub begins_by : Dataset → ℕ → ℕ → Bool
begins_by d block i = elim (get_elem? d.first_blocks i) [
  | none ↦ false
  | some first ↦ leb first block
]

unfoldable pub older : Dataset → ℕ → ℕ → Bool
older d ts i = elim (get_elem? d.timestamps i) [ none ↦ false | some t ↦ ltb t ts ]

-- `expect` on the cursor.
unfoldable pub expect_chunk : Dataset → ℕ → Outcome ChunkNotFound ℕ
unfolding chunk
expect_chunk d index = elim (chunk d index) [ none ↦ panic | some i ↦ ok i ]

-- The end of `find_chunk`: the chunk's own end decides between it and a gap.
unfoldable pub within : Dataset → ℕ → ℕ → Outcome ChunkNotFound ℕ
unfolding last_block
within d block i = elim (last_block d i) [
  | none ↦ panic
  | some end ↦ if ltb end block then err ChunkNotFound.in_gap else ok i
]

-- `find_chunk`, on what `get_dataset` found.
unfoldable pub find_chunk : Option Dataset → ℕ → Outcome ChunkNotFound ℕ
unfolding partition_point begins_by expect_chunk within
find_chunk none block = err ChunkNotFound.unknown_dataset
find_chunk (some d) block =
    if ltb d.last_block block
    then err ChunkNotFound.after_last
    else elim (partition_point (length d.first_blocks) (begins_by d block)) [
      | zero ↦ err ChunkNotFound.before_first
      | suc index ↦ elim (expect_chunk d index) [
        | ok i ↦ within d block i
        | err e ↦ err e
        | panic ↦ panic
      ]
    ]

-- `find_chunk_by_timestamp`, on what `get_dataset` found.
unfoldable pub find_chunk_by_timestamp : Option Dataset → ℕ → Outcome ChunkNotFound ℕ
unfolding partition_point older expect_chunk chunk_count
find_chunk_by_timestamp none ts = err ChunkNotFound.unknown_dataset
find_chunk_by_timestamp (some d) ts =
    let index = partition_point (chunk_count d) (older d ts) in
    if index == chunk_count d then err ChunkNotFound.after_last else expect_chunk d index
