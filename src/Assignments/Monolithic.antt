-- ===== src/Assignments/Monolithic.antt =====
-- The lookups of `Assignment`, the format of one file for all (crates/assignments/src/reader.rs). A
-- comparison past the last chunk, which the search never makes, is `gt`.
pub mod Lookups
pub mod Timestamps
pub mod Builder
pub mod Refs
use sqd_network.Base.{
  ℕ, zero, suc, ◌+◌, Option, none, some, Ordering, compare, List, length, get_elem?, Outcome, ok,
  err, panic, ltb, ◌==◌, Bool, true, false, if◌then◌else◌,
}
use sqd_network.Base.Text.{Text}
use sqd_network.Assignments.Search.{Found, found, missing, binary_search_by}
use sqd_network.Assignments.Portal.Reader.{ChunkNotFound}

-- `assignment_fb::Chunk` and `assignment_fb::Dataset`; `files` is where the vector of file names that
-- several chunks may share stands in the buffer.
pub record Chunk : Type 0 where
  pub first_block : ℕ
  pub id : Text
  pub dataset_id : Text
  pub size : ℕ
  pub last_block_hash : Option Text
  pub last_block_timestamp : Option ℕ
  pub dataset_base_url : Text
  pub base_url : Text
  pub files : ℕ
  pub worker_indexes : List ℕ

pub record Dataset : Type 0 where
  pub id : Option Text
  pub last_block : ℕ
  pub chunks : List Chunk

unfoldable pub stamp : Dataset → ℕ → Option ℕ
stamp d i = elim (get_elem? d.chunks i) [ none ↦ none | some c ↦ c.last_block_timestamp ]

unfoldable pub unwrap_or_zero : Option ℕ → ℕ
unwrap_or_zero none = 0
unwrap_or_zero (some t) = t

unfoldable pub compare_block : Dataset → ℕ → ℕ → Ordering
compare_block d block i = elim (get_elem? d.chunks i) [
  | none ↦ Ordering.gt
  | some c ↦ compare c.first_block block
]

unfoldable pub compare_timestamp : Dataset → ℕ → ℕ → Ordering
unfolding unwrap_or_zero
compare_timestamp d ts i = elim (get_elem? d.chunks i) [
  | none ↦ Ordering.gt
  | some c ↦ compare (unwrap_or_zero c.last_block_timestamp) ts
]

-- `Assignment::find_chunk`, on what `get_dataset` found.
unfoldable pub find_chunk : Option Dataset → ℕ → Outcome ChunkNotFound ℕ
unfolding binary_search_by compare_block
find_chunk none block = err ChunkNotFound.unknown_dataset
find_chunk (some d) block =
    if ltb d.last_block block
    then err ChunkNotFound.after_last
    else elim (binary_search_by (length d.chunks) (compare_block d block)) [
      | found i ↦ ok i
      | missing (some i) ↦ ok i
      | missing none ↦ err ChunkNotFound.before_first
    ]

unfoldable pub has_stamp : Dataset → ℕ → ℕ → Bool
unfolding stamp
has_stamp d ts i = elim (stamp d i) [ none ↦ false | some t ↦ t == ts ]

-- The walk back from a chunk with the timestamp to the first of its run.
unfoldable pub walk_back : Dataset → ℕ → ℕ → ℕ
unfolding has_stamp
walk_back d ts zero = if has_stamp d ts 0 then 0 else 1
walk_back d ts (suc i) =
    let earlier = walk_back d ts i in if has_stamp d ts (suc i) then earlier else suc (suc i)

-- Where `find_chunk_by_timestamp` starts its walk.
unfoldable pub first_at_or_after : Dataset → Found → Outcome ChunkNotFound ℕ
first_at_or_after d (found i) = ok i
first_at_or_after d (missing (some i)) =
    if ltb (i + 1) (length d.chunks) then ok (i + 1) else err ChunkNotFound.after_last
first_at_or_after d (missing none) =
    if length d.chunks == 0 then err ChunkNotFound.after_last else ok 0

-- `Assignment::find_chunk_by_timestamp`, on what `get_dataset` found.
unfoldable pub find_chunk_by_timestamp : Option Dataset → ℕ → Outcome ChunkNotFound ℕ
unfolding binary_search_by compare_timestamp first_at_or_after walk_back
find_chunk_by_timestamp none ts = err ChunkNotFound.unknown_dataset
find_chunk_by_timestamp (some d) ts =
    elim (first_at_or_after d (binary_search_by (length d.chunks) (compare_timestamp d ts))) [
      | ok i ↦ if has_stamp d ts i then ok (walk_back d ts i) else ok i
      | err e ↦ err e
      | panic ↦ panic
    ]
