-- ===== src/Assignments/Portal.antt =====
-- `PortalAssignmentBuilder` and its dataset and chunk builders (crates/assignments/src/builder.rs),
-- modelled as the worker's: a method returns the new builder beside its result.
pub mod Reader
pub mod Rows
pub mod Emission
pub mod Contiguous
pub mod Timestamps
pub mod Workers
pub mod Routing
pub mod ReadBack
pub mod Finding
use sqd_network.Base.{
  ℕ, ◌+◌, ◌%◌, Bool, true, false, ◌&&◌, Option, none, some, List, [], ◌∷◌, ◌++◌, length, Outcome,
  ok, err, panic, leb, ◌==◌, if◌then◌else◌, u32_mod,
}
use sqd_network.Base.Text.{Text}
use sqd_network.Base.Order.{Ord, before}
use sqd_network.DataChunk.{DataChunk}
use sqd_network.Assignments.Entries.{PeerText, worker_id_from}
use sqd_network.Assignments.Columns.{AssignError, TopRun, push, push_top, check_top_runs, sub_u64}
use sqd_network.Assignments.Worker.{Res, continuity, is_err, any_versioned}
use sqd_network.Assignments.Worker.Staging.{chunk_hash}

-- `PortalDatasetColumns`.
pub record Columns : Type 0 where
  pub first_blocks : List ℕ
  pub block_deltas : List ℕ
  pub hashes : List Text
  pub tops : List TopRun
  pub timestamps : List ℕ
  pub versions : List ℕ
  pub worker_ends : List ℕ
  pub worker_indexes : List ℕ

abbrev pub no_columns : Columns
no_columns = record {
  first_blocks = [];
  block_deltas = [];
  hashes = [];
  tops = [];
  timestamps = [];
  versions = [];
  worker_ends = [];
  worker_indexes = [];
}

-- `PortalAssignmentDataset`, as its arguments.
pub record Dataset : Type 0 where
  pub id : Text
  pub last_block : ℕ
  pub read_schema_id : ℕ
  pub last_block_hash : Option Text
  pub first_blocks : List ℕ
  pub block_deltas : List ℕ
  pub hashes : List Text
  pub tops : List TopRun
  pub timestamps : List ℕ
  pub versions : Option (List ℕ)
  pub worker_offsets : List ℕ
  pub worker_indexes : List ℕ

-- `PortalAssignmentBuilder`; peer ids are of any type `P`, statuses of any type `S`.
pub record Builder (P S : Type 0) : Type 0 where
  pub last_block : Option ℕ
  pub all_datasets : List Dataset
  pub worker_entries : List (Text × S)
  pub last_peer_id : Option P
  pub check_continuity : Bool
  pub columns : Columns
  pub staged_worker_indexes : List ℕ

-- The arguments of `push_chunk`, the range split.
pub record Chunk : Type 0 where
  pub top : ℕ
  pub range_start : ℕ
  pub range_end : ℕ
  pub hash : Text
  pub version : ℕ
  pub timestamp : ℕ

-- `PortalAssignmentChunkBuilder`.
pub record ChunkBuilder : Type 0 where
  pub block_range : Option (ℕ × ℕ)
  pub id : Option DataChunk
  pub version : ℕ
  pub last_block_timestamp : ℕ

-- The pushes of `push_chunk`, up to the conversion of the worker end.
unfoldable pub push_row : Columns → Chunk → ℕ → List ℕ → Columns
unfolding push_top
push_row c chunk delta workers = record c {
  tops = push_top c.tops (length c.first_blocks) chunk.top;
  first_blocks = push c.first_blocks chunk.range_start;
  block_deltas = push c.block_deltas delta;
  hashes = push c.hashes chunk.hash;
  versions = push c.versions chunk.version;
  timestamps = push c.timestamps chunk.timestamp;
  worker_indexes = c.worker_indexes ++ workers;
}

-- The table that `emit_dataset` creates from the columns.
unfoldable pub to_dataset : Text → ℕ → Option Text → ℕ → Columns → Dataset
unfolding any_versioned
to_dataset id read_schema_id hash last c = record {
  id = id;
  last_block = last;
  read_schema_id = read_schema_id;
  last_block_hash = hash;
  first_blocks = c.first_blocks;
  block_deltas = c.block_deltas;
  hashes = c.hashes;
  tops = c.tops;
  timestamps = c.timestamps;
  versions = if any_versioned c.versions then some c.versions else none;
  worker_offsets = 0 ∷ c.worker_ends;
  worker_indexes = c.worker_indexes;
}

module _ {P S : Type 0} where
  -- The end of `push_chunk`: the worker end is converted, and the chunk becomes the last one.
  unfoldable pub close_row : Builder P S → Columns → ℕ → Res → Builder P S × Res
  close_row b c end result =
      if leb u32_mod (length c.worker_indexes)
      then (record b { columns = c }, err AssignError.too_many_worker_refs)
      else (
        record b {
          columns = record c { worker_ends = push c.worker_ends (length c.worker_indexes) };
          last_block = some end;
        },
        result,
      )

  -- `push_chunk`. With the check off, a gap still appends and only reports.
  unfoldable pub push_chunk : Builder P S → Chunk → Builder P S × Res
  unfolding continuity close_row
  push_chunk b chunk =
      let result = continuity b.last_block chunk.range_start in
      let delta = sub_u64 chunk.range_end chunk.range_start in
      if (if is_err result then b.check_continuity else false)
      then (b, result)
      else if leb u32_mod (length b.columns.first_blocks)
      then (b, err AssignError.too_many_chunks)
      else if leb u32_mod delta
      then (b, err AssignError.chunk_too_long)
      else close_row b (push_row b.columns chunk delta b.staged_worker_indexes) chunk.range_end
          result

  -- `PortalAssignmentChunkBuilder::new`.
  unfoldable pub new_chunk : Builder P S → Builder P S
  new_chunk b = record b { staged_worker_indexes = [] }

  -- `PortalAssignmentChunkBuilder::worker_indexes`.
  unfoldable pub worker_indexes : Builder P S → List ℕ → Builder P S
  worker_indexes b indexes = record b { staged_worker_indexes = indexes }

  -- `PortalAssignmentChunkBuilder::finish`.
  unfoldable pub finish_chunk : Builder P S → ChunkBuilder → Builder P S × Res
  finish_chunk b c = elim c.block_range [
    | none ↦ (b, panic)
    | some (start, end) ↦ elim c.id [
      | none ↦ (b, err AssignError.id_unset)
      | some id ↦
          if id.first_block == start && id.last_block == end
          then push_chunk b (record {
            top = id.top;
            range_start = start;
            range_end = end;
            hash = chunk_hash id;
            version = c.version;
            timestamp = c.last_block_timestamp;
          })
          else (b, err AssignError.id_mismatch)
    ]
  ]

  -- `discard_dataset`.
  unfoldable pub discard_dataset : Builder P S → Builder P S
  discard_dataset b = record b { columns = no_columns; last_block = none }

  -- `emit_dataset`; `expect` on the last block is the panic.
  unfoldable pub emit_dataset : Builder P S → Text → ℕ → Option Text → Builder P S × Res
  emit_dataset b id read_schema_id hash =
      if length b.columns.first_blocks == 0
      then (b, err AssignError.no_chunks)
      else elim (check_top_runs b.columns.tops) [
        | ok _ ↦ elim b.last_block [
          | none ↦ (record b { columns = no_columns }, panic)
          | some last ↦ (
            record b {
              all_datasets = push b.all_datasets (to_dataset id read_schema_id hash last b.columns);
              columns = no_columns;
              last_block = none;
            },
            ok tt,
          )
        ]
        | err e ↦ (b, err e)
        | panic ↦ (b, panic)
      ]

  -- `PortalDatasetBuilder::finish`; a panic skips the discard.
  unfoldable pub finish_dataset : Builder P S → Text → ℕ → Option Text → Builder P S × Res
  unfolding discard_dataset
  finish_dataset b id read_schema_id hash =
      let (b', result) = emit_dataset b id read_schema_id hash in
      elim result [ ok _ ↦ (b', ok tt) | err e ↦ (discard_dataset b', err e) | panic ↦ (b', panic) ]

module _ {P S : Type 0} ⦃o : Ord P⦄ (t : PeerText P) (checked : Bool) where
  -- `add_worker`; its `assert!` and `WorkerId::from` panic.
  unfoldable pub add_worker : Builder P S → P → S → Outcome AssignError (Builder P S)
  unfolding worker_id_from
  add_worker b id status =
      let added : Outcome AssignError (Builder P S) = elim (worker_id_from t checked id) [
        | none ↦ panic
        | some worker_id ↦ ok (record b {
          last_peer_id = some id;
          worker_entries = push b.worker_entries (worker_id, status);
        })
      ] in
      elim b.last_peer_id [ none ↦ added | some last ↦ if before last id then added else panic ]
