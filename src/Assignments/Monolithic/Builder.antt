-- ===== src/Assignments/Monolithic/Builder.antt =====
-- `AssignmentBuilder` and its `ChunkBuilder` (crates/assignments/src/builder.rs), which write the
-- format of one file. A table whose required field is missing is a panic, as flatbuffers has it.
-- The vectors of file names in the buffer are `file_lists`, and an offset of one is its place
-- there.
pub mod Rows
pub mod Staging
use sqd_network.Base.{
  ℕ, zero, suc, ◌+◌, ◌≡◌, Bool, true, false, ◌&&◌, ◌||◌, not, Option, none, some, List, [], ◌∷◌,
  length, get_elem?, Outcome, ok, err, panic, ◌>>=◌, if◌then◌else◌, ◌==◌, u32_mod,
}
use sqd_network.Base.Order.{Ord}
use sqd_network.Base.Text.{Text}
use sqd_network.DataChunk.{DataChunk, display}
use sqd_network.Assignments.Columns.{AssignError, push}
use sqd_network.Assignments.Worker.{Res, continuity, is_err}
use sqd_network.Assignments.Worker.Staging.{same_texts}
use sqd_network.Assignments.Entries.{PeerText, worker_id_from}
use sqd_network.Assignments.Worker.Fleet.{
  WorkerStatus, WorkerEntry, EncryptedHeaders, Sealer, Crypto, generate_encrypted_headers, follows,
  status_to_fb,
}
use sqd_network.Assignments.Monolithic.{Chunk, Dataset}

-- `AssignmentBuilder`, less its cryptographic state.
pub record Builder (P : Type 0) : Type 0 where
  pub files_list_offsets : List (List Text × ℕ)
  pub file_lists : List (List Text)
  pub all_chunks : List Chunk
  pub last_block : Option ℕ
  pub current_chunks : List Chunk
  pub current_dataset_id_offset : Option Text
  pub all_datasets : List Dataset
  pub worker_assignments : List (Text × WorkerEntry)
  pub last_peer_id : Option P
  pub check_continuity : Bool

-- `ChunkBuilder`.
pub record ChunkBuilder : Type 0 where
  pub block_range : Option (ℕ × ℕ)
  pub id : Option Text
  pub dataset_id : Option Text
  pub size : Option ℕ
  pub last_block_hash : Option Text
  pub last_block_timestamp : Option ℕ
  pub dataset_base_url : Option Text
  pub files : Option ℕ
  pub worker_indexes : Option (List ℕ)

-- `ChunkBuilder::new`.
abbrev pub new_chunk : ChunkBuilder
new_chunk = record {
  block_range = none;
  id = none;
  dataset_id = none;
  size = none;
  last_block_hash = none;
  last_block_timestamp = none;
  dataset_base_url = none;
  files = none;
  worker_indexes = none;
}

-- `HashMap::get` and `insert`, the latter where the key is absent.
unfoldable pub offset_of : List Text → List (List Text × ℕ) → Option ℕ
unfolding same_texts
offset_of files [] = none
offset_of files ((known, offset) ∷ offsets) =
    if same_texts known files then some offset else offset_of files offsets

-- `Option::expect`, and a required field of a table.
unfoldable pub expect {ℓ} : {A : Type ℓ} → Option A → Outcome AssignError A
expect none = panic
expect (some a) = ok a

-- The setters of `ChunkBuilder`.
unfoldable pub set_id : ChunkBuilder → DataChunk → ChunkBuilder
unfolding display
set_id c id = record c { id = some (display id) }

unfoldable pub set_dataset_id : ChunkBuilder → Text → ChunkBuilder
set_dataset_id c dataset_id = record c { dataset_id = some dataset_id }

unfoldable pub set_block_range : ChunkBuilder → ℕ × ℕ → ChunkBuilder
set_block_range c range = record c { block_range = some range }

unfoldable pub set_size : ChunkBuilder → ℕ → ChunkBuilder
set_size c size = record c { size = some size }

unfoldable pub set_last_block_hash : ChunkBuilder → Text → ChunkBuilder
set_last_block_hash c hash = record c { last_block_hash = some hash }

unfoldable pub set_last_block_timestamp : ChunkBuilder → ℕ → ChunkBuilder
set_last_block_timestamp c timestamp = record c { last_block_timestamp = some timestamp }

unfoldable pub set_dataset_base_url : ChunkBuilder → Text → ChunkBuilder
set_dataset_base_url c url = record c { dataset_base_url = some url }

unfoldable pub set_worker_indexes : ChunkBuilder → List ℕ → ChunkBuilder
set_worker_indexes c indexes = record c { worker_indexes = some indexes }

-- The table that `ChunkBuilder::finish` creates.
unfoldable pub create_chunk : ChunkBuilder → ℕ → Outcome AssignError Chunk
unfolding expect
create_chunk c start = do
  size ← expect c.size
  id ← expect c.id
  dataset_id ← expect c.dataset_id
  dataset_base_url ← expect c.dataset_base_url
  files ← expect c.files
  worker_indexes ← expect c.worker_indexes
  ok (record {
    first_block = start;
    id = id;
    dataset_id = dataset_id;
    size = size;
    last_block_hash = c.last_block_hash;
    last_block_timestamp = c.last_block_timestamp;
    dataset_base_url = dataset_base_url;
    base_url = id;
    files = files;
    worker_indexes = worker_indexes;
  })

module _ {P : Type 0} where
  -- `cache_files_list`.
  unfoldable pub cache_files_list : Builder P → List Text → Builder P × ℕ
  unfolding offset_of
  cache_files_list b files = elim (offset_of files b.files_list_offsets) [
    | some offset ↦ (b, offset)
    | none ↦
        let offset = length b.file_lists in
        (
          record b {
            file_lists = push b.file_lists files;
            files_list_offsets = (files, offset) ∷ b.files_list_offsets;
          },
          offset,
        )
  ]

  unfoldable pub set_files : Builder P → ChunkBuilder → List Text → Builder P × ChunkBuilder
  unfolding cache_files_list
  set_files b c files =
      let (b', offset) = cache_files_list b files in (b', record c { files = some offset })

  -- `add_chunk`. With the check off, a gap still appends and only reports.
  unfoldable pub add_chunk : Builder P → Chunk → Text → ℕ × ℕ → Builder P × Res
  unfolding continuity
  add_chunk b offset dataset (start, end) =
      let result = continuity b.last_block start in
      if not (is_err result) || not b.check_continuity
      then (
        record b {
          all_chunks = push b.all_chunks offset;
          last_block = some end;
          current_chunks = push b.current_chunks offset;
          current_dataset_id_offset = some dataset;
        },
        result,
      )
      else (b, result)

  -- `ChunkBuilder::finish`.
  unfoldable pub finish_chunk : Builder P → ChunkBuilder → Builder P × Res
  unfolding create_chunk add_chunk
  finish_chunk b c = elim c.block_range [
    | none ↦ (b, panic)
    | some (start, end) ↦ elim (create_chunk c start) [
      | ok chunk ↦ add_chunk b chunk chunk.dataset_id (start, end)
      | err e ↦ (b, err e)
      | panic ↦ (b, panic)
    ]
  ]

  -- `finish_dataset`; `expect` on the last block is the panic, which nothing of the builder survives.
  unfoldable pub finish_dataset : Builder P → Outcome AssignError (Builder P)
  unfolding expect
  finish_dataset b = expect b.last_block >>= λ last. ok (record b {
    all_datasets =
        push b.all_datasets (record {
          id = b.current_dataset_id_offset;
          last_block = last;
          chunks = b.current_chunks;
        });
    current_dataset_id_offset = none;
    last_block = none;
    current_chunks = [];
  })

-- The root table, `Assignment`.
pub record Assignment : Type 0 where
  pub datasets : List Dataset
  pub workers : List (Text × WorkerEntry)

-- `finish`.
unfoldable pub finish : {P : Type 0} → Builder P → Assignment
finish b = record { datasets = b.all_datasets; workers = b.worker_assignments }

module _ {P R : Type 0} ⦃o : Ord P⦄ (y : Crypto R) (t : PeerText P) (checked : Bool) where
  -- `add_worker_with_timestamp`. The identity was written when the builder was made, which a `Sealer`
  -- with its identity says.
  unfoldable pub add_worker_with_timestamp :
      Builder P → Sealer R → P → WorkerStatus → ℕ → Outcome AssignError (Builder P × Sealer R)
  unfolding follows status_to_fb generate_encrypted_headers worker_id_from
  add_worker_with_timestamp b s id status timestamp =
      let (s', headers) = generate_encrypted_headers y t s id timestamp in
      if follows b.last_peer_id id
      then elim (worker_id_from t checked id) [
        | none ↦ panic
        | some worker_id ↦ ok (
          record b {
            last_peer_id = some id;
            worker_assignments =
                push b.worker_assignments
                  (worker_id, record { status = status_to_fb status; encrypted_headers = headers });
          },
          s',
        )
      ]
      else panic
