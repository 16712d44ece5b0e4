-- ===== src/Assignments/Worker.antt =====
-- `WorkerAssignmentBuilder` and its dataset and chunk builders (crates/assignments/src/builder.rs).
-- A method that takes `&mut self` returns the new builder beside its result, so that what it did
-- before an error stays visible. The flatbuffer tables that the builder creates are their argument
-- records (`WorkerAssignmentDatasetArgs` and its kin); peer ids are of any type `P`, and what
-- an entry says besides its peer id of any type `E`.
pub mod Rows
pub mod Staging
pub mod Tables
pub mod Urls
pub mod Refs
pub mod Fleet
pub mod Reader
pub mod ReadBack
pub mod Emission
use sqd_network.Base.{
  ℕ, ◌+◌, ◌%◌, Bool, true, false, ◌||◌, Option, none, some, List, [], ◌∷◌, ◌++◌, length, Outcome,
  ok, err, panic, leb, ◌==◌, if◌then◌else◌, u32_mod, u64_mod, Eq,
}
use sqd_network.Base.Text.{Text, text_eq, text_lt}
use sqd_network.Assignments.Columns.{AssignError, TopRun, push, push_top, check_top_runs, sub_u64}

abbrev pub Res : Type 0
Res = Outcome AssignError (Unit {0})

-- `WorkerDatasetColumns`.
pub record Columns : Type 0 where
  pub first_blocks : List ℕ
  pub block_deltas : List ℕ
  pub hashes : List Text
  pub tops : List TopRun
  pub sizes : List ℕ
  pub write_schema_ids : List ℕ
  pub versions : List ℕ
  pub tables_present : List ℕ
  pub tables_present_ends : List ℕ
  pub any_tables_trimmed : Bool
  pub worker_ends : List ℕ
  pub worker_indexes : List ℕ

abbrev pub no_columns : Columns
no_columns = record {
  first_blocks = [];
  block_deltas = [];
  hashes = [];
  tops = [];
  sizes = [];
  write_schema_ids = [];
  versions = [];
  tables_present = [];
  tables_present_ends = [];
  any_tables_trimmed = false;
  worker_ends = [];
  worker_indexes = [];
}

-- `WorkerAssignmentDataset`, as its arguments; `None` leaves a column out.
pub record Dataset : Type 0 where
  pub id : Text
  pub last_block : ℕ
  pub base_url : Text
  pub generations : Option (List (ℕ × Text))
  pub first_blocks : List ℕ
  pub block_deltas : List ℕ
  pub hashes : List Text
  pub tops : List TopRun
  pub sizes : List ℕ
  pub write_schema_ids : List ℕ
  pub tables_present_offsets : Option (List ℕ)
  pub tables_present : Option (List ℕ)
  pub versions : Option (List ℕ)
  pub worker_offsets : List ℕ
  pub worker_indexes : List ℕ

-- `WorkerAssignmentBuilder`, less its cryptographic state.
pub record Builder (P E : Type 0) : Type 0 where
  pub last_block : Option ℕ
  pub all_datasets : List Dataset
  pub worker_entries : List (Text × E)
  pub last_peer_id : Option P
  pub check_continuity : Bool
  pub write_schemas : List (ℕ × List Text)
  pub current_generations : List (ℕ × Text)
  pub columns : Columns
  pub staged_worker_indexes : List ℕ
  pub staged_tables_present : List ℕ

-- `PushChunk`, its range split.
pub record PushChunk : Type 0 where
  pub top : ℕ
  pub range_start : ℕ
  pub range_end : ℕ
  pub hash : Text
  pub size : ℕ
  pub write_schema_id : ℕ
  pub version : ℕ

-- A `BTreeMap` keyed by `u32`: an association list in key order.
unfoldable pub btree_get : {V : Type 0} → ℕ → List (ℕ × V) → Option V
btree_get k [] = none
btree_get k ((j, v) ∷ m) = if k == j then some v else btree_get k m

unfoldable pub btree_insert : {V : Type 0} → ℕ → V → List (ℕ × V) → List (ℕ × V)
btree_insert k v [] = (k, v) ∷ []
btree_insert k v ((j, w) ∷ m) =
    if k == j
    then (k, v) ∷ m
    else if leb k j
    then (k, v) ∷ (j, w) ∷ m
    else (j, w) ∷ btree_insert k v m

-- The match on `self.last_block` in both `push_chunk`s; `last + 1` wraps at 64 bits.
unfoldable pub continuity : Option ℕ → ℕ → Res
continuity none start = ok tt
continuity (some last) start =
    if (last + 1) % u64_mod == start then ok tt else err AssignError.not_contiguous

abbrev pub is_err : Res → Bool
is_err (ok _) = false
is_err _ = true

abbrev pub is_empty {ℓ} : {A : Type ℓ} → List A → Bool
is_empty [] = true
is_empty (x ∷ xs) = false

-- `push_bitmap`; the end is cast to `u32`.
unfoldable pub push_bitmap : Columns → List ℕ → Columns
push_bitmap c bits =
    let bytes = c.tables_present ++ bits in
    record c {
      tables_present = bytes;
      tables_present_ends = push c.tables_present_ends (length bytes % u32_mod);
    }

-- The pushes of `push_chunk`, up to the conversion of the worker end.
unfoldable pub push_row : Columns → PushChunk → ℕ → List ℕ → List ℕ → Columns
unfolding push_bitmap push_top
push_row c chunk delta bits workers =
    let c' =
      push_bitmap
        (record c {
          tops = push_top c.tops (length c.first_blocks) chunk.top;
          first_blocks = push c.first_blocks chunk.range_start;
          block_deltas = push c.block_deltas delta;
          hashes = push c.hashes chunk.hash;
          sizes = push c.sizes chunk.size;
          write_schema_ids = push c.write_schema_ids chunk.write_schema_id;
          versions = push c.versions chunk.version;
          any_tables_trimmed = c.any_tables_trimmed || (if is_empty bits then false else true);
        })
        bits in
    record c' { worker_indexes = c'.worker_indexes ++ workers }

-- `create_generations`: `None` where none is registered.
unfoldable pub create_generations : List (ℕ × Text) → Option (List (ℕ × Text))
create_generations [] = none
create_generations (g ∷ gs) = some (g ∷ gs)

-- `versions.iter().any(|&version| version != 0)`.
unfoldable pub any_versioned : List ℕ → Bool
any_versioned [] = false
any_versioned (v ∷ vs) = if v == 0 then any_versioned vs else true

-- The table that `emit_dataset` creates from the columns.
unfoldable pub to_dataset : Text → Text → ℕ → List (ℕ × Text) → Columns → Dataset
unfolding create_generations any_versioned
to_dataset id base_url last generations c = record {
  id = id;
  last_block = last;
  base_url = base_url;
  generations = create_generations generations;
  first_blocks = c.first_blocks;
  block_deltas = c.block_deltas;
  hashes = c.hashes;
  tops = c.tops;
  sizes = c.sizes;
  write_schema_ids = c.write_schema_ids;
  tables_present_offsets = if c.any_tables_trimmed then some (0 ∷ c.tables_present_ends) else none;
  tables_present = if c.any_tables_trimmed then some c.tables_present else none;
  versions = if any_versioned c.versions then some c.versions else none;
  worker_offsets = 0 ∷ c.worker_ends;
  worker_indexes = c.worker_indexes;
}

module _ {P E : Type 0} where
  -- The end of `push_chunk`: the worker end is converted, and the chunk becomes the last one.
  unfoldable pub close_row : Builder P E → Columns → ℕ → Res → Builder P E × Res
  close_row b c end result =
      if leb u32_mod (length c.worker_indexes)
      then (record b { columns = c }, err AssignError.too_many_worker_refs)
      else (
        record b {
          columns = record c { worker_ends = push c.worker_ends (length c.worker_indexes) };
          last_block = some end;
        },
        result,
      )

  -- `push_chunk`. With the check off, a gap still appends and only reports.
  unfoldable pub push_chunk : Builder P E → PushChunk → Builder P E × Res
  unfolding continuity close_row
  push_chunk b chunk =
      let result = continuity b.last_block chunk.range_start in
      let delta = sub_u64 chunk.range_end chunk.range_start in
      if (if is_err result then b.check_continuity else false)
      then (b, result)
      else if leb u32_mod (length b.columns.first_blocks)
      then (b, err AssignError.too_many_chunks)
      else if leb u32_mod delta
      then (b, err AssignError.chunk_too_long)
      else close_row b
          (push_row b.columns chunk delta b.staged_tables_present b.staged_worker_indexes)
          chunk.range_end result

  -- `discard_dataset`.
  unfoldable pub discard_dataset : Builder P E → Builder P E
  discard_dataset b = record b { columns = no_columns; last_block = none; current_generations = [] }

  -- `emit_dataset`; `expect` on the last block is the panic.
  unfoldable pub emit_dataset : Builder P E → Text → Text → Builder P E × Res
  emit_dataset b id base_url =
      if length b.columns.first_blocks == 0
      then (b, err AssignError.no_chunks)
      else elim (check_top_runs b.columns.tops) [
        | ok _ ↦ elim b.last_block [
          | none ↦ (record b { columns = no_columns }, panic)
          | some last ↦ (
            record b {
              all_datasets =
                  push b.all_datasets (to_dataset id base_url last b.current_generations b.columns);
              columns = no_columns;
              last_block = none;
              current_generations = [];
            },
            ok tt,
          )
        ]
        | err e ↦ (b, err e)
        | panic ↦ (b, panic)
      ]

  -- `WorkerDatasetBuilder::finish`, and its `drop` where `finish` was never called. A panic skips
  -- the discard.
  unfoldable pub finish_dataset : Builder P E → Text → Text → Builder P E × Res
  unfolding discard_dataset
  finish_dataset b id base_url =
      let (b', result) = emit_dataset b id base_url in
      elim result [ ok _ ↦ (b', ok tt) | err e ↦ (discard_dataset b', err e) | panic ↦ (b', panic) ]
