-- ===== src/Tests/Names.antt =====
-- The id and the url of a chunk of a dataset with one generation, and the chunks of a worker by
-- reference.
use sqd_network.Base.{
  ℕ, ◌≡◌, ◌↔◌, Mem, refl, Option, none, some, List, [], ◌∷◌, ok, arith, inr, true,
}
use sqd_network.Base.Text.{Text}
use sqd_network.DataChunk
use sqd_network.DataChunk.{DataChunk, display}
use sqd_network.Assignments.Columns.{top_at}
use sqd_network.Assignments.Worker.{Builder, Dataset, no_columns, btree_get, create_generations}
use sqd_network.Assignments.Worker.Reader
use sqd_network.Assignments.Worker.Rows.{Row}
use sqd_network.Assignments.Worker.Emission.{ReadsAs}
use sqd_network.Assignments.Worker.Staging.{ChunkBuilder, Accepted, chunk_hash, bitmap_matches}
use sqd_network.Assignments.Columns.Checks.{check_columns}
use sqd_network.Assignments.Loading.{worker_from_owned}
use sqd_network.Assignments.Worker.Refs.{ChunkRef, WorkerChunk, get_chunk, iter_chunks_with_ref}
use sqd_network.Assignments.Worker.Refs.Holdings.{Names}
use sqd_network.Assignments.Worker.Refs.Iteration.{iter_chunks_with_ref_iff}
use sqd_network.Assignments.Worker.Urls.{id, url}
use sqd_network.Assignments.Worker.Urls.Naming.{KeyLookup, keys_ascend, Located, chunk_named}

abbrev named : DataChunk
named = record {
  top = 100;
  first_block = 100;
  last_block = 199;
  last_hash_bytes = 97 ∷ 98 ∷ 95 ∷ 100 ∷ 101 ∷ 0 ∷ 0 ∷ 0 ∷ [];
}

named_runs : DataChunk.new 100 100 199 (97 ∷ 98 ∷ 95 ∷ 100 ∷ 101 ∷ []) ≡ some named
unfolding DataChunk.new DataChunk.all_word DataChunk.pad_hash
named_runs = refl

abbrev row : Row
row = record {
  chunk = record {
    top = 100;
    range_start = 100;
    range_end = 199;
    hash = 97 ∷ 98 ∷ 95 ∷ 100 ∷ 101 ∷ 0 ∷ 0 ∷ 0 ∷ [];
    size = 7;
    write_schema_id = 1;
    version = 2;
  };
  bits = [];
  workers = 3 ∷ 5 ∷ [];
}

abbrev builder : Builder ℕ ℕ
builder = record {
  last_block = none;
  all_datasets = [];
  worker_entries = [];
  last_peer_id = none;
  check_continuity = true;
  write_schemas = (1, []) ∷ [];
  current_generations = (2, 47 ∷ 103 ∷ []) ∷ [];
  columns = no_columns;
  staged_worker_indexes = [];
  staged_tables_present = [];
}

abbrev built : ChunkBuilder
built = record {
  block_range = some (100, 199);
  id = some named;
  size = some 7;
  version = 2;
  write_schema_id = some 1;
  tables_present = none;
}

abbrev dataset : Dataset
dataset = record {
  id = 100 ∷ [];
  last_block = 199;
  base_url = 98 ∷ [];
  generations = some ((2, 47 ∷ 103 ∷ []) ∷ []);
  first_blocks = 100 ∷ [];
  block_deltas = 99 ∷ [];
  hashes = (97 ∷ 98 ∷ 95 ∷ 100 ∷ 101 ∷ 0 ∷ 0 ∷ 0 ∷ []) ∷ [];
  tops = record { first_chunk_index = 0; top = 100 } ∷ [];
  sizes = 7 ∷ [];
  write_schema_ids = 1 ∷ [];
  tables_present_offsets = none;
  tables_present = none;
  versions = some (2 ∷ []);
  worker_offsets = 0 ∷ 2 ∷ [];
  worker_indexes = 3 ∷ 5 ∷ [];
}

program : Unit {0}
unfolding Reader.first_block Reader.last_block Reader.top Reader.hash Reader.size
    Reader.write_schema_id Reader.version Reader.tables_present Reader.some_bits
    Reader.worker_indexes DataChunk.trim_nul top_at chunk_hash bitmap_matches btree_get
    create_generations keys_ascend DataChunk.pad_hash DataChunk.last_hash
program = tt

accepted : Accepted builder built row.chunk
unfolding program
accepted = record {
  id = named;
  id_set = refl;
  start_named = refl;
  end_named = refl;
  range_set = refl;
  top_named = refl;
  hash_named = refl;
  size_set = refl;
  schema_set = refl;
  schema_registered = refl;
  version_set = refl;
  generation_registered = inr refl;
  bitmap_for_schema = refl;
}

row_reads : ReadsAs dataset 0 row
unfolding program
row_reads = record {
  first_block = refl;
  last_block = refl;
  top = refl;
  hash = refl;
  size = refl;
  write_schema_id = refl;
  version = refl;
  tables_present = refl;
  worker_indexes = refl;
}

-- A lookup that walks the entries.
walk : List (ℕ × Text) → ℕ → Option (ℕ × Text)
walk entries k = elim (btree_get k entries) [ none ↦ none | some v ↦ some (k, v) ]

walk_finds :
    (entries : List (ℕ × Text)) (k : ℕ) (v : Text)
    → btree_get k entries ≡ some v
    → walk entries k ≡ some (k, v)
unfolding walk
walk_finds entries k v h = rw (h, walk) refl

walk_misses :
    (entries : List (ℕ × Text)) (k : ℕ) → btree_get k entries ≡ none → walk entries k ≡ none
unfolding walk
walk_misses entries k h = rw (h, walk) refl

abbrev walking : KeyLookup
walking = record {
  lookup_by_key = walk;
  lookup_by_key_finds = λ entries k v _ h. walk_finds entries k v h;
  lookup_by_key_misses = λ entries k _ h. walk_misses entries k h;
}

same_generations : dataset.generations ≡ create_generations builder.current_generations
unfolding program
same_generations = refl

in_order : keys_ascend builder.current_generations ≡ true
unfolding program
in_order = refl

chunk_named_example :
    (id dataset 0 ≡ some (display accepted.id))
    × (o : Option Text) × (url walk dataset 0 ≡ some o)
    × Located dataset.base_url builder.current_generations row.version (display accepted.id) o
chunk_named_example =
    chunk_named walking builder built dataset 0 row accepted 100 100 199
      (97 ∷ 98 ∷ 95 ∷ 100 ∷ 101 ∷ []) (unfold accepted in named_runs) row_reads same_generations
      in_order

loads : worker_from_owned (dataset ∷ []) ≡ ok tt
unfolding worker_from_owned check_columns
loads = refl

iter_chunks_with_ref_iff_example :
    (refs : List (ChunkRef × WorkerChunk)) × (iter_chunks_with_ref (dataset ∷ []) 5 ≡ some refs)
    × ((r : ChunkRef) (c : WorkerChunk)
        → Mem (r, c) refs ↔ ((get_chunk (dataset ∷ []) r ≡ some c) × Names c.0 c.1 5))
iter_chunks_with_ref_iff_example = iter_chunks_with_ref_iff (dataset ∷ []) 5 loads (omega arith)
