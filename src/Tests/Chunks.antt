-- ===== src/Tests/Chunks.antt =====
-- A chunk id, and a worker dataset of two chunks.
use sqd_network.Base.{
  ℕ, ◌<◌, ◌≤◌, suc, length, ◌≡◌, refl, true, none, some, List, [], ◌∷◌, get_elem?, ok, arith,
  u64_mod,
}
use sqd_network.Base.Text.{Text}
use sqd_network.DataChunk
use sqd_network.DataChunk.{DataChunk, display, from_str}
use sqd_network.DataChunk.RoundTrip.{from_str-display}
use sqd_network.Assignments.Columns.{push, check_top_runs, top_at}
use sqd_network.Assignments.Columns.Slices.{flat}
use sqd_network.Assignments.Worker.{
  Builder, PushChunk, Dataset, no_columns, push_chunk, finish_dataset, to_dataset, emit_dataset,
  push_row, btree_get,
}
use sqd_network.Assignments.Worker.Rows.{Row}
use sqd_network.Assignments.Worker.Emission.{
  push_all, listed, BitmapsFit, ReadsAs, finish_dataset_reads_back,
}
use sqd_network.Assignments.Loading.{worker_from_owned, finish_dataset-loads}
use sqd_network.Assignments.Worker.Staging.{
  ChunkBuilder, finish_chunk, finish_checked, finish_chunk_accepts, Accepted, bitmap_matches,
  chunk_hash,
}

-- "ab_de"
abbrev hash : Text
hash = 97 ∷ 98 ∷ 95 ∷ 100 ∷ 101 ∷ []

abbrev chunk : DataChunk
chunk = record {
  top = 0;
  first_block = 100;
  last_block = 199;
  last_hash_bytes = 97 ∷ 98 ∷ 95 ∷ 100 ∷ 101 ∷ 0 ∷ 0 ∷ 0 ∷ [];
}

new_runs : DataChunk.new 0 100 199 hash ≡ some chunk
unfolding DataChunk.new DataChunk.all_word DataChunk.pad_hash
new_runs = refl

from_str-display_example : from_str (display chunk) ≡ some chunk
from_str-display_example = from_str-display 0 100 199 hash chunk new_runs (omega arith)

abbrev first : PushChunk
first = record {
  top = 0;
  range_start = 100;
  range_end = 199;
  hash = 97 ∷ 98 ∷ 95 ∷ 100 ∷ 101 ∷ 0 ∷ 0 ∷ 0 ∷ [];
  size = 7;
  write_schema_id = 1;
  version = 0;
}

abbrev rows : List Row
rows =
    record { chunk = first; bits = []; workers = 3 ∷ 5 ∷ [] }
    ∷ record {
      chunk = record first { top = 200; range_start = 200; range_end = 249; version = 2 };
      bits = 5 ∷ [];
      workers = 5 ∷ [];
    }
    ∷ []

abbrev start : Builder ℕ ℕ
start = record {
  last_block = none;
  all_datasets = [];
  worker_entries = [];
  last_peer_id = none;
  check_continuity = true;
  write_schemas = (1, []) ∷ [];
  current_generations = (2, []) ∷ [];
  columns = no_columns;
  staged_worker_indexes = [];
  staged_tables_present = [];
}

program : Unit {0}
unfolding push_all push_chunk push_row finish_dataset emit_dataset to_dataset check_top_runs top_at
program = tt

staged : Builder ℕ ℕ
unfolding program
staged = elim (push_all start rows) [ none ↦ start | some b ↦ b ]

staged_runs : push_all start rows ≡ some staged
unfolding program staged
staged_runs = refl

fits : BitmapsFit rows
unfolding flat
fits = omega arith

finish_dataset_reads_back_example :
    (d : Dataset) × ((finish_dataset staged hash hash).1 ≡ ok tt)
    × ((finish_dataset staged hash hash).0.all_datasets ≡ push start.all_datasets d)
    × ((finish_dataset staged hash hash).0.columns ≡ no_columns)
    × (d.id ≡ hash)
    × (d.base_url ≡ hash)
    × (listed d.generations ≡ start.current_generations)
    × ((i : ℕ) (r : Row)
        → get_elem? rows i ≡ some r
        → suc i ≡ length rows
        → d.last_block ≡ r.range_end)
    × ((i : ℕ) (r : Row)
        → get_elem? rows i ≡ some r
        → r.range_start ≤ r.range_end
        → r.range_end < u64_mod
        → ReadsAs d i r)
finish_dataset_reads_back_example =
    finish_dataset_reads_back start staged rows hash hash refl staged_runs (omega arith) fits

-- A gap is refused and leaves the builder alone.
abbrev far : Row
far = record {
  chunk = record first { range_start = 500; range_end = 600 };
  bits = [];
  workers = [];
}

abbrev built : ChunkBuilder
built = record {
  block_range = some (100, 199);
  id = some chunk;
  size = some 7;
  version = 0;
  write_schema_id = some 1;
  tables_present = none;
}

built_runs : (finish_chunk start built).1 ≡ ok tt
unfolding program finish_chunk finish_checked bitmap_matches chunk_hash btree_get
built_runs = refl

finish_chunk_accepts_example :
    (c : PushChunk) × Accepted start built c × (finish_chunk start built ≡ push_chunk start c)
finish_chunk_accepts_example = finish_chunk_accepts start built built_runs

start_loads : worker_from_owned start.all_datasets ≡ ok tt
unfolding worker_from_owned
start_loads = refl

finish_dataset-loads_example :
    worker_from_owned (finish_dataset staged hash hash).0.all_datasets ≡ ok tt
finish_dataset-loads_example =
    finish_dataset-loads start staged rows hash hash refl staged_runs (ground arith) start_loads
