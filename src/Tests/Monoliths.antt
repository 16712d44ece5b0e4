-- ===== src/Tests/Monoliths.antt =====
-- A dataset of two chunks in the format of one file.
use sqd_network.Base.{ℕ, ◌≡◌, ◌↔◌, Mem, map, refl, true, none, some, List, [], ◌∷◌, ok, arith}
use sqd_network.Assignments.Columns.{push}
use sqd_network.Assignments.Monolithic.{Chunk, Dataset}
use sqd_network.Assignments.Monolithic.Builder.{
  Builder, finish_chunk, add_chunk, create_chunk, finish_dataset,
}
use sqd_network.Assignments.Monolithic.Builder.Rows.{Row, stage_all}
use sqd_network.Assignments.Monolithic.Builder.Staging.{ReadsBack, finish_dataset-ReadsBack}
use sqd_network.Assignments.Worker.Refs.{ChunkRef}
use sqd_network.Assignments.Monolithic.Refs.{get_chunk, iter_chunks, iter_chunks_with_ref}
use sqd_network.Assignments.Monolithic.Refs.Iteration.{iter_chunks-refs_iff}

abbrev first : Row
first = record {
  chunk = record {
    first_block = 100;
    id = 97 ∷ [];
    dataset_id = 98 ∷ [];
    size = 7;
    last_block_hash = none;
    last_block_timestamp = some 5;
    dataset_base_url = 99 ∷ [];
    base_url = [];
    files = 0;
    worker_indexes = 3 ∷ [];
  };
  range_end = 199;
}

abbrev rest : List Row
rest =
    record { chunk = record first.chunk { first_block = 200; id = 100 ∷ [] }; range_end = 249 } ∷ []

abbrev start : Builder ℕ
start = record {
  files_list_offsets = [];
  file_lists = [];
  all_chunks = [];
  last_block = none;
  current_chunks = [];
  current_dataset_id_offset = none;
  all_datasets = [];
  worker_assignments = [];
  last_peer_id = none;
  check_continuity = true;
}

program : Unit {0}
unfolding stage_all finish_chunk add_chunk create_chunk finish_dataset
program = tt

staged : Builder ℕ
unfolding program
staged = elim (stage_all start (first ∷ rest)) [ none ↦ start | some b ↦ b ]

staged_runs : stage_all start (first ∷ rest) ≡ some staged
unfolding program staged
staged_runs = refl

finish_dataset-ReadsBack_example :
    (d : Dataset) × (b : Builder ℕ) × (finish_dataset staged ≡ ok b)
    × (b.all_datasets ≡ push start.all_datasets d)
    × (b.current_chunks ≡ [])
    × (b.last_block ≡ none)
    × ReadsBack (first ∷ rest) d
finish_dataset-ReadsBack_example =
    finish_dataset-ReadsBack start staged first rest refl staged_runs (omega arith)

abbrev datasets : List Dataset
datasets =
    record {
      id = some (98 ∷ []);
      last_block = 249;
      chunks = first.chunk ∷ record first.chunk { first_block = 200; worker_indexes = 4 ∷ [] } ∷ [];
    }
    ∷ []

iter_chunks-refs_iff_example :
    ((r : ChunkRef) (c : Chunk)
      → Mem (r, c) (iter_chunks_with_ref datasets 3)
        ↔ ((get_chunk datasets r ≡ some c) × Mem 3 c.worker_indexes))
    × (iter_chunks datasets 3
        ≡ map (λ (p : ChunkRef × Chunk). p.1) (iter_chunks_with_ref datasets 3))
iter_chunks-refs_iff_example = iter_chunks-refs_iff datasets 3 (omega arith, tt) (omega arith)
