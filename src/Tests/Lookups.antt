-- ===== src/Tests/Lookups.antt =====
-- Lookups in an assignment of one file: three chunks, two of them with one timestamp.
use sqd_network.Base.{zero, suc, ◌≡◌, refl, none, some, [], ◌∷◌, ok, arith}
use sqd_network.Assignments.Monolithic.{
  Chunk, Dataset, find_chunk, find_chunk_by_timestamp, unwrap_or_zero,
}
use sqd_network.Assignments.Monolithic.Lookups.{BlocksAscend, FindsLast, find_chunk-FindsLast}
use sqd_network.Assignments.Monolithic.Timestamps.{
  TimesAscend, FindsFirst, find_chunk_by_timestamp-FindsFirst,
}

abbrev chunk : Chunk
chunk = record {
  first_block = 10;
  id = [];
  dataset_id = [];
  size = 1;
  last_block_hash = none;
  last_block_timestamp = none;
  dataset_base_url = [];
  base_url = [];
  files = 0;
  worker_indexes = [];
}

abbrev dataset : Dataset
dataset = record {
  id = none;
  last_block = 40;
  chunks =
      chunk
      ∷ record chunk { first_block = 20; last_block_timestamp = some 7 }
      ∷ record chunk { first_block = 30; last_block_timestamp = some 7 }
      ∷ [];
}

blocks : BlocksAscend dataset
blocks zero zero a b lt h k = absurd (omega arith)
blocks zero (suc zero) a b lt h k = ground arith
blocks zero (suc (suc zero)) a b lt h k = ground arith
blocks (suc zero) (suc (suc zero)) a b lt h k = ground arith
blocks (suc i) zero a b lt h k = absurd (omega arith)
blocks (suc zero) (suc zero) a b lt h k = absurd (omega arith)
blocks (suc (suc i)) (suc zero) a b lt h k = absurd (omega arith)
blocks (suc (suc zero)) (suc (suc zero)) a b lt h k = absurd (omega arith)
blocks (suc (suc (suc i))) (suc (suc zero)) a b lt h k = absurd (omega arith)
blocks i (suc (suc (suc j))) a b lt h k = absurd (cc)

find_chunk-FindsLast_example : FindsLast dataset 25 (find_chunk (some dataset) 25)
find_chunk-FindsLast_example = find_chunk-FindsLast dataset 25 blocks

find_chunk_runs : find_chunk (some dataset) 25 ≡ ok 1
unfolding find_chunk
find_chunk_runs = refl

times : TimesAscend dataset
unfolding unwrap_or_zero
times zero zero a b le h k = ground arith
times zero (suc zero) a b le h k = ground arith
times zero (suc (suc zero)) a b le h k = ground arith
times (suc zero) (suc zero) a b le h k = ground arith
times (suc zero) (suc (suc zero)) a b le h k = ground arith
times (suc (suc zero)) (suc (suc zero)) a b le h k = ground arith
times (suc i) zero a b le h k = absurd (omega arith)
times (suc (suc i)) (suc zero) a b le h k = absurd (omega arith)
times (suc (suc (suc i))) (suc (suc zero)) a b le h k = absurd (omega arith)
times i (suc (suc (suc j))) a b le h k = absurd (cc)

find_chunk_by_timestamp-FindsFirst_example :
    FindsFirst dataset 7 (find_chunk_by_timestamp (some dataset) 7)
find_chunk_by_timestamp-FindsFirst_example =
    find_chunk_by_timestamp-FindsFirst dataset 7 (omega arith) times

find_chunk_by_timestamp_runs : find_chunk_by_timestamp (some dataset) 7 ≡ ok 1
unfolding find_chunk_by_timestamp
find_chunk_by_timestamp_runs = refl
