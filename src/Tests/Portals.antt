-- ===== src/Tests/Portals.antt =====
-- A portal dataset of two chunks, and its workers.
use sqd_network.Base.{
  zero, suc, true, ℕ, ◌≤◌, ◌<◌, ◌≡◌, ◌≢◌, ◌⊎◌, refl, none, some, Ordering, List, [], ◌∷◌, get_elem?,
  ok, err, panic, arith, compare, replicate, length,
}
use sqd_network.Base.Order.{nat_ord}
use sqd_network.Base.Text.{Text}
use sqd_network.Assignments.Columns.{push, top_at, check_top_runs}
use sqd_network.Assignments.Portal.{
  Builder, Dataset, no_columns, push_chunk, push_row, finish_dataset, emit_dataset, to_dataset,
  add_worker,
}
use sqd_network.Assignments.Portal.Rows.{Row}
use sqd_network.Assignments.Portal.Reader.{
  ChunkNotFound, first_block, last_block, last_block_timestamp, chunk_count, find_chunk,
  find_chunk_by_timestamp,
}
use sqd_network.Assignments.Portal.Finding.{IsOrdered, Finds, find_chunk-Finds}
use sqd_network.Assignments.Portal.Emission.{push_all}
use sqd_network.Assignments.Portal.Routing.{ReadsBack, finish_dataset_routes}
use sqd_network.Assignments.Portal.Timestamps.{
  HasTimestamps, FindsTimestamp, find_chunk_by_timestamp-Finds,
}
use sqd_network.Assignments.Portal.Workers.{WorkersAscend, IsAbove, add_worker_lem}
use sqd_network.Assignments.Entries.{PeerText, worker_id_size}

abbrev name : Text
name = 97 ∷ 98 ∷ []

abbrev first : Row
first = record {
  chunk = record {
    top = 0;
    range_start = 100;
    range_end = 199;
    hash = 97 ∷ 98 ∷ 95 ∷ 100 ∷ 101 ∷ 0 ∷ 0 ∷ 0 ∷ [];
    version = 0;
    timestamp = 1000;
  };
  workers = 3 ∷ 5 ∷ [];
}

abbrev rest : List Row
rest =
    record {
      chunk = record first.chunk {
        top = 200;
        range_start = 200;
        range_end = 249;
        version = 2;
        timestamp = 1500;
      };
      workers = 5 ∷ [];
    }
    ∷ []

abbrev start : Builder ℕ ℕ
start = record {
  last_block = none;
  all_datasets = [];
  worker_entries = [];
  last_peer_id = none;
  check_continuity = true;
  columns = no_columns;
  staged_worker_indexes = [];
}

program : Unit {0}
unfolding push_all push_chunk push_row finish_dataset emit_dataset to_dataset check_top_runs top_at
    find_chunk find_chunk_by_timestamp
program = tt

staged : Builder ℕ ℕ
unfolding program
staged = elim (push_all start (first ∷ rest)) [ none ↦ start | some b ↦ b ]

staged_runs : push_all start (first ∷ rest) ≡ some staged
unfolding program staged
staged_runs = refl

finish_dataset_routes_example :
    (d : Dataset) × ((finish_dataset staged name 4 none).1 ≡ ok tt)
    × ((finish_dataset staged name 4 none).0.all_datasets ≡ push start.all_datasets d)
    × ((finish_dataset staged name 4 none).0.columns ≡ no_columns)
    × ((i : ℕ) (s : Row)
        → get_elem? (first ∷ rest) i ≡ some s
        → suc i ≡ length (first ∷ rest)
        → d.last_block ≡ s.range_end)
    × ReadsBack d (first ∷ rest)
    × ((block : ℕ)
        → 100 ≤ block
        → block ≤ d.last_block
        → (i : ℕ) × (s : Row) × (find_chunk (some d) block ≡ ok i)
          × (get_elem? (first ∷ rest) i ≡ some s)
          × (s.range_start ≤ block)
          × (block ≤ s.range_end))
    × ((block : ℕ) → block < 100 → find_chunk (some d) block ≡ err ChunkNotFound.before_first)
    × ((block : ℕ)
        → d.last_block < block
        → find_chunk (some d) block ≡ err ChunkNotFound.after_last)
finish_dataset_routes_example =
    finish_dataset_routes start staged first rest name 4 none refl staged_runs
      ((omega arith, omega arith), ((omega arith, omega arith), tt))

-- Two chunks with a gap between them.
abbrev gapped : Dataset
gapped = record {
  id = name;
  last_block = 29;
  read_schema_id = 4;
  last_block_hash = none;
  first_blocks = 10 ∷ 20 ∷ [];
  block_deltas = 4 ∷ 9 ∷ [];
  hashes = [];
  tops = [];
  timestamps = 7 ∷ 9 ∷ [];
  versions = none;
  worker_offsets = [];
  worker_indexes = [];
}

gapped-IsOrdered : IsOrdered gapped
unfolding first_block last_block
gapped-IsOrdered = record { ends_after = ends_after; apart = apart }
  where
    ends_after :
        (i f : ℕ)
        → first_block gapped i ≡ some f
        → (l : ℕ) × (last_block gapped i ≡ some l) × (f ≤ l)
    ends_after zero f h = (14, refl, ground arith)
    ends_after (suc zero) f h = (29, refl, ground arith)
    ends_after (suc (suc i)) f h = absurd (cc)

    apart :
        (i j l f : ℕ) → i < j → last_block gapped i ≡ some l → first_block gapped j ≡ some f → l < f
    apart zero (suc zero) l f lt a b = ground arith
    apart i zero l f lt a b = absurd (omega arith)
    apart i (suc (suc j)) l f lt a b = absurd (cc)
    apart (suc i) (suc zero) l f lt a b = absurd (omega arith)

find_chunk-Finds_example : Finds gapped 17 (find_chunk (some gapped) 17)
find_chunk-Finds_example = find_chunk-Finds gapped 17 gapped-IsOrdered

find_chunk_runs :
    (find_chunk (some gapped) 17 ≡ err ChunkNotFound.in_gap) × (find_chunk (some gapped) 22 ≡ ok 1)
unfolding program
find_chunk_runs = (refl, refl)

gapped-HasTimestamps : HasTimestamps gapped
unfolding chunk_count last_block_timestamp
gapped-HasTimestamps = record { count = refl; ascend = ascend }
  where
    ascend :
        (i j s t : ℕ)
        → i ≤ j
        → get_elem? (7 ∷ 9 ∷ []) i ≡ some s
        → get_elem? (7 ∷ 9 ∷ []) j ≡ some t
        → s ≤ t
    ascend zero zero s t le a b = ground arith
    ascend zero (suc zero) s t le a b = ground arith
    ascend (suc zero) (suc zero) s t le a b = ground arith
    ascend (suc zero) zero s t le a b = absurd (omega arith)
    ascend (suc (suc i)) j s t le a b = absurd (cc)
    ascend i (suc (suc j)) s t le a b = absurd (cc)

find_chunk_by_timestamp-Finds_example :
    FindsTimestamp gapped 8 (find_chunk_by_timestamp (some gapped) 8)
find_chunk_by_timestamp-Finds_example = find_chunk_by_timestamp-Finds gapped 8 gapped-HasTimestamps

-- A peer id is 38 bytes of one kind.
abbrev peers : PeerText ℕ
peers = record {
  to_bytes = λ id. replicate 38 id;
  from_bytes = λ s. get_elem? s 0;
  to_string = λ id. 119 ∷ [];
  from_bytes-to_bytes = λ id. refl;
}

start-WorkersAscend : WorkersAscend peers start
start-WorkersAscend =
    ([], refl, record { ascend = λ i j p q s t lt a b. absurd (cc); up_to = refl })

add_worker_lem_example :
    ((b' : Builder ℕ ℕ) × (add_worker peers true start 7 1 ≡ ok b')
      × WorkersAscend peers b'
      × (b'.worker_entries ≡ push start.worker_entries (replicate 38 7, 1))
      × (b'.last_peer_id ≡ some 7)
      × (length (peers.to_bytes 7) ≡ worker_id_size)
      × IsAbove start.last_peer_id 7)
    ⊎ ((add_worker peers true start 7 1 ≡ panic)
        × (((last : ℕ) × (start.last_peer_id ≡ some last) × (compare last 7 ≢ Ordering.lt))
            ⊎ (length (peers.to_bytes 7) < worker_id_size)))
add_worker_lem_example = add_worker_lem peers true start 7 1 (omega arith) start-WorkersAscend
