-- ===== src/Assignments/Worker/Reader.antt =====
-- `WorkerChunk`, the dataset's accessors and `AssignedWorker::holdings`
-- (crates/assignments/src/reader.rs), over the columns of a dataset. A `get` past the end of a
-- vector panics: that is `none` here.
use sqd_network.Base.{
  ◌%◌, u64_mod, ℕ, zero, suc, ◌+◌, Bool, false, ◌||◌, Option, none, some, List, [], ◌∷◌, length,
  get_elem?, min, leb, ltb, ◌==◌, if◌then◌else◌,
}
use sqd_network.Base.Text.{Text}
use sqd_network.DataChunk.{trim_nul}
use sqd_network.Assignments.Columns.{slice, top_at}
use sqd_network.Assignments.Worker.{Dataset}

-- `WorkerAssignmentDataset::chunk_count`.
unfoldable pub chunk_count : Dataset → ℕ
chunk_count d = length d.first_blocks

-- `WorkerAssignmentDataset::chunk`: a cursor at an index in range.
unfoldable pub chunk : Dataset → ℕ → Option ℕ
unfolding chunk_count
chunk d index = if ltb index (chunk_count d) then some index else none

unfoldable pub first_block : Dataset → ℕ → Option ℕ
first_block d i = get_elem? d.first_blocks i

unfoldable pub last_block : Dataset → ℕ → Option ℕ
unfolding first_block
last_block d i = elim (first_block d i) [
  | none ↦ none
  | some first ↦ elim (get_elem? d.block_deltas i) [
    | none ↦ none
    | some delta ↦ some ((first + delta) % u64_mod)
  ]
]

unfoldable pub size : Dataset → ℕ → Option ℕ
size d i = get_elem? d.sizes i

-- 0 where the column was left out.
unfoldable pub version : Dataset → ℕ → Option ℕ
version d i = elim d.versions [ none ↦ some 0 | some column ↦ get_elem? column i ]

unfoldable pub write_schema_id : Dataset → ℕ → Option ℕ
write_schema_id d i = get_elem? d.write_schema_ids i

-- `top`: `expect` on the run.
unfoldable pub top : Dataset → ℕ → Option ℕ
top d i = top_at d.tops i

-- `hash`, as bytes: `from_utf8` is the identity on the ASCII that a builder writes.
unfoldable pub hash : Dataset → ℕ → Option Text
hash d i = elim (get_elem? d.hashes i) [ none ↦ none | some bytes ↦ some (trim_nul bytes) ]

-- `tables_present`: `some none` is the accessor's `None`, every table present. `get(start..end)` is
-- `None` where the range does not lie in the column.
unfoldable pub bits_in : List ℕ → ℕ → ℕ → Option (List ℕ)
bits_in column start end =
    if leb start end
    then (if leb end (length column) then some (slice column start end) else none)
    else none

unfoldable pub some_bits : List ℕ → Option (List ℕ)
some_bits [] = none
some_bits (b ∷ bits) = some (b ∷ bits)

unfoldable pub tables_present : Dataset → ℕ → Option (Option (List ℕ))
unfolding bits_in some_bits
tables_present d i = elim d.tables_present_offsets [
  | none ↦ some none
  | some offsets ↦ elim (get_elem? offsets i) [
    | none ↦ none
    | some start ↦ elim (get_elem? offsets (suc i)) [
      | none ↦ none
      | some end ↦ elim d.tables_present [
        | none ↦ some none
        | some column ↦ elim (bits_in column start end) [
          | none ↦ some none
          | some bits ↦ some (some_bits bits)
        ]
      ]
    ]
  ]
]

-- `worker_indexes`: the slots `start..end.min(len)`.
unfoldable pub worker_indexes : Dataset → ℕ → Option (List ℕ)
worker_indexes d i = elim (get_elem? d.worker_offsets i) [
  | none ↦ none
  | some start ↦ elim (get_elem? d.worker_offsets (suc i)) [
    | none ↦ none
    | some end ↦ some (slice d.worker_indexes start (min end (length d.worker_indexes)))
  ]
]

-- `any(|slot| indexes.get(slot) == index)`.
unfoldable pub contains : List ℕ → ℕ → Bool
contains [] w = false
contains (v ∷ vs) w = v == w || contains vs w

-- `holdings`: of the chunks from `i` on, those that name the worker, in order.
unfoldable pub holdings_from : Dataset → ℕ → ℕ → ℕ → Option (List ℕ)
unfolding worker_indexes contains
holdings_from d w i zero = some []
holdings_from d w i (suc n) =
    let rest = holdings_from d w (suc i) n in
    elim (worker_indexes d i) [
      | none ↦ none
      | some ws ↦ elim rest [ none ↦ none | some is ↦ some (if contains ws w then i ∷ is else is) ]
    ]

unfoldable pub holdings : Dataset → ℕ → Option (List ℕ)
unfolding holdings_from chunk_count
holdings d w = holdings_from d w 0 (chunk_count d)
