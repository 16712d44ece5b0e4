-- ===== src/Assignments/Portal/Rows.antt =====
-- The columns of a staged portal dataset stand for the rows that were pushed.
use sqd_network.Base.{
  ℕ, ◌≡◌, refl, sym, ap, ◌∙◌, some, List, [], ◌++◌, map, length, length-map, ok, arith,
}
use sqd_network.Assignments.Columns.{push, sub_u64}
use sqd_network.Assignments.Columns.Runs.{TopsFor, TopsFor-nil, push_top-TopsFor}
use sqd_network.Assignments.Columns.Slices.{flat, ends, flat-push, map-push, ends_column}
use sqd_network.Assignments.Worker.{continuity}
use sqd_network.Assignments.Portal.{Columns, no_columns, Builder, Chunk, push_row, push_chunk}

-- A chunk as it was staged: its values and its workers.
pub record Row : Type 0 where
  pub chunk : Chunk
  pub open chunk use *
  pub workers : List ℕ

abbrev pub delta : Row → ℕ
delta r = sub_u64 r.range_end r.range_start

pub record Represents (c : Columns) (rows : List Row) : Type 0 where
  pub first_blocks : c.first_blocks ≡ map (λ r. r.range_start) rows
  pub block_deltas : c.block_deltas ≡ map delta rows
  pub hashes : c.hashes ≡ map (λ r. r.hash) rows
  pub tops : TopsFor c.tops (map (λ r. r.top) rows)
  pub timestamps : c.timestamps ≡ map (λ r. r.timestamp) rows
  pub versions : c.versions ≡ map (λ r. r.version) rows
  pub worker_ends : c.worker_ends ≡ ends (λ r. r.workers) 0 rows
  pub worker_indexes : c.worker_indexes ≡ flat (λ r. r.workers) rows

pub no_columns-Represents : Represents no_columns []
unfolding flat ends
no_columns-Represents = record {
  first_blocks = refl;
  block_deltas = refl;
  hashes = refl;
  tops = TopsFor-nil;
  timestamps = refl;
  versions = refl;
  worker_ends = refl;
  worker_indexes = refl;
}

-- The columns after a row, its worker end included.
unfoldable pub append_row : Columns → Row → Columns
append_row c r =
    let c' = push_row c r.chunk (delta r) r.workers in
    record c' { worker_ends = push c.worker_ends (length c'.worker_indexes) }

pub append_row-Represents :
    (c : Columns) (rows : List Row) (r : Row)
    → Represents c rows
    → Represents (append_row c r) (push rows r)
unfolding append_row push_row
append_row-Represents c rows r h = record {
  first_blocks = map-push (λ (x : Row). x.range_start) rows r h.first_blocks;
  block_deltas = map-push delta rows r h.block_deltas;
  hashes = map-push (λ (x : Row). x.hash) rows r h.hashes;
  tops =
      let n : length c.first_blocks ≡ length (map (λ (x : Row). x.top) rows) =
        ap length h.first_blocks
        ∙ length-map (λ (x : Row). x.range_start) rows
        ∙ sym (length-map (λ (x : Row). x.top) rows) in
      rw (n, ← map-push (λ (x : Row). x.top) rows r refl)
        (push_top-TopsFor c.tops (map (λ (x : Row). x.top) rows) r.top h.tops);
  timestamps = map-push (λ (x : Row). x.timestamp) rows r h.timestamps;
  versions = map-push (λ (x : Row). x.version) rows r h.versions;
  worker_ends = ends_column (λ (x : Row). x.workers) rows r h.worker_ends h.worker_indexes;
  worker_indexes =
      ap (λ l. l ++ r.workers) h.worker_indexes ∙ sym (flat-push (λ (x : Row). x.workers) rows r);
}

module _ {P S : Type 0} where
  abbrev pub with_staged : Builder P S → Row → Builder P S
  with_staged b r = record b { staged_worker_indexes = r.workers }

  -- The builder after a row was taken.
  abbrev pub taken : Builder P S → Row → Builder P S
  taken b r = record (with_staged b r) {
    columns = append_row b.columns r;
    last_block = some r.range_end;
  }

  -- Where `push_chunk` succeeds, it has appended the row, and the row goes on where the last ended.
  pub push_chunk_ok :
      (b : Builder P S) (r : Row)
      → (push_chunk (with_staged b r) r.chunk).1 ≡ ok tt
      → ((push_chunk (with_staged b r) r.chunk).0 ≡ taken b r)
        × (continuity b.last_block r.range_start ≡ ok tt)
  unfolding push_chunk append_row push_row
  push_chunk_ok b r h = ground arith
