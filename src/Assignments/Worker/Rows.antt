-- ===== src/Assignments/Worker/Rows.antt =====
-- The columns of a staged dataset stand for the rows that were pushed.
use sqd_network.Base.{
  ℕ, ◌%◌, ◌<◌, ◌≡◌, refl, sym, ap, ◌∙◌, Bool, true, false, ◌||◌, some, List, [], ◌∷◌, ◌++◌, map,
  map-append, length, length-map, ok, if◌then◌else◌, u32_mod, arith,
}
use sqd_network.Assignments.Columns.{push, sub_u64}
use sqd_network.Assignments.Columns.Runs.{TopsFor, TopsFor-nil, push_top-TopsFor}
use sqd_network.Assignments.Columns.Slices.{flat, ends, flat-push, map-push, ends_column}
use sqd_network.Assignments.Worker.{
  Columns, no_columns, Builder, PushChunk, is_empty, push_row, push_chunk,
}

-- A chunk as it was staged: its values, its table bitmap and its workers.
pub record Row : Type 0 where
  pub chunk : PushChunk
  pub open chunk use *
  pub bits : List ℕ
  pub workers : List ℕ

abbrev pub delta : Row → ℕ
delta r = sub_u64 r.range_end r.range_start

unfoldable pub any_trimmed : List Row → Bool
any_trimmed [] = false
any_trimmed (r ∷ rs) = if is_empty r.bits then any_trimmed rs else true

pub record Represents (c : Columns) (rows : List Row) : Type 0 where
  pub first_blocks : c.first_blocks ≡ map (λ r. r.range_start) rows
  pub block_deltas : c.block_deltas ≡ map delta rows
  pub hashes : c.hashes ≡ map (λ r. r.hash) rows
  pub tops : TopsFor c.tops (map (λ r. r.top) rows)
  pub sizes : c.sizes ≡ map (λ r. r.size) rows
  pub write_schema_ids : c.write_schema_ids ≡ map (λ r. r.write_schema_id) rows
  pub versions : c.versions ≡ map (λ r. r.version) rows
  pub tables_present : c.tables_present ≡ flat (λ r. r.bits) rows
  pub tables_present_ends :
      c.tables_present_ends ≡ map (λ n. n % u32_mod) (ends (λ r. r.bits) 0 rows)
  pub any_tables_trimmed : c.any_tables_trimmed ≡ any_trimmed rows
  pub worker_ends : c.worker_ends ≡ ends (λ r. r.workers) 0 rows
  pub worker_indexes : c.worker_indexes ≡ flat (λ r. r.workers) rows

pub no_columns-Represents : Represents no_columns []
unfolding flat ends any_trimmed
no_columns-Represents = record {
  first_blocks = refl;
  block_deltas = refl;
  hashes = refl;
  tops = TopsFor-nil;
  sizes = refl;
  write_schema_ids = refl;
  versions = refl;
  tables_present = refl;
  tables_present_ends = refl;
  any_tables_trimmed = refl;
  worker_ends = refl;
  worker_indexes = refl;
}

any_trimmed-push :
    (rows : List Row) (r : Row)
    → any_trimmed (push rows r) ≡ any_trimmed rows || (if is_empty r.bits then false else true)
unfolding any_trimmed
any_trimmed-push [] r = ground arith
any_trimmed-push (x ∷ rows) r = ground (arith, any_trimmed-push rows r)

ends_column_mod :
    (f : Row → List ℕ) (rows : List Row) (r : Row) {es vs : List ℕ}
    → es ≡ map (λ n. n % u32_mod) (ends f 0 rows)
    → vs ≡ flat f rows
    → push es (length (vs ++ f r) % u32_mod) ≡ map (λ n. n % u32_mod) (ends f 0 (push rows r))
ends_column_mod f rows r {es} {vs} e v =
    ap (λ l. push l (length (vs ++ f r) % u32_mod)) e
    ∙ sym (map-append (λ n. n % u32_mod) (ends f 0 rows) (length (vs ++ f r) ∷ []))
    ∙ ap (map (λ n. n % u32_mod)) (ends_column f rows r refl v)

-- The columns after a row, its worker end included.
unfoldable pub append_row : Columns → Row → Columns
append_row c r =
    let c' = push_row c r.chunk (delta r) r.bits r.workers in
    record c' { worker_ends = push c.worker_ends (length c'.worker_indexes) }

pub append_row-Represents :
    (c : Columns) (rows : List Row) (r : Row)
    → Represents c rows
    → Represents (append_row c r) (push rows r)
unfolding append_row push_row
append_row-Represents c rows r h = record {
  first_blocks = map-push (λ (x : Row). x.range_start) rows r h.first_blocks;
  block_deltas = map-push delta rows r h.block_deltas;
  hashes = map-push (λ (x : Row). x.hash) rows r h.hashes;
  tops =
      let n : length c.first_blocks ≡ length (map (λ (x : Row). x.top) rows) =
        ap length h.first_blocks
        ∙ length-map (λ (x : Row). x.range_start) rows
        ∙ sym (length-map (λ (x : Row). x.top) rows) in
      rw (n, ← map-push (λ (x : Row). x.top) rows r refl)
        (push_top-TopsFor c.tops (map (λ (x : Row). x.top) rows) r.top h.tops);
  sizes = map-push (λ (x : Row). x.size) rows r h.sizes;
  write_schema_ids = map-push (λ (x : Row). x.write_schema_id) rows r h.write_schema_ids;
  versions = map-push (λ (x : Row). x.version) rows r h.versions;
  tables_present =
      ap (λ l. l ++ r.bits) h.tables_present ∙ sym (flat-push (λ (x : Row). x.bits) rows r);
  tables_present_ends =
      ends_column_mod (λ (x : Row). x.bits) rows r h.tables_present_ends h.tables_present;
  any_tables_trimmed =
      ap (λ b. b || (if is_empty r.bits then false else true)) h.any_tables_trimmed
      ∙ sym (any_trimmed-push rows r);
  worker_ends = ends_column (λ (x : Row). x.workers) rows r h.worker_ends h.worker_indexes;
  worker_indexes =
      ap (λ l. l ++ r.workers) h.worker_indexes ∙ sym (flat-push (λ (x : Row). x.workers) rows r);
}

module _ {P E : Type 0} where
  -- The builder with a chunk's bitmap and workers staged.
  abbrev pub with_staged : Builder P E → Row → Builder P E
  with_staged b r = record b { staged_tables_present = r.bits; staged_worker_indexes = r.workers }

  -- The builder after a row was taken.
  abbrev pub taken : Builder P E → Row → Builder P E
  taken b r = record (with_staged b r) {
    columns = append_row b.columns r;
    last_block = some r.range_end;
  }

  -- Where `push_chunk` succeeds, it has appended the row, its span fits 32 bits, and so does the
  -- number of worker references.
  pub push_chunk_ok :
      (b : Builder P E) (r : Row)
      → (push_chunk (with_staged b r) r.chunk).1 ≡ ok tt
      → ((push_chunk (with_staged b r) r.chunk).0 ≡ taken b r)
        × (length (b.columns.worker_indexes ++ r.workers) < u32_mod)
        × (delta r < u32_mod)
  unfolding push_chunk append_row push_row
  push_chunk_ok b r h = ground arith

  -- A row whose worker references were refused: every column has it but the worker ends, and the rest
  -- of the builder is as it was.
  pub record Unclosed (b : Builder P E) (r : Row) (b' : Builder P E) : Type 0 where
    pub first_blocks : b'.columns.first_blocks ≡ push b.columns.first_blocks r.range_start
    pub block_deltas : b'.columns.block_deltas ≡ push b.columns.block_deltas (delta r)
    pub hashes : b'.columns.hashes ≡ push b.columns.hashes r.hash
    pub sizes : b'.columns.sizes ≡ push b.columns.sizes r.size
    pub write_schema_ids :
        b'.columns.write_schema_ids ≡ push b.columns.write_schema_ids r.write_schema_id
    pub versions : b'.columns.versions ≡ push b.columns.versions r.version
    pub tables_present : b'.columns.tables_present ≡ b.columns.tables_present ++ r.bits
    pub worker_indexes : b'.columns.worker_indexes ≡ b.columns.worker_indexes ++ r.workers
    pub worker_ends : b'.columns.worker_ends ≡ b.columns.worker_ends
    pub rest : record b' { columns = b.columns } ≡ with_staged b r
