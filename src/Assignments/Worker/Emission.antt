-- ===== src/Assignments/Worker/Emission.antt =====
-- A dataset from its first chunk to the reader: push the chunks, emit, read.
use sqd_network.Base.{
  ℕ, zero, suc, sym, ◌≤◌, ◌<◌, ◌≡◌, refl, ap, ◌∙◌, false, Option, none, some, List, [], ◌∷◌, ◌++◌,
  append-nil, append_assoc, length, length-map, get_elem?, ok, err, panic, ◌==◌, u32_mod, u64_mod,
  arith,
}
use sqd_network.Base.Text.{Text}
use sqd_network.DataChunk.{trim_nul}
use sqd_network.Assignments.Columns.{push, check_top_runs}
use sqd_network.Assignments.Columns.Runs.{check_top_runs-TopsFor}
use sqd_network.Assignments.Columns.Slices.{flat}
use sqd_network.Assignments.Worker.{
  no_columns, Dataset, Builder, to_dataset, create_generations, push_chunk, emit_dataset,
  finish_dataset,
}
use sqd_network.Assignments.Worker.Rows.{
  Row, Represents, no_columns-Represents, append_row-Represents, with_staged, taken, push_chunk_ok,
}
use sqd_network.Assignments.Worker.Reader
use sqd_network.Assignments.Worker.ReadBack.{row_reads_back}

-- The last block after more rows.
last_end : Option ℕ → List Row → Option ℕ
last_end o [] = o
last_end o (r ∷ rows) = last_end (some r.range_end) rows

last_end-some : (o : ℕ) (rows : List Row) → (last : ℕ) × (last_end (some o) rows ≡ some last)
unfolding last_end
last_end-some o [] = (o, refl)
last_end-some o (r ∷ rows) = last_end-some r.range_end rows

module _ {P E : Type 0} where
  -- The chunks of a dataset, pushed one after another; `none` once one is refused.
  unfoldable pub push_all : Builder P E → List Row → Option (Builder P E)
  push_all b [] = some b
  push_all b (r ∷ rows) =
      let next = push_chunk (with_staged b r) r.chunk in
      let rest = push_all next.0 rows in elim next.1 [ ok _ ↦ rest | err _ ↦ none | panic ↦ none ]

  push_all_step :
      (b : Builder P E) (r : Row) (rows : List Row) {b' : Builder P E}
      → push_all b (r ∷ rows) ≡ some b'
      → ((push_chunk (with_staged b r) r.chunk).1 ≡ ok tt) × (push_all (taken b r) rows ≡ some b')
  unfolding push_all
  push_all_step b r rows h = ground (arith, push_chunk_ok b r)

  push_all-Represents :
      (b : Builder P E) (before rows : List Row) {b' : Builder P E}
      → Represents b.columns before
      → push_all b rows ≡ some b'
      → Represents b'.columns (before ++ rows)
        × (b'.last_block ≡ last_end b.last_block rows)
        × (b'.current_generations ≡ b.current_generations)
        × (b'.all_datasets ≡ b.all_datasets)
  unfolding push_all last_end
  push_all-Represents b before [] {b'} rep h =
      let e : b ≡ b' = cc in rw (← e, append-nil) (rep, refl, refl, refl)
  push_all-Represents b before (r ∷ rows) rep h =
      let (done, more) = push_all_step b r rows h in
      rw append_assoc at (
        push_all-Represents (taken b r) (push before r) rows
          (append_row-Represents b.columns before r rep) more)

  -- The builder once its dataset is emitted.
  abbrev closed : Builder P E → Text → Text → ℕ → Builder P E
  closed b id base_url last = record b {
    all_datasets =
        push b.all_datasets (to_dataset id base_url last b.current_generations b.columns);
    columns = no_columns;
    last_block = none;
    current_generations = [];
  }

  emit_dataset-closed :
      (b : Builder P E) (id base_url : Text) (last : ℕ)
      → 0 < length b.columns.first_blocks
      → check_top_runs b.columns.tops ≡ ok tt
      → b.last_block ≡ some last
      → emit_dataset b id base_url ≡ (closed b id base_url last, ok tt)
  unfolding emit_dataset
  emit_dataset-closed b id base_url last n c l =
      let e : (length b.columns.first_blocks == 0) ≡ false = ground arith in
      rw (e, c, emit_dataset, l)

  finish_dataset-closed :
      (b : Builder P E) (id base_url : Text) (last : ℕ)
      → emit_dataset b id base_url ≡ (closed b id base_url last, ok tt)
      → finish_dataset b id base_url ≡ (closed b id base_url last, ok tt)
  unfolding finish_dataset
  finish_dataset-closed b id base_url last e = ground arith

  pub finish_staged :
      (b : Builder P E) (rows : List Row) {b' : Builder P E} (id base_url : Text)
      → b.columns ≡ no_columns
      → push_all b rows ≡ some b'
      → 0 < length rows
      → (last : ℕ) × (b'.last_block ≡ some last)
        × Represents b'.columns rows
        × (finish_dataset b' id base_url ≡ (
          record b' {
            all_datasets =
                push b.all_datasets (to_dataset id base_url last b.current_generations b'.columns);
            columns = no_columns;
            last_block = none;
            current_generations = [];
          },
          ok tt,
        ))
  unfolding last_end
  finish_staged b [] {b'} id base_url c h n = absurd (omega arith)
  finish_staged b (r ∷ rows) {b'} id base_url c h n =
      let (rep, ended, gens, sets) =
        push_all-Represents b [] (r ∷ rows) (rw c no_columns-Represents) h in
      let (last, l) = last_end-some r.range_end rows in
      let count : length b'.columns.first_blocks ≡ length (r ∷ rows) =
        ap length rep.first_blocks ∙ length-map (λ (x : Row). x.range_start) (r ∷ rows) in
      let tops = check_top_runs-TopsFor b'.columns.tops _ rep.tops (omega arith) in
      (
        last,
        ended ∙ l,
        rep,
        rw (← gens, ← sets)
            (finish_dataset-closed b' id base_url last
              (emit_dataset-closed b' id base_url last (omega arith) tops (ended ∙ l))),
      )

-- What the reader returns for a chunk that was staged as `r`.
pub record ReadsAs (d : Dataset) (i : ℕ) (r : Row) : Type 0 where
  pub first_block : Reader.first_block d i ≡ some r.range_start
  pub last_block : Reader.last_block d i ≡ some r.range_end
  pub top : Reader.top d i ≡ some r.top
  pub hash : Reader.hash d i ≡ some (trim_nul r.hash)
  pub size : Reader.size d i ≡ some r.size
  pub write_schema_id : Reader.write_schema_id d i ≡ some r.write_schema_id
  pub version : Reader.version d i ≡ some r.version
  pub tables_present : Reader.tables_present d i ≡ some (Reader.some_bits r.bits)
  pub worker_indexes : Reader.worker_indexes d i ≡ some r.workers

-- The rows' table bitmaps fit the 32-bit ends of their column.
abbrev pub BitmapsFit : List Row → Type 0
BitmapsFit rows = length (flat (λ (x : Row). x.bits) rows) < u32_mod

-- The generations of a dataset; a column that was left out holds none.
abbrev pub listed : Option (List (ℕ × Text)) → List (ℕ × Text)
listed none = []
listed (some generations) = generations

listed-create_generations :
    (generations : List (ℕ × Text)) → listed (create_generations generations) ≡ generations
unfolding create_generations
listed-create_generations [] = refl
listed-create_generations (g ∷ generations) = refl

-- The last block is where the last row ends.
last_end-last :
    (r : Row) (rows : List Row) (last i : ℕ) (s : Row)
    → last_end (some r.range_end) rows ≡ some last
    → get_elem? (r ∷ rows) i ≡ some s
    → suc i ≡ length (r ∷ rows)
    → last ≡ s.range_end
unfolding last_end
last_end-last r [] last zero s l at n =
    let e : r ≡ s = cc in let k : r.range_end ≡ last = cc in sym k ∙ ap (λ (x : Row). x.range_end) e
last_end-last r [] last (suc i) s l at n = absurd (cc at)
last_end-last r (x ∷ rows) last zero s l at n = absurd (omega (arith, n))
last_end-last r (x ∷ rows) last (suc i) s l at n =
    last_end-last x rows last i s l at (omega (arith, n))

-- A dataset that was opened empty, took at least one chunk, and refused none, is emitted: `finish`
-- succeeds, adds one dataset with the given id and base url, the generations that were registered
-- when it was opened, and the end of the last chunk as its last block, and leaves the columns
-- empty. If the bitmaps fit 32 bits, the reader returns for the index of every chunk whose block
-- range is not empty and ends below 2^64 the values that it was staged with: its blocks, top,
-- hash, size, schema, version, tables and workers.
pub finish_dataset_reads_back :
    {P E : Type 0} (b b' : Builder P E) (rows : List Row) (id base_url : Text)
    → b.columns ≡ no_columns
    → push_all b rows ≡ some b'
    → 0 < length rows
    → BitmapsFit rows
    → (d : Dataset) × ((finish_dataset b' id base_url).1 ≡ ok tt)
      × ((finish_dataset b' id base_url).0.all_datasets ≡ push b.all_datasets d)
      × ((finish_dataset b' id base_url).0.columns ≡ no_columns)
      × (d.id ≡ id)
      × (d.base_url ≡ base_url)
      × (listed d.generations ≡ b.current_generations)
      × ((i : ℕ) (r : Row)
          → get_elem? rows i ≡ some r
          → suc i ≡ length rows
          → d.last_block ≡ r.range_end)
      × ((i : ℕ) (r : Row)
          → get_elem? rows i ≡ some r
          → r.range_start ≤ r.range_end
          → r.range_end < u64_mod
          → ReadsAs d i r)
unfolding to_dataset
finish_dataset_reads_back b b' rows id base_url c h n small =
    let (last, l, rep, e) = finish_staged b rows id base_url c h n in
    let ended = (push_all-Represents b [] rows (rw c no_columns-Represents) h).1 in
    (
      to_dataset id base_url last b.current_generations b'.columns,
      ap (λ p. p.1) e,
      ap (λ p. p.0.all_datasets) e,
      ap (λ p. p.0.columns) e,
      refl,
      refl,
      listed-create_generations b.current_generations,
      λ i r at final. ends rows last (sym l ∙ ended) i r at final,
      λ i r at order range.
          let (p0, p1, p2, p3, p4, p5, p6, p7, p8) =
            row_reads_back id base_url last b.current_generations b'.columns rows rep i r at small
              order range in
          record {
            first_block = p0;
            last_block = p1;
            top = p2;
            hash = p3;
            size = p4;
            write_schema_id = p5;
            version = p6;
            tables_present = p7;
            worker_indexes = p8;
          },
    )
  where
    ends :
        (rows : List Row) (last : ℕ)
        → some last ≡ last_end b.last_block rows
        → (i : ℕ) (r : Row) → get_elem? rows i ≡ some r
        → suc i ≡ length rows
        → last ≡ r.range_end
    ends [] last l i r at final = absurd (cc at)
    ends (x ∷ rows) last l i r at final =
        unfold last_end in last_end-last x rows last i r (sym l) at final
