-- ===== src/Assignments/Worker/ReadBack.antt =====
-- What the reader returns for a dataset that the builder emitted.
use sqd_network.Base.{
  ℕ, zero, suc, ◌+◌, ◌%◌, ◌≤◌, ◌<◌, ◌≡◌, sym, ap, ◌∙◌, true, false, some, List, [], ◌∷◌, map, min,
  length, get_elem?, get_elem?-map, leb, u32_mod, u64_mod, arith, inl, inr, Bool-cases,
}
use sqd_network.Base.Text.{Text}
use sqd_network.DataChunk.{trim_nul}
use sqd_network.Assignments.Columns.{slice}
use sqd_network.Assignments.Columns.Runs.{top_at-TopsFor}
use sqd_network.Assignments.Columns.Slices.{flat, ends, column, slice_of_row}
use sqd_network.Assignments.Worker.{Columns, Dataset, to_dataset, any_versioned}
use sqd_network.Assignments.Worker.Rows.{Row, delta, Represents, any_trimmed}
use sqd_network.Assignments.Worker.Reader

-- A version column that was left out held zeros only.
unversioned :
    (rows : List Row) (i : ℕ) (r : Row)
    → any_versioned (map (λ (x : Row). x.version) rows) ≡ false
    → get_elem? rows i ≡ some r
    → r.version ≡ 0
unfolding any_versioned
unversioned [] i r v h = absurd (cc)
unversioned (x ∷ rows) zero r v h = let e : x ≡ r = cc in rw (← e) (ground arith)
unversioned (x ∷ rows) (suc i) r v h = unversioned rows i r (ground arith) h

-- A bitmap column that was left out held empty bitmaps only.
untrimmed :
    (rows : List Row) (i : ℕ) (r : Row)
    → any_trimmed rows ≡ false
    → get_elem? rows i ≡ some r
    → r.bits ≡ []
unfolding any_trimmed
untrimmed [] i r v h = absurd (cc)
untrimmed (x ∷ rows) zero r v h = let e : x ≡ r = cc in rw (← e) (ground arith)
untrimmed (x ∷ rows) (suc i) r v h = untrimmed rows i r (ground arith) h

worker_indexes_at :
    (d : Dataset) (i start end : ℕ)
    → get_elem? d.worker_offsets i ≡ some start
    → get_elem? d.worker_offsets (suc i) ≡ some end
    → Reader.worker_indexes d i
      ≡ some (slice d.worker_indexes start (min end (length d.worker_indexes)))
unfolding Reader.worker_indexes
worker_indexes_at d i start end a b = rw (a, Reader.worker_indexes, b)

tables_present_at :
    (d : Dataset) (offsets bytes : List ℕ) (i start end : ℕ)
    → d.tables_present_offsets ≡ some offsets
    → d.tables_present ≡ some bytes
    → get_elem? offsets i ≡ some start
    → get_elem? offsets (suc i) ≡ some end
    → start ≤ end
    → end ≤ length bytes
    → Reader.tables_present d i ≡ some (Reader.some_bits (slice bytes start end))
unfolding Reader.tables_present Reader.some_bits
tables_present_at d offsets bytes i start end o t a b le fits =
    let e1 : leb start end ≡ true = ground arith in
    let e2 : leb end (length bytes) ≡ true = ground arith in
    rw (o, Reader.tables_present, a, b, t, e1, e2)

module _ (id base_url : Text) (last : ℕ) (generations : List (ℕ × Text)) (c : Columns)
    (rows : List Row) (rep : Represents c rows) (i : ℕ) (r : Row)
    (at : get_elem? rows i ≡ some r) where
  abbrev emitted : Dataset
  emitted = to_dataset id base_url last generations c

  version_of_row : Reader.version emitted i ≡ some r.version
  unfolding Reader.version to_dataset
  version_of_row = elim (Bool-cases (any_versioned c.versions)) [
    | inl v ↦ rw v (column (λ (x : Row). x.version) rows i r rep.versions at)
    | inr v ↦
        rw v (ap some (sym (unversioned rows i r (ap any_versioned (sym rep.versions) ∙ v) at)))
  ]

  workers_of_row : Reader.worker_indexes emitted i ≡ some r.workers
  unfolding to_dataset
  workers_of_row =
      let (k, starts, stops, cut, fits) = slice_of_row (λ (x : Row). x.workers) rows i r at in
      let m : min (k + length r.workers) (length (flat (λ (x : Row). x.workers) rows))
          ≡ k + length r.workers =
        omega arith in
      worker_indexes_at emitted i k (k + length r.workers)
        (ap (λ l. get_elem? (0 ∷ l) i) rep.worker_ends ∙ starts)
        (ap (λ l. get_elem? (0 ∷ l) (suc i)) rep.worker_ends ∙ stops)
      ∙ ap (λ l. some (slice l k (min (k + length r.workers) (length l)))) rep.worker_indexes
      ∙ ap (λ n. some (slice (flat (λ (x : Row). x.workers) rows) k n)) m
      ∙ ap some cut

  offsets_at :
      (j n : ℕ)
      → n < u32_mod
      → get_elem? (0 ∷ ends (λ (x : Row). x.bits) 0 rows) j ≡ some n
      → get_elem? (0 ∷ c.tables_present_ends) j ≡ some n
  offsets_at j n small h =
      ap (λ l. get_elem? (0 ∷ l) j) rep.tables_present_ends
      ∙ get_elem?-map (λ n. n % u32_mod) (0 ∷ ends (λ (x : Row). x.bits) 0 rows) j n h
      ∙ ap some (omega arith)

  tables_of_row :
      length (flat (λ (x : Row). x.bits) rows) < u32_mod
      → Reader.tables_present emitted i ≡ some (Reader.some_bits r.bits)
  unfolding to_dataset
  tables_of_row small = elim (Bool-cases c.any_tables_trimmed) [
    | inl v ↦
        let (k, starts, stops, cut, fits) = slice_of_row (λ (x : Row). x.bits) rows i r at in
        tables_present_at emitted (0 ∷ c.tables_present_ends) c.tables_present i k
          (k + length r.bits) (rw v) (rw v) (offsets_at i k (omega arith) starts)
          (offsets_at (suc i) (k + length r.bits) (omega arith) stops) (omega arith)
          (rw rep.tables_present fits)
        ∙ ap (λ l. some (Reader.some_bits (slice l k (k + length r.bits)))) rep.tables_present
        ∙ ap (λ l. some (Reader.some_bits l)) cut
    | inr v ↦
        let none_of : r.bits ≡ [] = untrimmed rows i r (sym rep.any_tables_trimmed ∙ v) at in
        unfold Reader.tables_present Reader.some_bits in rw (v, none_of)
  ]

  -- Each row of the staged dataset is read back at its index: its blocks, sizes, versions, schema,
  -- hash, tables and workers, and the top through the runs.
  pub row_reads_back :
      length (flat (λ (x : Row). x.bits) rows) < u32_mod
      → r.range_start ≤ r.range_end
      → r.range_end < u64_mod
      → (Reader.first_block emitted i ≡ some r.range_start)
        × (Reader.last_block emitted i ≡ some r.range_end)
        × (Reader.top emitted i ≡ some r.top)
        × (Reader.hash emitted i ≡ some (trim_nul r.hash))
        × (Reader.size emitted i ≡ some r.size)
        × (Reader.write_schema_id emitted i ≡ some r.write_schema_id)
        × (Reader.version emitted i ≡ some r.version)
        × (Reader.tables_present emitted i ≡ some (Reader.some_bits r.bits))
        × (Reader.worker_indexes emitted i ≡ some r.workers)
  unfolding to_dataset Reader.first_block Reader.last_block Reader.top Reader.hash Reader.size
      Reader.write_schema_id
  row_reads_back small order range = (
    column (λ (x : Row). x.range_start) rows i r rep.first_blocks at,
    (let a : get_elem? c.first_blocks i ≡ some r.range_start =
          column (λ (x : Row). x.range_start) rows i r rep.first_blocks at in
        let b : get_elem? c.block_deltas i ≡ some (delta r) =
          column delta rows i r rep.block_deltas at in
        rw (a, Reader.last_block, b) (ap some (omega arith))),
    top_at-TopsFor c.tops (map (λ (x : Row). x.top) rows) i r.top rep.tops
        (get_elem?-map (λ (x : Row). x.top) rows i r at),
    (let a : get_elem? c.hashes i ≡ some r.hash =
          column (λ (x : Row). x.hash) rows i r rep.hashes at in
        rw (a, Reader.hash)),
    column (λ (x : Row). x.size) rows i r rep.sizes at,
    column (λ (x : Row). x.write_schema_id) rows i r rep.write_schema_ids at,
    version_of_row,
    tables_of_row small,
    workers_of_row,
  )
