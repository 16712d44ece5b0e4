-- ===== src/Assignments/Portal/ReadBack.antt =====
-- What the reader returns for a portal dataset that the builder emitted.
use sqd_network.Base.{
  ℕ, zero, suc, ◌+◌, ◌≤◌, ◌<◌, ◌≡◌, sym, ap, ◌∙◌, false, Option, some, List, [], ◌∷◌, map, length,
  get_elem?, get_elem?-map, min, u64_mod, arith, inl, inr, Bool-cases,
}
use sqd_network.Base.Text.{Text}
use sqd_network.DataChunk.{trim_nul}
use sqd_network.Assignments.Columns.Runs.{top_at-TopsFor}
use sqd_network.Assignments.Columns.Slices.{flat, column, slice_of_row}
use sqd_network.Assignments.Worker.{any_versioned}
use sqd_network.Assignments.Portal.{Columns, Dataset, to_dataset}
use sqd_network.Assignments.Portal.Rows.{Row, delta, Represents}
use sqd_network.Assignments.Portal.Reader

-- A version column that was left out held zeros only.
unversioned : (vs : List ℕ) (i v : ℕ) → any_versioned vs ≡ false → get_elem? vs i ≡ some v → v ≡ 0
unfolding any_versioned
unversioned [] i v n h = absurd (cc)
unversioned (x ∷ vs) zero v n h = ground arith
unversioned (x ∷ vs) (suc i) v n h = unversioned vs i v (ground arith) h

-- What the reader returns for a chunk that was staged as `r`.
pub record ReadsAs (d : Dataset) (i : ℕ) (r : Row) : Type 0 where
  pub first_block : Reader.first_block d i ≡ some r.range_start
  pub last_block : Reader.last_block d i ≡ some r.range_end
  pub top : Reader.top d i ≡ some r.top
  pub hash : Reader.hash d i ≡ some (trim_nul r.hash)
  pub last_block_timestamp : Reader.last_block_timestamp d i ≡ some r.timestamp
  pub version : Reader.version d i ≡ some r.version
  pub worker_indexes : Reader.worker_indexes d i ≡ some r.workers

module _ (id : Text) (schema : ℕ) (head : Option Text) (last : ℕ) (c : Columns) (rows : List Row)
    (rep : Represents c rows) (i : ℕ) (r : Row) (at : get_elem? rows i ≡ some r) where
  abbrev emitted : Dataset
  emitted = to_dataset id schema head last c

  version_of_row : Reader.version emitted i ≡ some r.version
  unfolding Reader.version to_dataset
  version_of_row =
      let v_at = column (λ (x : Row). x.version) rows i r rep.versions at in
      elim (Bool-cases (any_versioned c.versions)) [
        | inl v ↦ rw v v_at
        | inr v ↦ rw v (ap some (sym (unversioned c.versions i r.version v v_at)))
      ]

  workers_of_row : Reader.worker_indexes emitted i ≡ some r.workers
  unfolding to_dataset Reader.worker_indexes
  workers_of_row =
      let (k, starts, stops, cut, fits) = slice_of_row (λ (x : Row). x.workers) rows i r at in
      let m : min (k + length r.workers) (length (flat (λ (x : Row). x.workers) rows))
          ≡ k + length r.workers =
        omega arith in
      let a : get_elem? (0 ∷ c.worker_ends) i ≡ some k =
        ap (λ l. get_elem? (0 ∷ l) i) rep.worker_ends ∙ starts in
      let b : get_elem? (0 ∷ c.worker_ends) (suc i) ≡ some (k + length r.workers) =
        ap (λ l. get_elem? (0 ∷ l) (suc i)) rep.worker_ends ∙ stops in
      rw (a, Reader.worker_indexes, b, rep.worker_indexes, m) (ap some cut)

  pub row_reads_back : r.range_start ≤ r.range_end → r.range_end < u64_mod → ReadsAs emitted i r
  unfolding to_dataset Reader.first_block Reader.last_block Reader.top Reader.hash
      Reader.last_block_timestamp
  row_reads_back order range = record {
    first_block = column (λ (x : Row). x.range_start) rows i r rep.first_blocks at;
    last_block =
        let a = column (λ (x : Row). x.range_start) rows i r rep.first_blocks at in
        let b = column delta rows i r rep.block_deltas at in
        rw (a, Reader.last_block, b) (ap some (omega arith));
    top =
        top_at-TopsFor c.tops (map (λ (x : Row). x.top) rows) i r.top rep.tops
          (get_elem?-map (λ (x : Row). x.top) rows i r at);
    hash = let a = column (λ (x : Row). x.hash) rows i r rep.hashes at in rw (a, Reader.hash);
    last_block_timestamp = column (λ (x : Row). x.timestamp) rows i r rep.timestamps at;
    version = version_of_row;
    worker_indexes = workers_of_row;
  }
