-- ===== src/Assignments/Loading.antt =====
-- `from_owned` of the worker's and the portal's assignment (crates/assignments/src/reader.rs), once the
-- flatbuffer verifier has passed a buffer: each dataset's columns are checked.
use sqd_network.Base.{
  ℕ, suc, ◌+◌, ◌-◌, ◌≡◌, ◌<◌, refl, sym, ap, ◌∙◌, Option, none, some, List, [], ◌∷◌, ◌++◌, map,
  length, length-map, Outcome, ok, err, panic, All, arith, if◌then◌else◌, Bool, true, false, ◌%◌,
  u32_mod,
}
use sqd_network.Base.Text.{Text}
use sqd_network.Assignments.Columns.{TopRun, check_top_runs, push}
use sqd_network.Assignments.Columns.Runs.{check_top_runs-TopsFor}
use sqd_network.Assignments.Columns.Slices.{ends}
use sqd_network.Assignments.Columns.Checks.{check_columns, check_columns_iff}
use sqd_network.Assignments.Worker.{
  Builder, Columns, no_columns, Dataset, to_dataset, any_versioned, finish_dataset,
}
use sqd_network.Assignments.Worker.Rows.{Row, Represents, delta}
use sqd_network.Assignments.Worker.Emission.{push_all, finish_staged}
use sqd_network.Assignments.Portal

-- The columns' names.
abbrev name_block_deltas : Text
name_block_deltas = 98 ∷ 108 ∷ 111 ∷ 99 ∷ 107 ∷ 95 ∷ 100 ∷ 101 ∷ 108 ∷ 116 ∷ 97 ∷ 115 ∷ []

abbrev name_hashes : Text
name_hashes = 104 ∷ 97 ∷ 115 ∷ 104 ∷ 101 ∷ 115 ∷ []

abbrev name_sizes : Text
name_sizes = 115 ∷ 105 ∷ 122 ∷ 101 ∷ 115 ∷ []

abbrev name_write_schema_ids : Text
name_write_schema_ids =
    119 ∷ 114 ∷ 105 ∷ 116 ∷ 101 ∷ 95 ∷ 115 ∷ 99 ∷ 104 ∷ 101 ∷ 109 ∷ 97 ∷ 95 ∷ 105 ∷ 100 ∷ 115 ∷ []

abbrev name_worker_offsets : Text
name_worker_offsets =
    119 ∷ 111 ∷ 114 ∷ 107 ∷ 101 ∷ 114 ∷ 95 ∷ 111 ∷ 102 ∷ 102 ∷ 115 ∷ 101 ∷ 116 ∷ 115 ∷ []

abbrev name_versions : Text
name_versions = 118 ∷ 101 ∷ 114 ∷ 115 ∷ 105 ∷ 111 ∷ 110 ∷ 115 ∷ []

abbrev name_tables_present_offsets : Text
name_tables_present_offsets =
    116 ∷ 97 ∷ 98 ∷ 108 ∷ 101 ∷ 115 ∷ 95 ∷ 112 ∷ 114 ∷ 101 ∷ 115 ∷ 101 ∷ 110 ∷ 116 ∷ 95 ∷ 111 ∷ 102
    ∷ 102 ∷ 115 ∷ 101 ∷ 116 ∷ 115 ∷ []

abbrev name_tops : Text
name_tops = 116 ∷ 111 ∷ 112 ∷ 115 ∷ []

abbrev name_timestamps : Text
name_timestamps = 116 ∷ 105 ∷ 109 ∷ 101 ∷ 115 ∷ 116 ∷ 97 ∷ 109 ∷ 112 ∷ 115 ∷ []

-- A column that may be absent, and one more entry than it has chunks in the offsets.
unfoldable pub optional : Text → Option (List ℕ) → List (Text × ℕ)
optional name none = []
optional name (some column) = (name, length column) ∷ []

unfoldable pub optional_offsets : Text → Option (List ℕ) → List (Text × ℕ)
optional_offsets name none = []
optional_offsets name (some column) = (name, length column - 1) ∷ []

-- Where the first run begins; `none` without one.
unfoldable pub first_run : List TopRun → Option ℕ
first_run [] = none
first_run (run ∷ runs) = some run.first_chunk_index

-- The columns of a worker dataset that hold one value for each chunk.
unfoldable pub worker_dense : Dataset → List (Text × ℕ)
unfolding optional optional_offsets
worker_dense d =
    ((name_block_deltas, length d.block_deltas)
      ∷ (name_hashes, length d.hashes)
      ∷ (name_sizes, length d.sizes)
      ∷ (name_write_schema_ids, length d.write_schema_ids)
      ∷ (name_worker_offsets, length d.worker_offsets - 1)
      ∷ (optional name_versions d.versions
          ++ optional_offsets name_tables_present_offsets d.tables_present_offsets))

-- The check of one dataset.
unfoldable pub check_worker_dataset : Dataset → Outcome (Unit {0}) (Unit {0})
unfolding worker_dense first_run check_columns
check_worker_dataset d =
    check_columns (length d.first_blocks) (worker_dense d) ((name_tops, first_run d.tops) ∷ [])

-- Those of a portal dataset.
unfoldable pub portal_dense : Portal.Dataset → List (Text × ℕ)
unfolding optional
portal_dense d =
    ((name_block_deltas, length d.block_deltas)
      ∷ (name_hashes, length d.hashes)
      ∷ (name_timestamps, length d.timestamps)
      ∷ (name_worker_offsets, length d.worker_offsets - 1)
      ∷ optional name_versions d.versions)

unfoldable pub check_portal_dataset : Portal.Dataset → Outcome (Unit {0}) (Unit {0})
unfolding portal_dense first_run check_columns
check_portal_dataset d =
    check_columns (length d.first_blocks) (portal_dense d) ((name_tops, first_run d.tops) ∷ [])

-- The loop over the datasets.
unfoldable pub check_datasets :
    {D : Type 0} → (D → Outcome (Unit {0}) (Unit {0})) → List D → Outcome (Unit {0}) (Unit {0})
check_datasets check [] = ok tt
check_datasets check (d ∷ datasets) =
    let rest = check_datasets check datasets in
    elim (check d) [ ok _ ↦ rest | err e ↦ err e | panic ↦ panic ]

-- `WorkerAssignment::from_owned` and `PortalAssignment::from_owned`, on the datasets of the root.
unfoldable pub worker_from_owned : List Dataset → Outcome (Unit {0}) (Unit {0})
unfolding check_datasets check_worker_dataset
worker_from_owned datasets = check_datasets check_worker_dataset datasets

unfoldable pub portal_from_owned : List Portal.Dataset → Outcome (Unit {0}) (Unit {0})
unfolding check_datasets check_portal_dataset
portal_from_owned datasets = check_datasets check_portal_dataset datasets

first_run_at_zero : (tops : List TopRun) → check_top_runs tops ≡ ok tt → first_run tops ≡ some 0
unfolding check_top_runs first_run
first_run_at_zero [] h = absurd (cc)
first_run_at_zero (run ∷ runs) h = ground arith

length-ends :
    {A : Type 0} (f : A → List ℕ) (acc : ℕ) (rows : List A) → length (ends f acc rows) ≡ length rows
unfolding ends
length-ends f acc [] = refl
length-ends f acc (r ∷ rows) = ap suc (length-ends f (acc + length (f r)) rows)

-- The columns that may be left out have the right length where they are there.
optional_columns :
    (m : ℕ) (name other : Text) (v t : Bool) (column es : List ℕ)
    → length column ≡ m
    → length es ≡ m
    → All
        (λ (c : Text × ℕ). c.1 ≡ m)
        (optional name (if v then some column else none)
          ++ optional_offsets other (if t then some (0 ∷ es) else none))
unfolding optional optional_offsets
optional_columns m name other false false column es h k = tt
optional_columns m name other false true column es h k = (omega (arith, k), tt)
optional_columns m name other true false column es h k = (h, tt)
optional_columns m name other true true column es h k = (h, (omega (arith, k), tt))

module _ (c : Columns) (rows : List Row) (rep : Represents c rows)
    (some_rows : 0 < length rows) where
  -- The columns of a staged dataset agree in length.
  to_dataset-checked :
      (id base_url : Text) (last : ℕ) (generations : List (ℕ × Text))
      → check_worker_dataset (to_dataset id base_url last generations c) ≡ ok tt
  unfolding check_worker_dataset to_dataset
  to_dataset-checked id base_url last generations =
      let d = to_dataset id base_url last generations c in
      let count : length c.first_blocks ≡ length rows =
        ap length rep.first_blocks ∙ length-map (λ (r : Row). r.range_start) rows in
      let tops : check_top_runs c.tops ≡ ok tt =
        check_top_runs-TopsFor c.tops (map (λ (r : Row). r.top) rows) rep.tops
          (omega (arith, length-map (λ (r : Row). r.top) rows)) in
      (check_columns_iff (length c.first_blocks) (worker_dense d)
          ((name_tops, first_run c.tops) ∷ [])).1
        (
          (
            ap length rep.block_deltas ∙ length-map delta rows ∙ sym count,
            (
              ap length rep.hashes ∙ length-map (λ (r : Row). r.hash) rows ∙ sym count,
              (
                ap length rep.sizes ∙ length-map (λ (r : Row). r.size) rows ∙ sym count,
                (
                  ap length rep.write_schema_ids
                      ∙ length-map (λ (r : Row). r.write_schema_id) rows
                      ∙ sym count,
                  (
                    omega (
                      arith,
                      ap length rep.worker_ends,
                      length-ends (λ (r : Row). r.workers) 0 rows,
                      count,
                    ),
                    optional_columns (length c.first_blocks) name_versions
                        name_tables_present_offsets (any_versioned c.versions) c.any_tables_trimmed
                        c.versions c.tables_present_ends
                        (ap length rep.versions
                          ∙ length-map (λ (r : Row). r.version) rows
                          ∙ sym count)
                        (ap length rep.tables_present_ends
                          ∙ length-map (λ n. n % u32_mod) (ends (λ (r : Row). r.bits) 0 rows)
                          ∙ length-ends (λ (r : Row). r.bits) 0 rows
                          ∙ sym count),
                  ),
                ),
              ),
            ),
          ),
          (first_run_at_zero c.tops tops, tt),
        )

-- What the check of a dataset says of its worker offsets.
pub check_worker_dataset-offsets :
    (d : Dataset)
    → check_worker_dataset d ≡ ok tt
    → length d.worker_offsets - 1 ≡ length d.first_blocks
unfolding check_worker_dataset
check_worker_dataset-offsets d h =
    let (dense, _) =
      (check_columns_iff (length d.first_blocks) (worker_dense d)
          ((name_tops, first_run d.tops) ∷ [])).0
        h in
    dense.1.1.1.1.0

pub check_datasets-All :
    {D : Type 0} (check : D → Outcome (Unit {0}) (Unit {0})) (datasets : List D)
    → check_datasets check datasets ≡ ok tt
    → All (λ d. check d ≡ ok tt) datasets
unfolding check_datasets
check_datasets-All check [] h = tt
check_datasets-All check (d ∷ datasets) h = from (check d) refl (check_datasets-All check datasets)
  where
    from :
        (r : Outcome (Unit {0}) (Unit {0}))
        → check d ≡ r
        → (check_datasets check datasets ≡ ok tt → All (λ d. check d ≡ ok tt) datasets)
        → (check d ≡ ok tt) × All (λ d. check d ≡ ok tt) datasets
    from (ok tt) e more = (e, more (ground (arith, e)))
    from (err tt) e more = absurd (ground (arith, e))
    from panic e more = absurd (ground (arith, e))

check_datasets-push :
    {D : Type 0} (check : D → Outcome (Unit {0}) (Unit {0})) (datasets : List D) (d : D)
    → check_datasets check datasets ≡ ok tt
    → check d ≡ ok tt
    → check_datasets check (push datasets d) ≡ ok tt
unfolding check_datasets
check_datasets-push check [] d h k = ground (arith, k)
check_datasets-push check (x ∷ datasets) d h k =
    from (check x) refl (check_datasets-push check datasets d)
  where
    from :
        (r : Outcome (Unit {0}) (Unit {0}))
        → check x ≡ r
        → (check_datasets check datasets ≡ ok tt
            → check d ≡ ok tt
            → check_datasets check (push datasets d) ≡ ok tt)
        → check_datasets check (x ∷ push datasets d) ≡ ok tt
    from (ok tt) e more =
        let rest : check_datasets check datasets ≡ ok tt = ground (arith, e) in
        ground (arith, e, more rest k)
    from (err tt) e more = absurd (ground (arith, e))
    from panic e more = absurd (ground (arith, e))

-- Where the datasets of a worker's builder pass the check on load, they still do once it has finished
-- another one, opened empty and staged with at least one chunk and none refused: `from_owned` accepts
-- what the builder emits, optional columns included.
pub finish_dataset-loads :
    {P E : Type 0} (b b' : Builder P E) (rows : List Row) (id base_url : Text)
    → b.columns ≡ no_columns
    → push_all b rows ≡ some b'
    → 0 < length rows
    → worker_from_owned b.all_datasets ≡ ok tt
    → worker_from_owned (finish_dataset b' id base_url).0.all_datasets ≡ ok tt
unfolding worker_from_owned
finish_dataset-loads b b' rows id base_url c h n loads =
    let (last, l, rep, e) = finish_staged b rows id base_url c h n in
    ap (λ p. check_datasets check_worker_dataset p.0.all_datasets) e
    ∙ check_datasets-push check_worker_dataset b.all_datasets
        (to_dataset id base_url last b.current_generations b'.columns) loads
        (to_dataset-checked b'.columns rows rep n id base_url last b.current_generations)
