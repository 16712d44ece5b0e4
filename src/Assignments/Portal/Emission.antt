-- ===== src/Assignments/Portal/Emission.antt =====
-- A portal dataset from its first chunk to the reader: push the chunks, emit, read.
use sqd_network.Base.{
  ℕ, ◌<◌, ◌≡◌, refl, ap, ◌∙◌, false, Option, none, some, List, [], ◌∷◌, ◌++◌, append-nil,
  append_assoc, length, length-map, ok, err, panic, ◌==◌, arith,
}
use sqd_network.Base.Text.{Text}
use sqd_network.Assignments.Columns.{push, check_top_runs}
use sqd_network.Assignments.Columns.Runs.{check_top_runs-TopsFor}
use sqd_network.Assignments.Worker.{continuity}
use sqd_network.Assignments.Portal.{
  no_columns, Builder, to_dataset, push_chunk, emit_dataset, finish_dataset,
}
use sqd_network.Assignments.Portal.Rows.{
  Row, Represents, no_columns-Represents, append_row-Represents, with_staged, taken, push_chunk_ok,
}

-- The last block after more rows.
unfoldable pub last_end : Option ℕ → List Row → Option ℕ
last_end o [] = o
last_end o (r ∷ rows) = last_end (some r.range_end) rows

pub last_end-some : (o : ℕ) (rows : List Row) → (last : ℕ) × (last_end (some o) rows ≡ some last)
unfolding last_end
last_end-some o [] = (o, refl)
last_end-some o (r ∷ rows) = last_end-some r.range_end rows

-- Each row passed the continuity test against the one before.
abbrev pub Continues : Option ℕ → List Row → Type 0
Continues o [] = Unit
Continues o (r ∷ rows) = (continuity o r.range_start ≡ ok tt) × Continues (some r.range_end) rows

module _ {P S : Type 0} where
  -- The chunks of a dataset, pushed one after another; `none` once one is refused.
  unfoldable pub push_all : Builder P S → List Row → Option (Builder P S)
  push_all b [] = some b
  push_all b (r ∷ rows) =
      let next = push_chunk (with_staged b r) r.chunk in
      let rest = push_all next.0 rows in elim next.1 [ ok _ ↦ rest | err _ ↦ none | panic ↦ none ]

  push_all_step :
      (b : Builder P S) (r : Row) (rows : List Row) {b' : Builder P S}
      → push_all b (r ∷ rows) ≡ some b'
      → (continuity b.last_block r.range_start ≡ ok tt) × (push_all (taken b r) rows ≡ some b')
  unfolding push_all
  push_all_step b r rows h = ground (arith, push_chunk_ok b r)

  pub push_all-Represents :
      (b : Builder P S) (before rows : List Row) {b' : Builder P S}
      → Represents b.columns before
      → push_all b rows ≡ some b'
      → Represents b'.columns (before ++ rows)
        × (b'.last_block ≡ last_end b.last_block rows)
        × Continues b.last_block rows
        × (b'.all_datasets ≡ b.all_datasets)
  unfolding push_all last_end
  push_all-Represents b before [] {b'} rep h =
      let e : b ≡ b' = cc in rw (← e, append-nil) (rep, refl, tt, refl)
  push_all-Represents b before (r ∷ rows) rep h =
      let (go, more) = push_all_step b r rows h in
      let (represents, ended, goes, sets) =
        push_all-Represents (taken b r) (push before r) rows
          (append_row-Represents b.columns before r rep) more in
      (rw append_assoc at represents, ended, (go, goes), sets)

  -- The builder once its dataset is emitted.
  abbrev closed : Builder P S → Text → ℕ → Option Text → ℕ → Builder P S
  closed b id schema hash last = record b {
    all_datasets = push b.all_datasets (to_dataset id schema hash last b.columns);
    columns = no_columns;
    last_block = none;
  }

  emit_dataset-closed :
      (b : Builder P S) (id : Text) (schema : ℕ) (hash : Option Text) (last : ℕ)
      → 0 < length b.columns.first_blocks
      → check_top_runs b.columns.tops ≡ ok tt
      → b.last_block ≡ some last
      → emit_dataset b id schema hash ≡ (closed b id schema hash last, ok tt)
  unfolding emit_dataset
  emit_dataset-closed b id schema hash last n c l =
      let e : (length b.columns.first_blocks == 0) ≡ false = ground arith in
      rw (e, c, emit_dataset, l)

  finish_dataset-closed :
      (b : Builder P S) (id : Text) (schema : ℕ) (hash : Option Text) (last : ℕ)
      → emit_dataset b id schema hash ≡ (closed b id schema hash last, ok tt)
      → finish_dataset b id schema hash ≡ (closed b id schema hash last, ok tt)
  unfolding finish_dataset
  finish_dataset-closed b id schema hash last e = ground arith

  pub finish_staged :
      (b : Builder P S) (r : Row) (rows : List Row) {b' : Builder P S} (id : Text) (schema : ℕ)
      (hash : Option Text)
      → b.columns ≡ no_columns
      → push_all b (r ∷ rows) ≡ some b'
      → (last : ℕ) × (last_end (some r.range_end) rows ≡ some last)
        × Represents b'.columns (r ∷ rows)
        × Continues b.last_block (r ∷ rows)
        × (finish_dataset b' id schema hash ≡ (
          record b' {
            all_datasets = push b.all_datasets (to_dataset id schema hash last b'.columns);
            columns = no_columns;
            last_block = none;
          },
          ok tt,
        ))
  unfolding last_end
  finish_staged b r rows {b'} id schema hash c h =
      let (rep, ended, goes, sets) =
        push_all-Represents b [] (r ∷ rows) (rw c no_columns-Represents) h in
      let (last, l) = last_end-some r.range_end rows in
      let count : length b'.columns.first_blocks ≡ length (r ∷ rows) =
        ap length rep.first_blocks ∙ length-map (λ (x : Row). x.range_start) (r ∷ rows) in
      let tops = check_top_runs-TopsFor b'.columns.tops _ rep.tops (omega arith) in
      (
        last,
        l,
        rep,
        goes,
        rw (← sets) (
            finish_dataset-closed b' id schema hash last
              (emit_dataset-closed b' id schema hash last (omega arith) tops (ended ∙ l))),
      )
