-- ===== src/Assignments/Monolithic/Builder/Staging.antt =====
-- A dataset that the builder of the format of one file took chunk by chunk, and what its reader finds.
use sqd_network.Base.{
  ℕ, zero, suc, ◌≤◌, ◌≡◌, refl, sym, ap, ◌∙◌, Option, none, some, List, [], ◌∷◌, ◌++◌, map,
  get_elem?, All, Outcome, ok, err, panic, arith, inl, inr, lt_or_le,
}
use sqd_network.Base.Text.{Text}
use sqd_network.Assignments.Columns.{push}
use sqd_network.Assignments.Portal.Rows
use sqd_network.Assignments.Portal.Reader.{ChunkNotFound}
use sqd_network.Assignments.Portal.Emission.{Continues, last_end, last_end-some}
use sqd_network.Assignments.Portal.Contiguous.{
  IsBlockRange, All-get_elem?, rows_apart, row_of_block,
}
use sqd_network.Assignments.Monolithic.{Chunk, Dataset, find_chunk}
use sqd_network.Assignments.Monolithic.Lookups.{BlocksAscend, FindsLast, find_chunk-FindsLast}
use sqd_network.Assignments.Monolithic.Builder.Rows.{
  Row, IsRange, written, as_row, stage_all, Staged, stage_all-Staged,
}
use sqd_network.Assignments.Monolithic.Builder.{Builder, expect, finish_dataset}

ranges_as_rows : (rows : List Row) → All IsRange rows → All IsBlockRange (map as_row rows)
ranges_as_rows [] a = tt
ranges_as_rows (r ∷ rows) a = (a.0, ranges_as_rows rows a.1)

-- An entry of a mapped list.
get_elem?-map :
    {A B : Type 0} (f : A → B) (xs : List A) (i : ℕ) (y : B)
    → get_elem? (map f xs) i ≡ some y
    → (x : A) × (get_elem? xs i ≡ some x) × (f x ≡ y)
get_elem?-map f [] i y h = absurd (cc)
get_elem?-map f (x ∷ xs) zero y h = (x, refl, cc)
get_elem?-map f (x ∷ xs) (suc i) y h = get_elem?-map f xs i y h

map-get_elem? :
    {A B : Type 0} (f : A → B) (xs : List A) (i : ℕ) (x : A)
    → get_elem? xs i ≡ some x
    → get_elem? (map f xs) i ≡ some (f x)
map-get_elem? f [] i x h = absurd (cc)
map-get_elem? f (z ∷ xs) zero x h = let e : z ≡ x = cc in rw e refl
map-get_elem? f (z ∷ xs) (suc i) x h = map-get_elem? f xs i x h

-- Chunks of ranges that continue one another begin one after the other.
written-BlocksAscend :
    (o : Option ℕ) (rows : List Row) (d : Dataset)
    → d.chunks ≡ map written rows
    → Continues o (map as_row rows)
    → All IsRange rows
    → BlocksAscend d
written-BlocksAscend o rows d same goes a i j x y lt atx aty =
    let (r, here, e) = get_elem?-map written rows i x (ap (λ l. get_elem? l i) (sym same) ∙ atx) in
    let (s, there, g) = get_elem?-map written rows j y (ap (λ l. get_elem? l j) (sym same) ∙ aty) in
    let ranges = ranges_as_rows rows a in
    let atr = map-get_elem? as_row rows i r here in
    let ats = map-get_elem? as_row rows j s there in
    let apart = rows_apart o (map as_row rows) i j (as_row r) (as_row s) goes ranges lt atr ats in
    let (order, _) = All-get_elem? (map as_row rows) i (as_row r) ranges atr in
    omega (arith, ap (λ (c : Chunk). c.first_block) e, ap (λ (c : Chunk). c.first_block) g)

module _ (o : Option ℕ) (rows : List Row) (d : Dataset) (same : d.chunks ≡ map written rows)
    (goes : Continues o (map as_row rows)) (a : All IsRange rows) where
  -- The chunk whose range has the block is the one that is found.
  range_found :
      (i block : ℕ) (s : Row)
      → get_elem? rows i ≡ some s
      → s.chunk.first_block ≤ block
      → block ≤ s.range_end
      → block ≤ d.last_block
      → find_chunk (some d) block ≡ ok i
  range_found i block s at lo hi most =
      answer (find_chunk (some d) block)
        (find_chunk-FindsLast d block (written-BlocksAscend o rows d same goes a))
    where
      here : get_elem? d.chunks i ≡ some (written s)
      here = ap (λ l. get_elem? l i) same ∙ map-get_elem? written rows i s at

      answer : (f : Outcome ChunkNotFound ℕ) → FindsLast d block f → f ≡ ok i
      answer (ok j) ((c, there, begun, _), later) =
          let (r, place, e) =
            get_elem?-map written rows j c (ap (λ l. get_elem? l j) (sym same) ∙ there) in
          let first = ap (λ (c : Chunk). c.first_block) e in
          elim (lt_or_le i j) [
            | inl lt ↦ absurd (
                omega (
                  arith,
                  rows_apart o (map as_row rows) i j (as_row s) (as_row r) goes
                      (ranges_as_rows rows a) lt (map-get_elem? as_row rows i s at)
                      (map-get_elem? as_row rows j r place),
                  first,
                ))
            | inr le ↦ elim (lt_or_le j i) [
              | inl lt ↦ absurd (omega (arith, later i (written s) here lt))
              | inr ge ↦ ap ok (omega arith)
            ]
          ]
      answer (err ChunkNotFound.after_last) h = absurd (omega arith)
      answer (err ChunkNotFound.before_first) h = absurd (omega (arith, h i (written s) here))
      answer (err ChunkNotFound.in_gap) h = absurd h
      answer (err ChunkNotFound.unknown_dataset) h = absurd h
      answer panic h = absurd h

-- What a reader finds in the dataset that was finished.
pub record ReadsBack (rows : List Row) (d : Dataset) : Type 0 where
  pub chunks : d.chunks ≡ map written rows
  pub finds :
      (block : ℕ)
      → ((r : Row) → get_elem? rows 0 ≡ some r → r.chunk.first_block ≤ block)
      → block ≤ d.last_block
      → (i : ℕ) × (s : Row) × (find_chunk (some d) block ≡ ok i)
        × (get_elem? rows i ≡ some s)
        × (s.chunk.first_block ≤ block)
        × (block ≤ s.range_end)

module _ {P : Type 0} where
  Staged-ReadsBack :
      (b b' : Builder P) (r : Row) (rows : List Row) (last : ℕ) (id : Option Text)
      → b.current_chunks ≡ []
      → Staged b b' (r ∷ rows)
      → last_end (some r.range_end) (map as_row rows) ≡ some last
      → All IsRange (r ∷ rows)
      → ReadsBack (r ∷ rows) (record { id = id; last_block = last; chunks = b'.current_chunks })
  Staged-ReadsBack b b' r rows last id empty s l a =
      let d : Dataset = record { id = id; last_block = last; chunks = b'.current_chunks } in
      let same : d.chunks ≡ map written (r ∷ rows) =
        s.chunks ∙ ap (λ l. l ++ map written (r ∷ rows)) empty in
      record {
        chunks = same;
        finds = λ block first most.
            let (i, x, at, lo, hi) =
              row_of_block (as_row r) (map as_row rows) last block a.0.1 s.goes.1
                (ranges_as_rows rows a.1) l (first r refl) most in
            let (t, place, e) = get_elem?-map as_row (r ∷ rows) i x at in
            let begins = ap (λ (x : Rows.Row). x.range_start) e in
            let ends = ap (λ (x : Rows.Row). x.range_end) e in
            (
              i,
              t,
              range_found b.last_block (r ∷ rows) d same s.goes a i block t place
                  (omega (arith, begins)) (omega (arith, ends)) most,
              place,
              omega (arith, begins),
              omega (arith, ends),
            );
      }

  -- A dataset that was begun with no chunk and no last block, and took one chunk or more, none of
  -- them refused and each of a block range that is not empty and ends below 2^64 - 1, is finished:
  -- one dataset is added, and the builder is ready for the next. Its chunks are those staged, in
  -- their order, each with its id as its url, and `find_chunk` finds for every block from the
  -- first chunk's first to the dataset's last one the chunk whose range has it.
  pub finish_dataset-ReadsBack :
      (b b' : Builder P) (r : Row) (rows : List Row)
      → b.current_chunks ≡ []
      → stage_all b (r ∷ rows) ≡ some b'
      → All IsRange (r ∷ rows)
      → (d : Dataset) × (b'' : Builder P) × (finish_dataset b' ≡ ok b'')
        × (b''.all_datasets ≡ push b.all_datasets d)
        × (b''.current_chunks ≡ [])
        × (b''.last_block ≡ none)
        × ReadsBack (r ∷ rows) d
  unfolding finish_dataset last_end
  finish_dataset-ReadsBack b b' r rows empty h a =
      let s = stage_all-Staged (r ∷ rows) b b' h in
      let (last, l) = last_end-some r.range_end (map as_row rows) in
      let d : Dataset = record {
        id = b'.current_dataset_id_offset;
        last_block = last;
        chunks = b'.current_chunks;
      } in
      (
        d,
        record b' {
          all_datasets = push b'.all_datasets d;
          current_dataset_id_offset = none;
          last_block = none;
          current_chunks = [];
        },
        finished b' last (s.last ∙ l),
        ap (λ x. push x d) s.datasets,
        refl,
        refl,
        Staged-ReadsBack b b' r rows last b'.current_dataset_id_offset empty s l a,
      )
    where
      finished :
          (b' : Builder P) (last : ℕ)
          → b'.last_block ≡ some last
          → finish_dataset b'
            ≡ ok (record b' {
              all_datasets = push b'.all_datasets (record {
                id = b'.current_dataset_id_offset;
                last_block = last;
                chunks = b'.current_chunks;
              });
              current_dataset_id_offset = none;
              last_block = none;
              current_chunks = [];
            })
      finished b' last e = unfold finish_dataset expect in ground (arith, e)
