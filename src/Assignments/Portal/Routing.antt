-- ===== src/Assignments/Portal/Routing.antt =====
-- A portal finds, in the dataset that the builder emitted, the chunk that was staged for a block.
use sqd_network.Base.{
  ℕ, zero, suc, ◌≤◌, ◌<◌, ◌≡◌, refl, sym, ap, ◌∙◌, Option, none, some, List, [], ◌∷◌, length,
  length-map, get_elem?, get_elem?-bound, get_elem?-below, All, Outcome, ok, err, panic, arith, inl,
  inr, lt_or_le,
}
use sqd_network.Base.Text.{Text}
use sqd_network.Assignments.Columns.{push}
use sqd_network.Assignments.Portal.{no_columns, Dataset, Builder, to_dataset, finish_dataset}
use sqd_network.Assignments.Portal.Rows.{Row}
use sqd_network.Assignments.Portal.Reader.{ChunkNotFound, first_block, last_block, find_chunk}
use sqd_network.Assignments.Portal.Finding.{IsOrdered, Finds, find_chunk-Finds}
use sqd_network.Assignments.Portal.Emission.{Continues, last_end, push_all, finish_staged}
use sqd_network.Assignments.Portal.Contiguous.{
  IsBlockRange, All-get_elem?, rows_apart, ends_by_last, row_of_block, rows_from_first,
}
use sqd_network.Assignments.Portal.ReadBack.{ReadsAs, row_reads_back}

-- The last block is where the last row ends.
last_end-last :
    (r : Row) (rows : List Row) (last i : ℕ) (s : Row)
    → last_end (some r.range_end) rows ≡ some last
    → get_elem? (r ∷ rows) i ≡ some s
    → suc i ≡ length (r ∷ rows)
    → last ≡ s.range_end
unfolding last_end
last_end-last r [] last zero s l at n =
    let e : r ≡ s = cc in let k : r.range_end ≡ last = cc in sym k ∙ ap (λ (x : Row). x.range_end) e
last_end-last r [] last (suc i) s l at n = absurd (cc at)
last_end-last r (x ∷ rows) last zero s l at n = absurd (omega (arith, n))
last_end-last r (x ∷ rows) last (suc i) s l at n =
    last_end-last x rows last i s l at (omega (arith, n))

-- The emitted dataset is read back row by row.
abbrev pub ReadsBack : Dataset → List Row → Type 0
ReadsBack d rows = (i : ℕ) (r : Row) → get_elem? rows i ≡ some r → ReadsAs d i r

module _ (d : Dataset) (rows : List Row) (reads : ReadsBack d rows)
    (count : length d.first_blocks ≡ length rows) (a : All IsBlockRange rows) where
  row_at :
      (i f : ℕ)
      → first_block d i ≡ some f
      → (r : Row) × (get_elem? rows i ≡ some r) × (f ≡ r.range_start)
  unfolding first_block
  row_at i f h =
      let (r, at) = get_elem?-below rows i (omega (arith, get_elem?-bound d.first_blocks i f h)) in
      (r, at, same f r.range_start (sym h ∙ (reads i r at).first_block))
    where
      same : (m n : ℕ) → some m ≡ some n → m ≡ n
      same m n e = cc

  last_of :
      (i l : ℕ) (r : Row) → get_elem? rows i ≡ some r → last_block d i ≡ some l → l ≡ r.range_end
  last_of i l r at h = same l r.range_end (sym h ∙ (reads i r at).last_block)
    where
      same : (m n : ℕ) → some m ≡ some n → m ≡ n
      same m n e = cc

  last_row : (i l : ℕ) → last_block d i ≡ some l → (f : ℕ) × (first_block d i ≡ some f)
  unfolding last_block
  last_row i l h = from (first_block d i) refl
    where
      from : (o : Option ℕ) → first_block d i ≡ o → (f : ℕ) × (first_block d i ≡ some f)
      from none e = absurd (ground arith)
      from (some f) e = (f, e)

  emitted-IsOrdered : (o : Option ℕ) → Continues o rows → IsOrdered d
  emitted-IsOrdered o c = record {
    ends_after = λ i f h.
        let (r, at, e) = row_at i f h in
        (r.range_end, (reads i r at).last_block, omega (arith, (All-get_elem? rows i r a at).0));
    apart = λ i j l f lt last first.
        let (g, begins) = last_row i l last in
        let (r, at, e) = row_at i g begins in
        let (s, there, k) = row_at j f first in
        omega (arith, last_of i l r at last, rows_apart o rows i j r s c a lt at there);
  }

  -- Where a row holds the block, its index is the answer.
  row_found :
      (o : Option ℕ)
      → Continues o rows
      → (i block : ℕ) (r : Row) → get_elem? rows i ≡ some r
      → r.range_start ≤ block
      → block ≤ r.range_end
      → r.range_end ≤ d.last_block
      → find_chunk (some d) block ≡ ok i
  row_found o c i block r at lo hi most =
      answer (find_chunk (some d) block) (find_chunk-Finds d block (emitted-IsOrdered o c))
    where
      answer : (f : Outcome ChunkNotFound ℕ) → Finds d block f → f ≡ ok i
      answer (ok j) (f, l, first, last, begun, ends) =
          let (s, there, k) = row_at j f first in
          let e = last_of j l s there last in
          elim (lt_or_le i j) [
            | inl lt ↦ absurd (omega (arith, rows_apart o rows i j r s c a lt at there))
            | inr le ↦ elim (lt_or_le j i) [
              | inl lt ↦ absurd (omega (arith, rows_apart o rows j i s r c a lt there at))
              | inr ge ↦ ap ok (omega arith)
            ]
          ]
      answer (err ChunkNotFound.after_last) h = absurd (omega arith)
      answer (err ChunkNotFound.before_first) h =
          absurd (omega (arith, h i r.range_start (reads i r at).first_block))
      answer (err ChunkNotFound.in_gap) h = absurd (
          omega (
            arith,
            h.1 i r.range_start r.range_end (reads i r at).first_block (reads i r at).last_block lo,
          ))
      answer (err ChunkNotFound.unknown_dataset) h = absurd h
      answer panic h = absurd h

  before_rows :
      (o : Option ℕ)
      → Continues o rows
      → (block low : ℕ) → ((i : ℕ) (r : Row) → get_elem? rows i ≡ some r → low ≤ r.range_start)
      → block < low
      → block ≤ d.last_block
      → find_chunk (some d) block ≡ err ChunkNotFound.before_first
  before_rows o c block low least lt most =
      answer (find_chunk (some d) block) (find_chunk-Finds d block (emitted-IsOrdered o c))
    where
      answer : (f : Outcome ChunkNotFound ℕ) → Finds d block f → f ≡ err ChunkNotFound.before_first
      answer (ok j) (f, l, first, last, begun, ends) =
          let (s, there, k) = row_at j f first in absurd (omega (arith, least j s there))
      answer (err ChunkNotFound.after_last) h = absurd (omega arith)
      answer (err ChunkNotFound.before_first) h = refl
      answer (err ChunkNotFound.in_gap) ((j, f, first, begun), h) =
          let (s, there, k) = row_at j f first in absurd (omega (arith, least j s there))
      answer (err ChunkNotFound.unknown_dataset) h = absurd h
      answer panic h = absurd h

module _ {P S : Type 0} where
  -- A portal dataset that was opened empty, took at least one chunk of a block range that is not
  -- empty and ends below 2^64 - 1, and refused none, is emitted: `finish` succeeds, adds one
  -- dataset and leaves the columns empty. The dataset's last block is where the last chunk ends.
  -- The reader returns for every index the values staged there, and `find_chunk` on the dataset
  -- finds, for every block from the first chunk's first to the last chunk's last, the chunk that
  -- was staged with that block; before it answers `before_first`, and behind it `after_last`.
  pub finish_dataset_routes :
      (b b' : Builder P S) (r : Row) (rows : List Row) (id : Text) (schema : ℕ) (head : Option Text)
      → b.columns ≡ no_columns
      → push_all b (r ∷ rows) ≡ some b'
      → All IsBlockRange (r ∷ rows)
      → (d : Dataset) × ((finish_dataset b' id schema head).1 ≡ ok tt)
        × ((finish_dataset b' id schema head).0.all_datasets ≡ push b.all_datasets d)
        × ((finish_dataset b' id schema head).0.columns ≡ no_columns)
        × ((i : ℕ) (s : Row)
            → get_elem? (r ∷ rows) i ≡ some s
            → suc i ≡ length (r ∷ rows)
            → d.last_block ≡ s.range_end)
        × ReadsBack d (r ∷ rows)
        × ((block : ℕ)
            → r.range_start ≤ block
            → block ≤ d.last_block
            → (i : ℕ) × (s : Row) × (find_chunk (some d) block ≡ ok i)
              × (get_elem? (r ∷ rows) i ≡ some s)
              × (s.range_start ≤ block)
              × (block ≤ s.range_end))
        × ((block : ℕ)
            → block < r.range_start
            → find_chunk (some d) block ≡ err ChunkNotFound.before_first)
        × ((block : ℕ)
            → d.last_block < block
            → find_chunk (some d) block ≡ err ChunkNotFound.after_last)
  unfolding to_dataset
  finish_dataset_routes b b' r rows id schema head c h a =
      let (last, l, rep, goes, e) = finish_staged b r rows id schema head c h in
      let d = to_dataset id schema head last b'.columns in
      let reads : ReadsBack d (r ∷ rows) = λ i s at.
        let (order, range) = All-get_elem? (r ∷ rows) i s a at in
        row_reads_back id schema head last b'.columns (r ∷ rows) rep i s at order (omega arith) in
      let count : length d.first_blocks ≡ length (r ∷ rows) =
        ap length rep.first_blocks ∙ length-map (λ (x : Row). x.range_start) (r ∷ rows) in
      let (first_by, all_by) = ends_by_last r.range_end rows last a.0.1 goes.1 a.1 l in
      (
        d,
        ap (λ p. p.1) e,
        ap (λ p. p.0.all_datasets) e,
        ap (λ p. p.0.columns) e,
        λ i s at final. last_end-last r rows last i s l at final,
        reads,
        λ block lo hi.
            let (i, s, at, from, to) = row_of_block r rows last block a.0.1 goes.1 a.1 l lo hi in
            (
              i,
              s,
              row_found d (r ∷ rows) reads count a b.last_block goes i block s at from to
                  (by_last r rows last first_by all_by i s at),
              at,
              from,
              to,
            ),
        λ block lt.
            before_rows d (r ∷ rows) reads count a b.last_block goes block r.range_start
              (λ i s at. rows_from_first r rows i s a.0 goes.1 a.1 at) lt (omega (arith, a.0.0)),
        λ block past. past_last d block past,
      )
    where
      by_last :
          (r : Row) (rows : List Row) (last : ℕ)
          → r.range_end ≤ last
          → ((i : ℕ) (s : Row) → get_elem? rows i ≡ some s → s.range_end ≤ last)
          → (i : ℕ) (s : Row) → get_elem? (r ∷ rows) i ≡ some s
          → s.range_end ≤ last
      by_last r rows last most rest zero s at = let k : r ≡ s = cc in rw (← k) most
      by_last r rows last most rest (suc i) s at = rest i s at

      past_last :
          (d : Dataset) (block : ℕ)
          → d.last_block < block
          → find_chunk (some d) block ≡ err ChunkNotFound.after_last
      past_last d block past = unfold find_chunk in ground arith
