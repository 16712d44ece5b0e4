-- ===== src/Assignments/Worker/Refs/Holdings.antt =====
-- `holdings` yields the chunks of a dataset that name the worker.
use sqd_network.Base.{
  ℕ, zero, suc, ◌+◌, ◌-◌, ◌≤◌, ◌<◌, ◌≡◌, ◌↔◌, refl, sym, ap, ◌∙◌, true, false, ◌==◌, min, some,
  List, [], ◌∷◌, length, get_elem?-below, if◌then◌else◌, Mem, arith, inl, inr, Bool-cases, lt_or_le,
}
use sqd_network.Assignments.Columns.{slice}
use sqd_network.Assignments.Worker.{Dataset}
use sqd_network.Assignments.Worker.Reader

-- The chunk names the worker.
abbrev pub Names : Dataset → ℕ → ℕ → Type 0
Names d i w = (workers : List ℕ) × (Reader.worker_indexes d i ≡ some workers) × Mem w workers

pub contains_iff : (ws : List ℕ) (w : ℕ) → (Reader.contains ws w ≡ true) ↔ Mem w ws
unfolding Reader.contains
contains_iff [] w = (λ h. absurd (cc), λ m. absurd m)
contains_iff (v ∷ ws) w = (
  λ h. elim (Bool-cases (v == w)) [
    | inl e ↦ inl (ground arith)
    | inr e ↦ inr ((contains_iff ws w).0 (ground arith))
  ],
  λ m. elim m [ inl e ↦ ground (arith, e) | inr m' ↦ ground (arith, (contains_iff ws w).1 m') ],
)

-- Every chunk has its workers once the offsets are one more than the chunks.
worker_indexes-total :
    (d : Dataset) (i : ℕ)
    → length d.worker_offsets - 1 ≡ length d.first_blocks
    → i < length d.first_blocks
    → (workers : List ℕ) × (Reader.worker_indexes d i ≡ some workers)
unfolding Reader.worker_indexes
worker_indexes-total d i n h =
    let (start, a) = get_elem?-below d.worker_offsets i (omega arith) in
    let (end, b) = get_elem?-below d.worker_offsets (suc i) (omega arith) in
    (
      slice d.worker_indexes start (min end (length d.worker_indexes)),
      rw (a, Reader.worker_indexes, b) refl,
    )

holdings_from-step :
    (d : Dataset) (w i n : ℕ) (ws is : List ℕ)
    → Reader.worker_indexes d i ≡ some ws
    → Reader.holdings_from d w (suc i) n ≡ some is
    → Reader.holdings_from d w i (suc n) ≡ some (if Reader.contains ws w then i ∷ is else is)
unfolding Reader.holdings_from
holdings_from-step d w i n ws is h k = rw (h, Reader.holdings_from, k) refl

-- What `holdings` yields from `i` on.
abbrev pub Holds : Dataset → ℕ → ℕ → ℕ → List ℕ → Type 0
Holds d w i n is = (j : ℕ) → Mem j is ↔ ((i ≤ j) × (j < i + n) × Names d j w)

Holds-suc :
    (d : Dataset) (w i n : ℕ) (ws is : List ℕ)
    → Reader.worker_indexes d i ≡ some ws
    → Holds d w (suc i) n is
    → Holds d w i (suc n) (if Reader.contains ws w then i ∷ is else is)
Holds-suc d w i n ws is h rest = elim (Bool-cases (Reader.contains ws w)) [
  | inl t ↦ rw t (λ j. (
    λ m. elim m [
      | inl e ↦ (omega (arith, e), omega (arith, e), rw e (ws, h, (contains_iff ws w).0 t))
      | inr l ↦ let (lo, hi, names) = (rest j).0 l in (omega (arith, lo), omega (arith, hi), names)
    ],
    λ (lo, hi, names). elim (lt_or_le i j) [
      | inl lt ↦ inr ((rest j).1 (omega (arith, lt), omega (arith, hi), names))
      | inr ge ↦ inl (omega (arith, lo, ge))
    ],
  ))
  | inr t ↦ rw t (λ j. (
    λ m. let (lo, hi, names) = (rest j).0 m in (omega (arith, lo), omega (arith, hi), names),
    λ (lo, hi, names). elim (lt_or_le i j) [
      | inl lt ↦ (rest j).1 (omega (arith, lt), omega (arith, hi), names)
      | inr ge ↦ absurd (unnamed j (omega (arith, lo, ge)) t names)
    ],
  ))
]
  where
    unnamed : (j : ℕ) → j ≡ i → Reader.contains ws w ≡ false → Names d j w → ⊥
    unnamed j e t (vs, at, m) =
        let both : some vs ≡ some ws = sym at ∙ ap (Reader.worker_indexes d) e ∙ h in
        let same : vs ≡ ws = cc in
        let yes = (contains_iff vs w).1 m in
        ground (arith, ap (λ l. Reader.contains l w) same, yes, t)

holdings_from-Holds :
    (d : Dataset) (w i n : ℕ)
    → length d.worker_offsets - 1 ≡ length d.first_blocks
    → i + n ≤ length d.first_blocks
    → (is : List ℕ) × (Reader.holdings_from d w i n ≡ some is) × Holds d w i n is
unfolding Reader.holdings_from
holdings_from-Holds d w i zero k b =
    ([], refl, λ j. (λ m. absurd m, λ h. absurd (omega (arith, h.0, h.1))))
holdings_from-Holds d w i (suc n) k b =
    let (is, e, rest) = holdings_from-Holds d w (suc i) n k (omega (arith, b)) in
    let (ws, h) = worker_indexes-total d i k (omega (arith, b)) in
    (_, holdings_from-step d w i n ws is h e, Holds-suc d w i n ws is h rest)

-- Where the offsets fit the chunks, `holdings` never panics and yields the chunks that name the worker.
pub holdings-Holds :
    (d : Dataset) (w : ℕ)
    → length d.worker_offsets - 1 ≡ length d.first_blocks
    → (is : List ℕ) × (Reader.holdings d w ≡ some is) × Holds d w 0 (length d.first_blocks) is
unfolding Reader.holdings Reader.chunk_count
holdings-Holds d w k = holdings_from-Holds d w 0 (length d.first_blocks) k (omega arith)
