-- ===== src/Assignments/Portal/Contiguous.antt =====
-- Rows that passed the continuity test lie one behind the other and leave no block out.
use sqd_network.Base.{
  ℕ, zero, suc, ◌+◌, ◌≤◌, ◌<◌, ◌≡◌, refl, Option, some, List, [], ◌∷◌, get_elem?, All, u64_mod,
  arith, inl, inr, lt_or_le,
}
use sqd_network.Assignments.Worker.{continuity}
use sqd_network.Assignments.Portal.Rows.{Row}
use sqd_network.Assignments.Portal.Emission.{Continues, last_end}

-- A range that is not empty and ends before the last 64-bit number.
abbrev pub IsBlockRange : Row → Type 0
IsBlockRange r = (r.range_start ≤ r.range_end) × (r.range_end + 1 < u64_mod)

pub All-get_elem? :
    (rows : List Row) (i : ℕ) (r : Row)
    → All IsBlockRange rows
    → get_elem? rows i ≡ some r
    → IsBlockRange r
All-get_elem? [] i r a h = absurd (cc)
All-get_elem? (x ∷ rows) zero r a h = let e : x ≡ r = cc in rw (← e) a.0
All-get_elem? (x ∷ rows) (suc i) r a h = All-get_elem? rows i r a.1 h

-- Rows that continue a block lie after it.
pub rows_after :
    (last : ℕ) (rows : List Row) (i : ℕ) (r : Row)
    → last + 1 < u64_mod
    → Continues (some last) rows
    → All IsBlockRange rows
    → get_elem? rows i ≡ some r
    → last < r.range_start
unfolding continuity
rows_after last [] i r m c a h = absurd (cc)
rows_after last (x ∷ rows) zero r m c a h = let e : x ≡ r = cc in rw (← e) (ground (arith, c.0))
rows_after last (x ∷ rows) (suc i) r m c a h =
    let after = rows_after x.range_end rows i r a.0.1 c.1 a.1 h in
    let first : last < x.range_start = ground (arith, c.0) in omega (arith, a.0.0)

pub rows_apart :
    (o : Option ℕ) (rows : List Row) (i j : ℕ) (r s : Row)
    → Continues o rows
    → All IsBlockRange rows
    → i < j
    → get_elem? rows i ≡ some r
    → get_elem? rows j ≡ some s
    → r.range_end < s.range_start
rows_apart o [] i j r s c a lt h k = absurd (cc)
rows_apart o (x ∷ rows) i zero r s c a lt h k = absurd (omega arith)
rows_apart o (x ∷ rows) zero (suc j) r s c a lt h k =
    let e : x ≡ r = cc in rw (← e) (rows_after x.range_end rows j s a.0.1 c.1 a.1 k)
rows_apart o (x ∷ rows) (suc i) (suc j) r s c a lt h k =
    rows_apart (some x.range_end) rows i j r s c.1 a.1 (omega arith) h k

-- No row ends after the last one.
pub ends_by_last :
    (l : ℕ) (rows : List Row) (last : ℕ)
    → l + 1 < u64_mod
    → Continues (some l) rows
    → All IsBlockRange rows
    → last_end (some l) rows ≡ some last
    → (l ≤ last) × ((i : ℕ) (r : Row) → get_elem? rows i ≡ some r → r.range_end ≤ last)
unfolding last_end
ends_by_last l [] last m c a e = (let k : l ≡ last = cc in omega arith, λ i r h. absurd (cc))
ends_by_last l (x ∷ rows) last m c a e =
    let (most, rest) = ends_by_last x.range_end rows last a.0.1 c.1 a.1 e in
    let first : l < x.range_start = rows_after l (x ∷ rows) 0 x m c a refl in
    (omega (arith, a.0.0), bound most rest)
  where
    bound :
        x.range_end ≤ last
        → ((i : ℕ) (r : Row) → get_elem? rows i ≡ some r → r.range_end ≤ last)
        → (i : ℕ) (r : Row) → get_elem? (x ∷ rows) i ≡ some r
        → r.range_end ≤ last
    bound most rest zero r h = let k : x ≡ r = cc in rw (← k) most
    bound most rest (suc i) r h = rest i r h

-- Contiguous rows leave no block out.
pub row_of_block :
    (r : Row) (rows : List Row) (last block : ℕ)
    → r.range_end + 1 < u64_mod
    → Continues (some r.range_end) rows
    → All IsBlockRange rows
    → last_end (some r.range_end) rows ≡ some last
    → r.range_start ≤ block
    → block ≤ last
    → (i : ℕ) × (s : Row) × (get_elem? (r ∷ rows) i ≡ some s)
      × (s.range_start ≤ block)
      × (block ≤ s.range_end)
unfolding last_end continuity
row_of_block r [] last block m c a e lo hi =
    (0, r, refl, lo, (let k : r.range_end ≡ last = cc in omega arith))
row_of_block r (x ∷ rows) last block m c a e lo hi = elim (lt_or_le r.range_end block) [
  | inl later ↦
      let (i, s, at, l, h) =
        row_of_block x rows last block a.0.1 c.1 a.1 e (ground (arith, c.0)) hi in
      (suc i, s, at, l, h)
  | inr here ↦ (0, r, refl, lo, here)
]

pub rows_from_first :
    (r : Row) (rows : List Row) (i : ℕ) (s : Row)
    → IsBlockRange r
    → Continues (some r.range_end) rows
    → All IsBlockRange rows
    → get_elem? (r ∷ rows) i ≡ some s
    → r.range_start ≤ s.range_start
rows_from_first r rows zero s v c a h = let e : r ≡ s = cc in rw (← e) (omega arith)
rows_from_first r rows (suc i) s v c a h =
    omega (arith, v.0, rows_after r.range_end rows i s v.1 c a h)
