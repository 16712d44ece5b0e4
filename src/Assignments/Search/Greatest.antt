-- ===== src/Assignments/Search/Greatest.antt =====
-- `binary_search_by`: the greatest item at or before a key.
use sqd_network.Base.{
  ℕ, zero, suc, ◌+◌, ◌-◌, ◌/◌, ◌≤◌, ◌<◌, ◌≡◌, none, some, Ordering, arith, inl, inr, ltb, ltb→lt,
  ltb-false, ◌==◌, if◌then◌else◌, false, Bool-cases, Ordering-cases,
}
use sqd_network.Assignments.Search.{Found, found, missing, greatest_loop, binary_search_by}
use sqd_network.Assignments.Search.Keyed.{IsAscending}

-- `found i`: the item at `i` compares equal. `missing (some i)`: the items up to `i` compare less,
-- and all after it greater. `missing none`: all compare greater.
abbrev pub Splits : ℕ → (ℕ → Ordering) → Found → Type 0
Splits len cmp (found i) = (i < len) × (cmp i ≡ Ordering.eq)
Splits len cmp (missing (some i)) =
    (i < len)
    × ((j : ℕ) → j ≤ i → cmp j ≡ Ordering.lt)
    × ((j : ℕ) → i < j → j < len → cmp j ≡ Ordering.gt)
Splits len cmp (missing none) = (j : ℕ) → j < len → cmp j ≡ Ordering.gt

-- The loop has closed in on the boundary between `lt` and `gt`.
closed :
    (len : ℕ) (cmp : ℕ → Ordering) (left : ℕ)
    → left ≤ len
    → ((j : ℕ) → j < left → cmp j ≡ Ordering.lt)
    → ((j : ℕ) → left ≤ j → j < len → cmp j ≡ Ordering.gt)
    → Splits len cmp (missing (if left == 0 then none else some (left - 1)))
closed len cmp zero b lo hi = λ j p. hi j (omega arith) p
closed len cmp (suc l) b lo hi =
    let e : (suc l == 0) ≡ false = ground arith in
    rw e (omega arith, λ j p. lo j (omega arith), λ j p q. hi j (omega arith) q)

greatest_loop-Splits :
    (len : ℕ) (cmp : ℕ → Ordering)
    → IsAscending cmp
    → (fuel left right : ℕ) → right ≤ left + fuel
    → left ≤ right
    → right ≤ len
    → ((j : ℕ) → j < left → cmp j ≡ Ordering.lt)
    → ((j : ℕ) → right ≤ j → j < len → cmp j ≡ Ordering.gt)
    → Splits len cmp (greatest_loop fuel cmp left right)
unfolding greatest_loop
greatest_loop-Splits len cmp asc zero left right w o b lo hi =
    closed len cmp left (omega arith) lo (λ j p q. hi j (omega arith) q)
greatest_loop-Splits len cmp asc (suc fuel) left right w o b lo hi =
    let mid = (left + right - 1) / 2 in
    elim (Bool-cases (ltb left right)) [
      | inr done ↦ rw done (
          closed len cmp left (omega arith) lo
            (λ j p q. hi j (omega (arith, ltb-false left right done)) q))
      | inl more ↦
          let lt = ltb→lt left right more in
          elim (Ordering-cases (cmp mid)) [
            | inl e ↦
                rw (more, e)
                  (greatest_loop-Splits len cmp asc fuel (mid + 1) right (omega arith) (omega arith)
                    b (λ j p. asc.lt_below j mid (omega arith) e) hi)
            | inr (inl e) ↦ rw (more, e) (omega arith, e)
            | inr (inr e) ↦
                rw (more, e)
                  (greatest_loop-Splits len cmp asc fuel left mid (omega arith) (omega arith)
                    (omega arith) lo (λ j p q. asc.gt_above mid j p e))
          ]
    ]

-- Over items in ascending order, `binary_search_by` returns an item that compares equal, or else the
-- greatest that compares less (everything after it compares greater), or else that all are greater.
pub binary_search_by-Splits :
    (len : ℕ) (cmp : ℕ → Ordering) → IsAscending cmp → Splits len cmp (binary_search_by len cmp)
unfolding binary_search_by
binary_search_by-Splits len cmp asc =
    greatest_loop-Splits len cmp asc len 0 len (omega arith) (omega arith) (omega arith)
      (λ j p. absurd (omega arith)) (λ j p q. absurd (omega arith))
