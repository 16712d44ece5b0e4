-- ===== src/Assignments/Search/Keyed.antt =====
-- `lookup_index_by_key`: the lookup of a worker by its peer id.
use sqd_network.Base.{
  refl, ℕ, zero, suc, ◌+◌, ◌-◌, ◌/◌, ◌≤◌, ◌<◌, ◌≡◌, ◌≢◌, Option, none, some, Ordering, arith, inl,
  inr, leb, leb→le, leb-false, ◌==◌, ==_iff, lt_or_le, Bool-cases, Ordering-cases,
}
use sqd_network.Assignments.Search.{
  lookup_loop, lookup_index_by_key, try_lookup_loop, try_lookup_index_by_key,
}

-- Entries sorted by key: `f` answers `lt` on a prefix, `gt` on a suffix.
pub record IsAscending (f : ℕ → Ordering) : Type 0 where
  pub lt_below : (i j : ℕ) → i ≤ j → f j ≡ Ordering.lt → f i ≡ Ordering.lt
  pub gt_above : (i j : ℕ) → i ≤ j → f i ≡ Ordering.gt → f j ≡ Ordering.gt

-- What a lookup returns: an entry with the key, or `none` where no entry has it.
abbrev pub Answers : ℕ → (ℕ → Ordering) → Option ℕ → Type 0
Answers len f (some k) = (k < len) × (f k ≡ Ordering.eq)
Answers len f none = (i : ℕ) → i < len → f i ≢ Ordering.eq

-- No entry has the key: left of the interval, right of it, and nothing is in it.
exhausted :
    (len : ℕ) (f : ℕ → Ordering) (left right : ℕ)
    → right < left
    → ((i : ℕ) → i < left → f i ≢ Ordering.eq)
    → ((i : ℕ) → right < i → i < len → f i ≢ Ordering.eq)
    → Answers len f none
exhausted len f left right w lo hi =
    λ i p. elim (lt_or_le i left) [ inl l ↦ lo i l | inr g ↦ hi i (omega arith) p ]

below_misses :
    (f : ℕ → Ordering)
    → IsAscending f
    → (m : ℕ) → f m ≡ Ordering.lt
    → (i : ℕ) → i ≤ m
    → f i ≢ Ordering.eq
below_misses f asc m h i le e = cc (asc.lt_below i m le h)

above_misses :
    (f : ℕ → Ordering)
    → IsAscending f
    → (m : ℕ) → f m ≡ Ordering.gt
    → (i : ℕ) → m ≤ i
    → f i ≢ Ordering.eq
above_misses f asc m h i le e = cc (asc.gt_above m i le h)

lookup_loop-Answers :
    (len : ℕ) (f : ℕ → Ordering)
    → IsAscending f
    → (fuel left right : ℕ) → right < left + fuel
    → right < len
    → ((i : ℕ) → i < left → f i ≢ Ordering.eq)
    → ((i : ℕ) → right < i → i < len → f i ≢ Ordering.eq)
    → Answers len f (lookup_loop fuel f left right)
unfolding lookup_loop
lookup_loop-Answers len f asc zero left right w r lo hi =
    exhausted len f left right (omega arith) lo hi
lookup_loop-Answers len f asc (suc fuel) left right w r lo hi =
    let mid = (left + right) / 2 in
    elim (Bool-cases (leb left right)) [
      | inr done ↦ rw done (exhausted len f left right (leb-false left right done) lo hi)
      | inl more ↦
          let le = leb→le left right more in
          elim (Ordering-cases (f mid)) [
            | inl e ↦
                rw (more, e)
                  (lookup_loop-Answers len f asc fuel (mid + 1) right (omega arith) r
                    (λ i p. below_misses f asc mid e i (omega arith)) hi)
            | inr (inl e) ↦ rw (more, e) (omega arith, e)
            | inr (inr e) ↦ elim (Bool-cases (mid == 0)) [
              | inl z ↦
                  rw (more, e, z)
                    (λ i p. above_misses f asc mid e i (omega (arith, (==_iff mid 0).0 z)))
              | inr nz ↦
                  rw (more, e, nz)
                    (lookup_loop-Answers len f asc fuel left (mid - 1) (ground arith) (omega arith)
                      lo (λ i p q. above_misses f asc mid e i (ground arith)))
            ]
          ]
    ]

-- For entries sorted by key, `lookup_index_by_key` returns the index of an entry with the key if
-- there is one, and `none` exactly if no entry has it.
pub lookup_index_by_key-Answers :
    (len : ℕ) (f : ℕ → Ordering) → IsAscending f → Answers len f (lookup_index_by_key len f)
unfolding lookup_index_by_key
lookup_index_by_key-Answers len f asc = elim (Bool-cases (len == 0)) [
  | inl z ↦ rw z (λ i p. absurd (ground arith))
  | inr nz ↦ rw nz (
      lookup_loop-Answers len f asc len 0 (len - 1) (ground arith) (ground arith)
        (λ i p. absurd (omega arith)) (λ i p q. absurd (omega arith)))
]

-- Where no comparison panics, neither does the search, and it answers the same.
try_lookup_loop_lem :
    (g : ℕ → Option Ordering) (f : ℕ → Ordering) (fuel left right : ℕ)
    → ((i : ℕ) → g i ≡ some (f i))
    → try_lookup_loop fuel g left right ≡ some (lookup_loop fuel f left right)
unfolding try_lookup_loop lookup_loop
try_lookup_loop_lem g f zero left right h = refl
try_lookup_loop_lem g f (suc fuel) left right h =
    let mid = (left + right) / 2 in
    ground (
      arith,
      h mid,
      try_lookup_loop_lem g f fuel (mid + 1) right h,
      try_lookup_loop_lem g f fuel left (mid - 1) h,
    )

pub try_lookup_index_by_key_lem :
    (len : ℕ) (g : ℕ → Option Ordering) (f : ℕ → Ordering)
    → ((i : ℕ) → g i ≡ some (f i))
    → try_lookup_index_by_key len g ≡ some (lookup_index_by_key len f)
unfolding try_lookup_index_by_key lookup_index_by_key
try_lookup_index_by_key_lem len g f h = ground (arith, try_lookup_loop_lem g f len 0 (len - 1) h)
