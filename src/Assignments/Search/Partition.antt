-- ===== src/Assignments/Search/Partition.antt =====
-- `partition_point`: the end of the prefix on which the predicate holds.
use sqd_network.Base.{
  ℕ, zero, suc, ◌+◌, ◌-◌, ◌/◌, ◌≤◌, ◌<◌, ◌≡◌, Bool, true, false, arith, inl, inr, Bool-cases, ltb,
  ltb→lt, ltb-false,
}
use sqd_network.Assignments.Search.{partition_loop, partition_point}

-- `pred` holds for a prefix only: once false it stays false.
abbrev pub HoldsForPrefix : (ℕ → Bool) → Type 0
HoldsForPrefix pred = (i j : ℕ) → i ≤ j → pred j ≡ true → pred i ≡ true

-- `r` splits `0..len` into the prefix and the rest.
abbrev pub IsPartition : ℕ → (ℕ → Bool) → ℕ → Type 0
IsPartition len pred r =
    (r ≤ len) × ((i : ℕ) → i < r → pred i ≡ true) × ((i : ℕ) → r ≤ i → i < len → pred i ≡ false)

below_holds :
    (pred : ℕ → Bool)
    → HoldsForPrefix pred
    → (m : ℕ) → pred m ≡ true
    → (i : ℕ) → i < m + 1
    → pred i ≡ true
below_holds pred mono m h i lt = mono i m (omega arith) h

above_fails :
    (pred : ℕ → Bool)
    → HoldsForPrefix pred
    → (m : ℕ) → pred m ≡ false
    → (i : ℕ) → m ≤ i
    → pred i ≡ false
above_fails pred mono m h i le = elim (Bool-cases (pred i)) [
  | inl t ↦ absurd (ground (arith, mono m i le t))
  | inr f ↦ f
]

partition_loop-IsPartition :
    (len : ℕ) (pred : ℕ → Bool)
    → HoldsForPrefix pred
    → (fuel low high : ℕ) → high ≤ low + fuel
    → low ≤ high
    → high ≤ len
    → ((i : ℕ) → i < low → pred i ≡ true)
    → ((i : ℕ) → high ≤ i → i < len → pred i ≡ false)
    → IsPartition len pred (partition_loop fuel pred low high)
unfolding partition_loop
partition_loop-IsPartition len pred mono zero low high f a b lo hi =
    (omega arith, lo, λ i p q. hi i (omega arith) q)
partition_loop-IsPartition len pred mono (suc fuel) low high f a b lo hi =
    let mid = low + (high - low) / 2 in
    elim (Bool-cases (ltb low high)) [
      | inr done ↦ rw done (
        omega (arith, ltb-false low high done),
        lo,
        λ i p q. hi i (omega (arith, ltb-false low high done)) q,
      )
      | inl more ↦ elim (Bool-cases (pred mid)) [
        | inl t ↦
            rw (more, t)
              (partition_loop-IsPartition len pred mono fuel (mid + 1) high
                (omega (arith, ltb→lt low high more)) (omega (arith, ltb→lt low high more)) b
                (below_holds pred mono mid t) hi)
        | inr e ↦
            rw (more, e)
              (partition_loop-IsPartition len pred mono fuel low mid
                (omega (arith, ltb→lt low high more)) (omega arith)
                (omega (arith, ltb→lt low high more)) lo (λ i p q. above_fails pred mono mid e i p))
      ]
    ]

-- For a predicate that holds for a prefix, `partition_point` returns where the prefix ends: it is at
-- most the length, the predicate holds at every index below it, and at none from it on.
pub partition_point-IsPartition :
    (len : ℕ) (pred : ℕ → Bool)
    → HoldsForPrefix pred
    → IsPartition len pred (partition_point len pred)
unfolding partition_point
partition_point-IsPartition len pred mono =
    partition_loop-IsPartition len pred mono len 0 len (omega arith) (omega arith) (omega arith)
      (λ i h. absurd (omega arith)) (λ i p q. absurd (omega arith))
