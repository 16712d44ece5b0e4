-- ===== src/Contract/Merge/Legacy.antt =====
-- The legacy rows of `merge_portal_clusters`, and the merged result as a whole.
use sqd_network.Base.{
  ℕ, ◌≤◌, ◌≡◌, Bool, false, ◌||◌, Option, none, some, List, [], ◌∷◌, if◌then◌else◌, Eq, arith, inl,
  inr, Bool-cases, Option-cases, All,
}
use sqd_network.Base.Order.{Ord, same}
use sqd_network.Base.Text.{Text}
use sqd_network.Contract.Merge.{
  u256_max, saturating_add, contains, contains_key, PortalCluster, Allocation, upsert_cluster,
  legacy_loop,
}
use sqd_network.Contract.Merge.Clusters.{
  IsAscending, units, serves, upsert-IsAscending, units-upsert, serves-upsert, saturating_add-le,
  saturating_add_assoc, saturating_add_none,
}

module _ {K P : Type 0} ⦃o : Ord K⦄ ⦃e : Eq P⦄ (from_bytes : Text → Option P) where
  -- The peer of a legacy row, unless its id is malformed or the peer has migrated.
  pub survivor : List P → Allocation K → Option P
  survivor migrated a = elim (from_bytes a.gateway_id) [
    | none ↦ none
    | some p ↦ if contains migrated p then none else some p
  ]

  -- The units of the operator's first surviving row.
  pub legacy_units : List P → List (Allocation K) → K → ℕ
  unfolding survivor
  legacy_units migrated [] k = 0
  legacy_units migrated (a ∷ rows) k =
      let rest = legacy_units migrated rows k in
      elim (survivor migrated a) [
        | none ↦ rest
        | some p ↦ if same k a.operator then a.allocated else rest
      ]

  -- Whether a surviving row gives the peer to the operator.
  pub legacy_serves : List P → List (Allocation K) → K → P → Bool
  unfolding survivor
  legacy_serves migrated [] k p = false
  legacy_serves migrated (a ∷ rows) k p =
      let rest = legacy_serves migrated rows k p in
      elim (survivor migrated a) [
        | none ↦ rest
        | some q ↦ if same k a.operator then e.beq q p || rest else rest
      ]

  pub legacy_loop-IsAscending :
      (migrated : List P) (seen : List K) (m : List (K × PortalCluster K P))
      (rows : List (Allocation K))
      → IsAscending m
      → IsAscending (legacy_loop from_bytes migrated seen m rows)
  unfolding legacy_loop
  legacy_loop-IsAscending migrated seen m [] a = a
  legacy_loop-IsAscending migrated seen m (r ∷ rows) a =
      elim (Option-cases (from_bytes r.gateway_id)) [
        | inl n ↦ rw (n, legacy_loop) (legacy_loop-IsAscending migrated seen m rows a)
        | inr (p, s) ↦ elim (Bool-cases (contains migrated p)) [
          | inl t ↦ rw (s, legacy_loop, t) (legacy_loop-IsAscending migrated seen m rows a)
          | inr f ↦ elim (Bool-cases (contains_key seen r.operator)) [
            | inl t ↦
                rw (s, legacy_loop, f, t)
                  (legacy_loop-IsAscending migrated seen (upsert_cluster m r.operator (p ∷ []) 0)
                    rows (upsert-IsAscending m r.operator (p ∷ []) 0 a))
            | inr n ↦
                rw (s, legacy_loop, f, n)
                  (legacy_loop-IsAscending migrated (r.operator ∷ seen)
                    (upsert_cluster m r.operator (p ∷ []) r.allocated) rows
                    (upsert-IsAscending m r.operator (p ∷ []) r.allocated a))
          ]
        ]
      ]

  pub serves-legacy_loop :
      (migrated : List P) (seen : List K) (m : List (K × PortalCluster K P))
      (rows : List (Allocation K)) (k : K) (p : P)
      → serves (legacy_loop from_bytes migrated seen m rows) k p
        ≡ serves m k p || legacy_serves migrated rows k p
  unfolding legacy_loop legacy_serves contains
  serves-legacy_loop migrated seen m [] k p = ground arith
  serves-legacy_loop migrated seen m (r ∷ rows) k p =
      elim (Option-cases (from_bytes r.gateway_id)) [
        | inl n ↦ ground (arith, serves-legacy_loop migrated seen m rows k p)
        | inr (q, s) ↦
            let m0 = upsert_cluster m r.operator (q ∷ []) 0 in
            let m1 = upsert_cluster m r.operator (q ∷ []) r.allocated in
            ground (
              arith,
              serves-legacy_loop migrated seen m rows k p,
              serves-legacy_loop migrated seen m0 rows k p,
              serves-legacy_loop migrated (r.operator ∷ seen) m1 rows k p,
              serves-upsert m r.operator (q ∷ []) 0 k p,
              serves-upsert m r.operator (q ∷ []) r.allocated k p,
            )
      ]

  pub units-legacy_loop :
      (migrated : List P) (seen : List K) (m : List (K × PortalCluster K P))
      (rows : List (Allocation K)) (k : K)
      → All (λ (r : Allocation K). r.allocated ≤ u256_max) rows
      → units m k ≤ u256_max
      → units (legacy_loop from_bytes migrated seen m rows) k
        ≡ saturating_add
            (units m k)
            (if contains_key seen k then 0 else legacy_units migrated rows k)
  unfolding legacy_loop legacy_units contains_key
  units-legacy_loop migrated seen m [] k fit h = ground (arith, saturating_add_none (units m k) h)
  units-legacy_loop migrated seen m (r ∷ rows) k fit h =
      elim (Option-cases (from_bytes r.gateway_id)) [
        | inl n ↦ ground (arith, units-legacy_loop migrated seen m rows k fit.1 h)
        | inr (q, s) ↦
            let m0 = upsert_cluster m r.operator (q ∷ []) 0 in
            let m1 = upsert_cluster m r.operator (q ∷ []) r.allocated in
            ground (
              arith,
              units-legacy_loop migrated seen m rows k fit.1 h,
              units-legacy_loop migrated seen m0 rows k fit.1,
              units-legacy_loop migrated (r.operator ∷ seen) m1 rows k fit.1,
              units-upsert m r.operator (q ∷ []) 0 k,
              units-upsert m r.operator (q ∷ []) r.allocated k fit.0,
              saturating_add-le (units m k) r.allocated,
              saturating_add_none (units m k) h,
              saturating_add_assoc (units m k) r.allocated 0,
              o.eq_of_cmp k r.operator,
              o.eq_of_cmp r.operator k,
              o.cmp_self k,
            )
      ]
