-- ===== src/Contract/Merge/Clusters.antt =====
-- `merge_portal_clusters`: one cluster per operator, in order, with its units and its portals.
use sqd_network.Base.{
  ℕ, ◌+◌, ◌≤◌, ◌≡◌, refl, sym, Bool, false, ◌||◌, Option, none, some, Ordering, List, [], ◌∷◌, ◌++◌,
  if◌then◌else◌, Eq, arith, All,
}
use sqd_network.Base.Order.{Ord, same}
use sqd_network.Contract.Merge.{
  u256_max, saturating_add, contains, push_missing, PortalCluster, add_to, upsert_cluster,
  upsert_all,
}
use sqd_network.Contract.Merge.Portals.{contains-append}

module _ {P : Type 0} ⦃e : Eq P⦄ where
  contains-push_missing :
      (ids ps : List P) (p : P) → contains (push_missing ids ps) p ≡ contains ids p || contains ps p
  unfolding push_missing contains
  contains-push_missing ids [] p = ground arith
  contains-push_missing ids (q ∷ ps) p = ground (
    arith,
    contains-push_missing ids ps p,
    contains-push_missing (ids ++ q ∷ []) ps p,
    contains-append ids (q ∷ []) p,
    e.beq_iff q p,
  )

saturating_add_zero : (c : ℕ) → c ≤ u256_max → saturating_add 0 c ≡ c
unfolding saturating_add
saturating_add_zero c h = omega arith

pub saturating_add_none : (c : ℕ) → c ≤ u256_max → saturating_add c 0 ≡ c
unfolding saturating_add
saturating_add_none c h = omega arith

pub saturating_add-le : (a b : ℕ) → saturating_add a b ≤ u256_max
unfolding saturating_add
saturating_add-le a b = omega arith

-- Adding up and saturating once is saturating at each step.
pub saturating_add_assoc :
    (a b c : ℕ) → saturating_add (saturating_add a b) c ≡ saturating_add a (b + c)
unfolding saturating_add
saturating_add_assoc a b c = omega arith

module _ {K P : Type 0} ⦃o : Ord K⦄ ⦃e : Eq P⦄ where
  -- Keys above `k`, strictly ascending, each naming its cluster's operator.
  abbrev pub AscendsAbove : K → List (K × PortalCluster K P) → Type 0
  AscendsAbove k [] = Unit
  AscendsAbove k ((j, c) ∷ m) = (o.cmp k j ≡ Ordering.lt) × (c.operator_addr ≡ j) × AscendsAbove j m

  abbrev pub IsAscending : List (K × PortalCluster K P) → Type 0
  IsAscending [] = Unit
  IsAscending ((j, c) ∷ m) = (c.operator_addr ≡ j) × AscendsAbove j m

  -- The entry of an operator, by a scan in key order.
  unfoldable pub get : List (K × PortalCluster K P) → K → Option (PortalCluster K P)
  get [] k = none
  get ((j, c) ∷ m) k = elim (o.cmp k j) [
    | Ordering.lt ↦ none
    | Ordering.eq ↦ some c
    | Ordering.gt ↦ get m k
  ]

  unfoldable pub units : List (K × PortalCluster K P) → K → ℕ
  unfolding get
  units m k = elim (get m k) [ none ↦ 0 | some c ↦ c.allocated_computation_units ]

  unfoldable pub serves : List (K × PortalCluster K P) → K → P → Bool
  unfolding get
  serves m k p = elim (get m k) [ none ↦ false | some c ↦ contains c.portal_ids p ]

  upsert-AscendsAbove :
      (b : K) (m : List (K × PortalCluster K P)) (k : K) (ids : List P) (cus : ℕ)
      → o.cmp b k ≡ Ordering.lt
      → AscendsAbove b m
      → AscendsAbove b (upsert_cluster m k ids cus)
  unfolding upsert_cluster add_to
  upsert-AscendsAbove b [] k ids cus h a = (h, refl, tt)
  upsert-AscendsAbove b ((j, c) ∷ m) k ids cus h a =
      ground (arith, upsert-AscendsAbove j m k ids cus, o.lt_of_gt k j)

  pub upsert-IsAscending :
      (m : List (K × PortalCluster K P)) (k : K) (ids : List P) (cus : ℕ)
      → IsAscending m
      → IsAscending (upsert_cluster m k ids cus)
  unfolding upsert_cluster add_to
  upsert-IsAscending [] k ids cus a = (refl, tt)
  upsert-IsAscending ((j, c) ∷ m) k ids cus a =
      ground (arith, upsert-AscendsAbove j m k ids cus, o.lt_of_gt k j)

  -- What an upsert does to an entry: its own is extended, or begun; the others stay.
  pub serves-upsert :
      (m : List (K × PortalCluster K P)) (k : K) (ids : List P) (cus : ℕ) (j : K) (p : P)
      → serves (upsert_cluster m k ids cus) j p
        ≡ (if same j k then serves m j p || contains ids p else serves m j p)
  unfolding serves upsert_cluster add_to
  serves-upsert [] k ids cus j p = ground arith
  serves-upsert ((i, c) ∷ m) k ids cus j p = ground (
    arith,
    serves-upsert m k ids cus j p,
    contains-push_missing c.portal_ids ids p,
    o.eq_of_cmp j k,
    o.eq_of_cmp k i,
    o.eq_of_cmp j i,
    o.cmp_self k,
    o.gt_of_lt k i,
    o.lt_trans j k i,
  )

  pub units-upsert :
      (m : List (K × PortalCluster K P)) (k : K) (ids : List P) (cus : ℕ) (j : K)
      → cus ≤ u256_max
      → units (upsert_cluster m k ids cus) j
        ≡ (if same j k then saturating_add (units m j) cus else units m j)
  unfolding units upsert_cluster add_to
  units-upsert [] k ids cus j h = ground (arith, saturating_add_zero cus h)
  units-upsert ((i, c) ∷ m) k ids cus j h = ground (
    arith,
    units-upsert m k ids cus j h,
    saturating_add_zero cus h,
    o.eq_of_cmp j k,
    o.eq_of_cmp k i,
    o.eq_of_cmp j i,
    o.cmp_self k,
    o.gt_of_lt k i,
    o.lt_trans j k i,
  )

  -- The units that the clusters of an operator hold together, and whether one has a portal.
  unfoldable pub total_units : List (PortalCluster K P) → K → ℕ
  total_units [] k = 0
  total_units (c ∷ cs) k =
      if same k c.operator_addr
      then c.allocated_computation_units + total_units cs k
      else total_units cs k

  unfoldable pub any_serves : List (PortalCluster K P) → K → P → Bool
  any_serves [] k p = false
  any_serves (c ∷ cs) k p =
      if same k c.operator_addr
      then contains c.portal_ids p || any_serves cs k p
      else any_serves cs k p

  pub upsert_all-IsAscending :
      (m : List (K × PortalCluster K P)) (cs : List (PortalCluster K P))
      → IsAscending m
      → IsAscending (upsert_all m cs)
  unfolding upsert_all
  upsert_all-IsAscending m [] a = a
  upsert_all-IsAscending m (c ∷ cs) a =
      upsert_all-IsAscending
        (upsert_cluster m c.operator_addr c.portal_ids c.allocated_computation_units) cs
        (upsert-IsAscending m c.operator_addr c.portal_ids c.allocated_computation_units a)

  pub units-upsert_all :
      (m : List (K × PortalCluster K P)) (cs : List (PortalCluster K P)) (k : K)
      → All (λ (c : PortalCluster K P). c.allocated_computation_units ≤ u256_max) cs
      → units m k ≤ u256_max
      → units (upsert_all m cs) k ≡ saturating_add (units m k) (total_units cs k)
  unfolding upsert_all total_units
  units-upsert_all m [] k fit h = sym (saturating_add_none (units m k) h)
  units-upsert_all m (c ∷ cs) k fit h =
      let cus = c.allocated_computation_units in
      let m' = upsert_cluster m c.operator_addr c.portal_ids cus in
      ground (
        arith,
        units-upsert_all m' cs k fit.1,
        units-upsert m c.operator_addr c.portal_ids cus k fit.0,
        saturating_add-le (units m k) cus,
        saturating_add_assoc (units m k) cus (total_units cs k),
      )

  pub serves-upsert_all :
      (m : List (K × PortalCluster K P)) (cs : List (PortalCluster K P)) (k : K) (p : P)
      → serves (upsert_all m cs) k p ≡ serves m k p || any_serves cs k p
  unfolding upsert_all any_serves
  serves-upsert_all m [] k p = ground arith
  serves-upsert_all m (c ∷ cs) k p =
      let m' = upsert_cluster m c.operator_addr c.portal_ids c.allocated_computation_units in
      ground (
        arith,
        serves-upsert_all m' cs k p,
        serves-upsert m c.operator_addr c.portal_ids c.allocated_computation_units k p,
      )
