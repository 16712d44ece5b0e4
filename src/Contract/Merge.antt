-- ===== src/Contract/Merge.antt =====
-- crates/contract-client/src/merge.rs: the new registry's portals merged with the legacy one's.
-- Addresses are any type `K` with a lawful order, peer ids any type `P` with an equality test, and
-- `PeerId::from_bytes` is a parameter.
pub mod Portals
pub mod Clusters
pub mod Legacy
pub mod Merged
use sqd_network.Base.{
  ℕ, ◌+◌, ◌-◌, ◌^◌, min, Bool, true, false, ◌||◌, Option, none, some, Ordering, List, [], ◌∷◌, ◌++◌,
  map, if◌then◌else◌, Eq,
}
use sqd_network.Base.Order.{Ord, same}
use sqd_network.Base.Text.{Text}

-- `U256::MAX` and `U256::saturating_add`.
abbrev pub u256_max : ℕ
u256_max = 2 ^ 256 - 1

unfoldable pub saturating_add : ℕ → ℕ → ℕ
saturating_add a b = min (a + b) u256_max

module _ {P : Type 0} ⦃e : Eq P⦄ where
  unfoldable pub contains : List P → P → Bool
  contains [] p = false
  contains (q ∷ qs) p = e.beq q p || contains qs p

  -- `filter(|p| seen.insert(*p))`: `seen` is the set of the peers kept so far.
  unfoldable pub keep_new : List P → List P → List P
  unfolding contains
  keep_new seen [] = []
  keep_new seen (p ∷ ps) =
      let again = keep_new seen ps in
      let fresh = p ∷ keep_new (p ∷ seen) ps in if contains seen p then again else fresh

  unfoldable pub merge_active_portals : List P → List P → List P
  unfolding keep_new
  merge_active_portals new_portals legacy_portals = keep_new [] (new_portals ++ legacy_portals)

  -- `for pid in &portal_ids { if !contains { push } }`.
  unfoldable pub push_missing : List P → List P → List P
  unfolding contains
  push_missing ids [] = ids
  push_missing ids (p ∷ ps) = push_missing (if contains ids p then ids else ids ++ p ∷ []) ps

-- `PortalCluster`.
pub record PortalCluster (K P : Type 0) : Type 0 where
  pub operator_addr : K
  pub portal_ids : List P
  pub allocated_computation_units : ℕ

-- `contracts::Allocation`.
pub record Allocation (K : Type 0) : Type 0 where
  pub gateway_id : Text
  pub allocated : ℕ
  pub operator : K

module _ {K : Type 0} ⦃o : Ord K⦄ where
  unfoldable pub contains_key : List K → K → Bool
  contains_key [] k = false
  contains_key (j ∷ js) k = same j k || contains_key js k

module _ {K P : Type 0} ⦃o : Ord K⦄ ⦃e : Eq P⦄ where
  -- The `BTreeMap` is its entries in key order.
  -- `and_modify` of `upsert_cluster`.
  unfoldable pub add_to : PortalCluster K P → List P → ℕ → PortalCluster K P
  unfolding push_missing saturating_add
  add_to c ids cus = record c {
    portal_ids = push_missing c.portal_ids ids;
    allocated_computation_units = saturating_add c.allocated_computation_units cus;
  }

  unfoldable pub upsert_cluster :
      List (K × PortalCluster K P) → K → List P → ℕ → List (K × PortalCluster K P)
  upsert_cluster [] k ids cus =
      (k, record { operator_addr = k; portal_ids = ids; allocated_computation_units = cus }) ∷ []
  upsert_cluster ((j, c) ∷ m) k ids cus = elim (o.cmp k j) [
    | Ordering.lt ↦
        (k, record { operator_addr = k; portal_ids = ids; allocated_computation_units = cus })
        ∷ (j, c)
        ∷ m
    | Ordering.eq ↦ (j, add_to c ids cus) ∷ m
    | Ordering.gt ↦ (j, c) ∷ upsert_cluster m k ids cus
  ]

  -- The loop over the new clusters.
  unfoldable pub upsert_all :
      List (K × PortalCluster K P) → List (PortalCluster K P) → List (K × PortalCluster K P)
  unfolding upsert_cluster
  upsert_all m [] = m
  upsert_all m (c ∷ cs) =
      upsert_all (upsert_cluster m c.operator_addr c.portal_ids c.allocated_computation_units) cs

  -- The union of the new clusters' portals.
  unfoldable pub migrated_peers : List (PortalCluster K P) → List P
  migrated_peers [] = []
  migrated_peers (c ∷ cs) = c.portal_ids ++ migrated_peers cs

  -- The loop over the legacy rows, with `upsert_legacy_allocation`: an operator's first surviving row
  -- contributes its units, and later ones none.
  module _ (from_bytes : Text → Option P) where
    unfoldable pub legacy_loop :
        List P
        → List K
        → List (K × PortalCluster K P)
        → List (Allocation K)
        → List (K × PortalCluster K P)
    unfolding contains contains_key upsert_cluster
    legacy_loop migrated seen m [] = m
    legacy_loop migrated seen m (a ∷ rows) = elim (from_bytes a.gateway_id) [
      | none ↦ legacy_loop migrated seen m rows
      | some p ↦ elim (contains migrated p) [
        | true ↦ legacy_loop migrated seen m rows
        | false ↦ elim (contains_key seen a.operator) [
          | true ↦ legacy_loop migrated seen (upsert_cluster m a.operator (p ∷ []) 0) rows
          | false ↦
              legacy_loop migrated (a.operator ∷ seen)
                (upsert_cluster m a.operator (p ∷ []) a.allocated) rows
        ]
      ]
    ]

    unfoldable pub merged_map :
        List (PortalCluster K P) → List (Allocation K) → List (K × PortalCluster K P)
    unfolding legacy_loop upsert_all migrated_peers
    merged_map new_clusters legacy =
        legacy_loop (migrated_peers new_clusters) [] (upsert_all [] new_clusters) legacy

    -- `merge_portal_clusters`: the map's values.
    unfoldable pub merge_portal_clusters :
        List (PortalCluster K P) → List (Allocation K) → List (PortalCluster K P)
    unfolding merged_map
    merge_portal_clusters new_clusters legacy =
        map (λ (entry : K × PortalCluster K P). entry.1) (merged_map new_clusters legacy)
