-- ===== src/Tests/Registry.antt =====
-- Two small registries of crates/contract-client/src/merge.rs.
use sqd_network.Base.{ℕ, ◌≡◌, refl, ◌||◌, Option, none, some, List, [], ◌∷◌, ◌++◌, arith, nat_eq}
use sqd_network.Base.Order.{nat_ord}
use sqd_network.Base.Text.{Text}
use sqd_network.Contract.Merge.{
  PortalCluster, Allocation, contains, saturating_add, merge_active_portals, migrated_peers,
  merge_portal_clusters, add_to,
}
use sqd_network.Contract.Merge.Portals.{firsts, without, Distinct, merge_active_portals_lem}
use sqd_network.Contract.Merge.Clusters.{total_units, any_serves}
use sqd_network.Contract.Merge.Legacy.{legacy_units, legacy_serves}
use sqd_network.Contract.Merge.Merged.{OperatorsAscend, merge_portal_clusters_lem}

merge_active_portals_lem_example :
    Distinct {P = ℕ} (merge_active_portals (3 ∷ 1 ∷ 3 ∷ []) (1 ∷ 2 ∷ []))
    × ((p : ℕ)
        → contains (merge_active_portals {P = ℕ} (3 ∷ 1 ∷ 3 ∷ []) (1 ∷ 2 ∷ [])) p
          ≡ contains {P = ℕ} (3 ∷ 1 ∷ 3 ∷ []) p || contains {P = ℕ} (1 ∷ 2 ∷ []) p)
    × (merge_active_portals {P = ℕ} (3 ∷ 1 ∷ 3 ∷ []) (1 ∷ 2 ∷ [])
        ≡ firsts {P = ℕ} (3 ∷ 1 ∷ 3 ∷ [])
          ++ without {P = ℕ} (3 ∷ 1 ∷ 3 ∷ []) (firsts {P = ℕ} (1 ∷ 2 ∷ [])))
merge_active_portals_lem_example = merge_active_portals_lem (3 ∷ 1 ∷ 3 ∷ []) (1 ∷ 2 ∷ [])

merge_active_portals_runs :
    merge_active_portals {P = ℕ} (3 ∷ 1 ∷ 3 ∷ []) (1 ∷ 2 ∷ []) ≡ 3 ∷ 1 ∷ 2 ∷ []
unfolding merge_active_portals
merge_active_portals_runs = refl

-- A peer id is its one byte.
abbrev from_bytes : Text → Option ℕ
from_bytes [] = none
from_bytes (b ∷ []) = some b
from_bytes (b ∷ c ∷ bytes) = none

abbrev clusters : List (PortalCluster ℕ ℕ)
clusters =
    record { operator_addr = 9; portal_ids = 1 ∷ 2 ∷ []; allocated_computation_units = 50 } ∷ []

-- A malformed id, a migrated peer, and two rows of one operator.
abbrev rows : List (Allocation ℕ)
rows =
    record { gateway_id = []; allocated = 1; operator = 4 }
    ∷ record { gateway_id = 2 ∷ []; allocated = 10; operator = 4 }
    ∷ record { gateway_id = 5 ∷ []; allocated = 20; operator = 4 }
    ∷ record { gateway_id = 6 ∷ []; allocated = 20; operator = 4 }
    ∷ []

merge_portal_clusters_lem_example :
    OperatorsAscend (merge_portal_clusters from_bytes clusters rows)
    × ((k : ℕ)
        → total_units (merge_portal_clusters from_bytes clusters rows) k
          ≡ saturating_add
              (total_units clusters k)
              (legacy_units from_bytes (migrated_peers clusters) rows k))
    × ((k p : ℕ)
        → any_serves (merge_portal_clusters from_bytes clusters rows) k p
          ≡ any_serves clusters k p || legacy_serves from_bytes (migrated_peers clusters) rows k p)
merge_portal_clusters_lem_example =
    merge_portal_clusters_lem from_bytes clusters rows (omega arith) (omega arith)

merge_portal_clusters_runs :
    merge_portal_clusters from_bytes clusters rows
    ≡ record { operator_addr = 4; portal_ids = 5 ∷ 6 ∷ []; allocated_computation_units = 20 }
      ∷ record { operator_addr = 9; portal_ids = 1 ∷ 2 ∷ []; allocated_computation_units = 50 }
      ∷ []
unfolding merge_portal_clusters add_to
merge_portal_clusters_runs = refl
