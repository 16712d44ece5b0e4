-- ===== src/Contract/Merge/Merged.antt =====
-- `merge_portal_clusters` as a whole: its result against the two sources.
use sqd_network.Base.{
  ℕ, ◌+◌, ◌≤◌, ◌≡◌, ◌≢◌, refl, ap, ◌∙◌, false, ◌||◌, Option, Ordering, List, [], ◌∷◌, map, Eq,
  arith, All,
}
use sqd_network.Base.Order.{Ord}
use sqd_network.Base.Text.{Text}
use sqd_network.Contract.Merge.{
  u256_max, saturating_add, PortalCluster, Allocation, upsert_all, migrated_peers, contains_key,
  merge_portal_clusters,
}
use sqd_network.Contract.Merge.Clusters.{
  AscendsAbove, IsAscending, units, serves, upsert_all-IsAscending, units-upsert_all,
  serves-upsert_all, saturating_add-le, saturating_add_assoc, total_units, any_serves,
}
use sqd_network.Contract.Merge.Legacy.{
  legacy_units, legacy_serves, legacy_loop-IsAscending, serves-legacy_loop, units-legacy_loop,
}

saturating_add_from_zero : (a b : ℕ) → saturating_add 0 (a + b) ≡ saturating_add a b
unfolding saturating_add
saturating_add_from_zero a b = omega arith

module _ {K : Type 0} ⦃o : Ord K⦄ where
  below_next :
      (k b j : K) → o.cmp b j ≡ Ordering.lt → o.cmp k b ≢ Ordering.gt → o.cmp k j ≡ Ordering.lt
  below_next k b j a h = ground (arith, o.lt_trans k b j, o.eq_of_cmp k b)

module _ {K P : Type 0} ⦃o : Ord K⦄ ⦃e : Eq P⦄ where
  abbrev values : List (K × PortalCluster K P) → List (PortalCluster K P)
  values = map (λ (entry : K × PortalCluster K P). entry.1)

  -- Operators strictly ascend, so each stands once.
  abbrev pub OperatorsAbove : K → List (PortalCluster K P) → Type 0
  OperatorsAbove k [] = Unit
  OperatorsAbove k (c ∷ cs) =
      (o.cmp k c.operator_addr ≡ Ordering.lt) × OperatorsAbove c.operator_addr cs

  abbrev pub OperatorsAscend : List (PortalCluster K P) → Type 0
  OperatorsAscend [] = Unit
  OperatorsAscend (c ∷ cs) = OperatorsAbove c.operator_addr cs

  values-above :
      (k : K) (m : List (K × PortalCluster K P)) → AscendsAbove k m → OperatorsAbove k (values m)
  values-above k [] a = tt
  values-above k ((j, c) ∷ m) a = rw a.1 (a.0, values-above j m a.2)

  values-ascend : (m : List (K × PortalCluster K P)) → IsAscending m → OperatorsAscend (values m)
  values-ascend [] a = tt
  values-ascend ((j, c) ∷ m) a = rw a.0 (values-above j m a.1)

  AscendsAbove-IsAscending :
      (b : K) (m : List (K × PortalCluster K P)) → AscendsAbove b m → IsAscending m
  AscendsAbove-IsAscending b [] a = tt
  AscendsAbove-IsAscending b ((j, c) ∷ m) a = (a.1, a.2)

  -- An operator below all keys has no cluster.
  no_units_above :
      (k b : K) (m : List (K × PortalCluster K P))
      → AscendsAbove b m
      → o.cmp k b ≢ Ordering.gt
      → total_units (values m) k ≡ 0
  unfolding total_units
  no_units_above k b [] a h = refl
  no_units_above k b ((j, c) ∷ m) a h =
      rw a.1 (ground (arith, below_next k b j a.0 h, no_units_above k j m a.2))

  none_served_above :
      (k b : K) (m : List (K × PortalCluster K P)) (p : P)
      → AscendsAbove b m
      → o.cmp k b ≢ Ordering.gt
      → any_serves (values m) k p ≡ false
  unfolding any_serves
  none_served_above k b [] p a h = refl
  none_served_above k b ((j, c) ∷ m) p a h =
      rw a.1 (ground (arith, below_next k b j a.0 h, none_served_above k j m p a.2))

  -- What the map holds for an operator is what its values hold together.
  units-values :
      (m : List (K × PortalCluster K P)) (k : K)
      → IsAscending m
      → total_units (values m) k ≡ units m k
  unfolding total_units units
  units-values [] k a = refl
  units-values ((j, c) ∷ m) k a = rw a.0 (
      ground (arith, no_units_above k j m a.1, units-values m k (AscendsAbove-IsAscending j m a.1)))

  serves-values :
      (m : List (K × PortalCluster K P)) (k : K) (p : P)
      → IsAscending m
      → any_serves (values m) k p ≡ serves m k p
  unfolding any_serves serves
  serves-values [] k p a = refl
  serves-values ((j, c) ∷ m) k p a = rw a.0 (
      ground (
        arith,
        none_served_above k j m p a.1,
        serves-values m k p (AscendsAbove-IsAscending j m a.1),
      ))

  -- The merged clusters stand in strictly ascending order of their operators, one for each. If no
  -- amount exceeds `U256::MAX`, an operator's units are the sum of its new clusters' and of its first
  -- surviving legacy row's, saturated; and an operator has a portal exactly if one of its new clusters
  -- or of its surviving legacy rows has it. A legacy row survives if its peer id parses and no new
  -- cluster lists that peer.
  pub merge_portal_clusters_lem :
      (from_bytes : Text → Option P) (new_clusters : List (PortalCluster K P))
      (legacy : List (Allocation K))
      → All (λ (c : PortalCluster K P). c.allocated_computation_units ≤ u256_max) new_clusters
      → All (λ (r : Allocation K). r.allocated ≤ u256_max) legacy
      → OperatorsAscend (merge_portal_clusters from_bytes new_clusters legacy)
        × ((k : K)
            → total_units (merge_portal_clusters from_bytes new_clusters legacy) k
              ≡ saturating_add
                  (total_units new_clusters k)
                  (legacy_units from_bytes (migrated_peers new_clusters) legacy k))
        × ((k : K) (p : P)
            → any_serves (merge_portal_clusters from_bytes new_clusters legacy) k p
              ≡ any_serves new_clusters k p
                || legacy_serves from_bytes (migrated_peers new_clusters) legacy k p)
  unfolding merge_portal_clusters contains_key
  merge_portal_clusters_lem from_bytes new_clusters legacy fit rows_fit =
      let migrated = migrated_peers new_clusters in
      let before : List (K × PortalCluster K P) = upsert_all [] new_clusters in
      let asc =
        legacy_loop-IsAscending from_bytes migrated [] before legacy
          (upsert_all-IsAscending [] new_clusters tt) in
      let none_yet : (k : K) → units {P = P} [] k ≡ 0 = λ k. unfold units in refl in
      let none_served : (k : K) (p : P) → serves {P = P} [] k p ≡ false =
        λ k p. unfold serves in refl in
      (
        values-ascend _ asc,
        λ k.
            let sum : units before k
                ≡ saturating_add (units {P = P} [] k) (total_units new_clusters k) =
              units-upsert_all [] new_clusters k fit (rw none_yet (omega arith)) in
            let old = legacy_units from_bytes migrated legacy k in
            units-values _ k asc
            ∙ units-legacy_loop from_bytes migrated [] before legacy k rows_fit
                (rw sum (saturating_add-le (units {P = P} [] k) (total_units new_clusters k)))
            ∙ ap (λ n. saturating_add n old)
                (sum ∙ ap (λ n. saturating_add n (total_units new_clusters k)) (none_yet k))
            ∙ saturating_add_assoc 0 (total_units new_clusters k) old
            ∙ saturating_add_from_zero (total_units new_clusters k) old,
        λ k p.
            serves-values _ k p asc
            ∙ serves-legacy_loop from_bytes migrated [] before legacy k p
            ∙ ap (λ b. b || legacy_serves from_bytes migrated legacy k p)
                (serves-upsert_all [] new_clusters k p
                  ∙ ap (λ b. b || any_serves new_clusters k p) (none_served k p)),
      )
