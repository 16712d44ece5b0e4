-- ===== src/Transport/Whitelist/Following.antt =====
-- The whitelist follows the chain, and keeps what was allowed by hand.
use sqd_network.Base.{
  ◌≡◌, ◌⊎◌, refl, sym, ◌∙◌, true, false, ◌&&◌, ◌||◌, not, Option, none, some, List, [], ◌∷◌, Eq,
  arith, inl, inr, Bool-cases,
}
use sqd_network.Base.Sets.{
  elem, difference, same_set, elem-difference, elem-extend, same_set-elem, same_set-differs,
}
use sqd_network.Transport.Whitelist
use sqd_network.Transport.Whitelist.{
  AllowList, NetworkNodes, Whitelist, all, for_each, on_nodes_update,
}

module _ {P W : Type 0} ⦃e : Eq P⦄ (a : AllowList P W) where
  allowed-for_each_allow :
      (ps : List P) (w : W) (p : P)
      → a.allowed (for_each a.allow_peer ps w) p ≡ elem p ps || a.allowed w p
  unfolding for_each elem
  allowed-for_each_allow [] w p = refl
  allowed-for_each_allow (q ∷ ps) w p =
      ground (arith, allowed-for_each_allow ps (a.allow_peer q w) p, a.allowed-allow_peer w p q)

  allowed-for_each_disallow :
      (ps : List P) (w : W) (p : P)
      → a.allowed (for_each a.disallow_peer ps w) p ≡ not (elem p ps) && a.allowed w p
  unfolding for_each elem
  allowed-for_each_disallow [] w p = refl
  allowed-for_each_disallow (q ∷ ps) w p =
      ground
        (arith, allowed-for_each_disallow ps (a.disallow_peer q w) p, a.allowed-disallow_peer w p q)

  -- What an update makes of one peer.
  pub record Updated (w w' : Whitelist P W) (nodes : NetworkNodes P) (p : P) : Type 0 where
    pub registered : elem p w'.registered_nodes ≡ elem p nodes.portals || elem p nodes.workers
    pub arrived :
        elem p w.registered_nodes ≡ false
        → elem p w'.registered_nodes ≡ true
        → a.allowed w'.allow p ≡ true
    pub left :
        elem p w.registered_nodes ≡ true
        → elem p w'.registered_nodes ≡ false
        → a.allowed w'.allow p ≡ false
    pub stayed :
        elem p w'.registered_nodes ≡ elem p w.registered_nodes
        → a.allowed w'.allow p ≡ a.allowed w.allow p

  -- Reading the nodes of the chain: afterwards the registered peers are just its portals and
  -- workers; a peer that was not registered before is allowed, one that no longer is registered is
  -- not, and for every other peer nothing changes. The nodes are reported exactly if some peer's
  -- registration changed, and an error of the client changes nothing.
  pub on_nodes_update_lem :
      (w : Whitelist P W) (nodes : NetworkNodes P)
      → ((p : P) → Updated w (on_nodes_update a w (some nodes)).0 nodes p)
        × (((on_nodes_update a w (some nodes)).1 ≡ some nodes)
              × ((p : P) × (elem p (on_nodes_update a w (some nodes)).0.registered_nodes
                    ≡ not (elem p w.registered_nodes)))
            ⊎ ((on_nodes_update a w (some nodes)).1 ≡ none)
              × ((on_nodes_update a w (some nodes)).0 ≡ w)
              × ((p : P)
                  → elem p nodes.portals || elem p nodes.workers ≡ elem p w.registered_nodes))
        × (on_nodes_update a w none ≡ (w, none))
  unfolding on_nodes_update all
  on_nodes_update_lem w nodes = elim (Bool-cases (same_set (all nodes) w.registered_nodes)) [
    | inl same ↦
        rw (same, on_nodes_update)
          (
            λ p. record {
              registered =
                  sym (same_set-elem p (all nodes) w.registered_nodes same)
                  ∙ elem-extend p nodes.portals nodes.workers;
              arrived = λ n m. absurd (cc (n, m));
              left = λ n m. absurd (cc (n, m));
              stayed = λ k. refl;
            },
            inr (
              refl,
              refl,
              λ p.
                  sym (elem-extend p nodes.portals nodes.workers)
                  ∙ same_set-elem p (all nodes) w.registered_nodes same,
            ),
            refl,
          )
    | inr differ ↦
        rw (differ, on_nodes_update)
          (
            λ p.
                let gone = difference w.registered_nodes (all nodes) in
                let new = difference (all nodes) w.registered_nodes in
                let opened = allowed-for_each_allow new (for_each a.disallow_peer gone w.allow) p in
                let closed = allowed-for_each_disallow gone w.allow p in
                let is_new = elem-difference p (all nodes) w.registered_nodes in
                let is_gone = elem-difference p w.registered_nodes (all nodes) in
                record {
                  registered = elem-extend p nodes.portals nodes.workers;
                  arrived = λ n m. ground (arith, opened, closed, is_new, is_gone, n, m);
                  left = λ n m. ground (arith, opened, closed, is_new, is_gone, n, m);
                  stayed = λ k. ground (arith, opened, closed, is_new, is_gone, k);
                },
            inl (refl, same_set-differs (all nodes) w.registered_nodes differ),
            refl,
          )
  ]

  -- The states of a whitelist; the peers allowed by hand so far are recorded beside it.
  pub data Reachable : Whitelist P W → List P → Type 0 where
    started : Reachable (Whitelist.new a) []
    by_hand :
        (w : Whitelist P W) (extra : List P) (p : P)
        → Reachable w extra
        → Reachable (Whitelist.allow_peer a w p) (p ∷ extra)
    updated :
        (w : Whitelist P W) (extra : List P) (nodes : Option (NetworkNodes P))
        → Reachable w extra
        → Reachable (on_nodes_update a w nodes).0 extra

  -- A registered peer is allowed, and every allowed peer is registered or was allowed by hand.
  pub record Follows (w : Whitelist P W) (extra : List P) (p : P) : Type 0 where
    pub admits : elem p w.registered_nodes ≡ true → a.allowed w.allow p ≡ true
    pub only : a.allowed w.allow p ≡ true → elem p w.registered_nodes || elem p extra ≡ true

  -- In every state that the whitelist reaches by updates from the chain, errors included, and by
  -- `allow_peer`, each registered peer is allowed, and no other peer is but those allowed by hand.
  pub reachable-Follows :
      (w : Whitelist P W) (extra : List P) → Reachable w extra → (p : P) → Follows w extra p
  unfolding Whitelist.new Whitelist.allow_peer elem
  reachable-Follows _ _ Reachable.started p = record {
    admits = λ h. absurd (cc);
    only = λ h. absurd (ground (arith, h, a.allowed-initial p));
  }
  reachable-Follows _ _ (Reachable.by_hand w extra q r) p =
      let f = reachable-Follows w extra r p in
      record {
        admits = λ h. ground (arith, a.allowed-allow_peer w.allow p q, f.admits h);
        only = λ h. keep w extra q p f h;
      }
    where
      keep :
          (w : Whitelist P W) (extra : List P) (q p : P)
          → Follows w extra p
          → a.allowed (a.allow_peer q w.allow) p ≡ true
          → elem p w.registered_nodes || (e.beq p q || elem p extra) ≡ true
      keep w extra q p f h = elim (Bool-cases (a.allowed w.allow p)) [
        | inl old ↦ ground (arith, f.only old)
        | inr out ↦ ground (arith, a.allowed-allow_peer w.allow p q, out, h)
      ]
  reachable-Follows _ _ (Reachable.updated w extra none r) p =
      same w extra p (reachable-Follows w extra r p)
    where
      same :
          (w : Whitelist P W) (extra : List P) (p : P)
          → Follows w extra p
          → Follows (on_nodes_update a w none).0 extra p
      same w extra p f = unfold on_nodes_update in f
  reachable-Follows _ _ (Reachable.updated w extra (some nodes) r) p =
      let f = reachable-Follows w extra r p in
      let u = (on_nodes_update_lem w nodes).0 p in
      after w (on_nodes_update a w (some nodes)).0 nodes extra p f u
    where
      after :
          (w w' : Whitelist P W) (nodes : NetworkNodes P) (extra : List P) (p : P)
          → Follows w extra p
          → Updated w w' nodes p
          → Follows w' extra p
      after w w' nodes extra p f u = elim (Bool-cases (elem p w.registered_nodes)) [
        | inl was ↦ elim (Bool-cases (elem p w'.registered_nodes)) [
          | inl is ↦
              let s = u.stayed (is ∙ sym was) in
              record { admits = λ h. s ∙ f.admits was; only = λ h. ground (arith, is) }
          | inr out ↦
              let s = u.left was out in
              record { admits = λ h. absurd (cc (out, h)); only = λ h. absurd (cc (s, h)) }
        ]
        | inr was_not ↦ elim (Bool-cases (elem p w'.registered_nodes)) [
          | inl is ↦ record { admits = λ h. u.arrived was_not is; only = λ h. ground (arith, is) }
          | inr out ↦
              let s = u.stayed (out ∙ sym was_not) in
              record {
                admits = λ h. absurd (cc (out, h));
                only = λ h. ground (arith, f.only (sym s ∙ h), was_not, out);
              }
        ]
      ]
