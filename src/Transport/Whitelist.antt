-- ===== src/Transport/Whitelist.antt =====
-- crates/transport/src/behaviour/node_whitelist.rs: the peers that may connect follow the nodes
-- that are registered on chain. The list itself is a behaviour of libp2p, `AllowList` here.
pub mod Following
use sqd_network.Base.{
  ℕ, ◌≡◌, Bool, true, false, ◌&&◌, ◌||◌, not, Option, none, some, List, [], ◌∷◌, Eq, if◌then◌else◌,
}
use sqd_network.Base.Sets.{elem, extend, difference, same_set}

-- `allow_block_list::Behaviour<AllowedPeers>`: what it allows after either call.
pub record AllowList (P W : Type 0) ⦃e : Eq P⦄ : Type 0 where
  pub initial : W
  pub allow_peer : P → W → W
  pub disallow_peer : P → W → W
  pub allowed : W → P → Bool
  pub allowed-initial : (p : P) → allowed initial p ≡ false
  pub allowed-allow_peer : (w : W) (p q : P) → allowed (allow_peer q w) p ≡ e.beq p q || allowed w p
  pub allowed-disallow_peer :
      (w : W) (p q : P) → allowed (disallow_peer q w) p ≡ not (e.beq p q) && allowed w p

-- `NetworkNodes` of crates/contract-client/src/client.rs.
pub record NetworkNodes (P : Type 0) : Type 0 where
  pub portals : List P
  pub workers : List P

-- `WhitelistBehavior`, the stream of updates apart.
pub record Whitelist (P W : Type 0) : Type 0 where
  pub allow : W
  pub registered_nodes : List P

-- `NetworkNodes::all`.
unfoldable pub all : {P : Type 0} ⦃e : Eq P⦄ → NetworkNodes P → List P
all nodes = extend nodes.portals nodes.workers

-- A loop over a set that makes one call for each member.
unfoldable pub for_each : {P W : Type 0} → (P → W → W) → List P → W → W
for_each f [] w = w
for_each f (p ∷ ps) w = for_each f ps (f p w)

module _ {P W : Type 0} ⦃e : Eq P⦄ (a : AllowList P W) where
  -- `WhitelistBehavior::new`.
  unfoldable pub new : Whitelist P W
  new = record { allow = a.initial; registered_nodes = [] }

  unfoldable pub allow_peer : Whitelist P W → P → Whitelist P W
  allow_peer w p = record w { allow = a.allow_peer p w.allow }

  unfoldable pub disallow_peer : Whitelist P W → P → Whitelist P W
  disallow_peer w p = record w { allow = a.disallow_peer p w.allow }

  -- `on_nodes_update`; an error of the client is `none`.
  unfoldable pub on_nodes_update :
      Whitelist P W → Option (NetworkNodes P) → Whitelist P W × Option (NetworkNodes P)
  unfolding all for_each
  on_nodes_update w none = (w, none)
  on_nodes_update w (some nodes) =
      let all_nodes = all nodes in
      let blocked = for_each a.disallow_peer (difference w.registered_nodes all_nodes) w.allow in
      if same_set all_nodes w.registered_nodes then (w, none) else (
        record {
          allow = for_each a.allow_peer (difference all_nodes w.registered_nodes) blocked;
          registered_nodes = all_nodes;
        },
        some nodes,
      )
