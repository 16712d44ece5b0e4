-- ===== src/Transport/Addresses.antt =====
-- crates/transport/src/behaviour/addr_cache.rs and `addr_is_reachable` of src/util.rs: the
-- addresses that a peer is dialled at. The cache itself is the `lru` crate, `Lru` here;
-- multiaddresses are lists of protocols, and `private_network` is whether the environment sets
-- `PRIVATE_NETWORK`.
pub mod Usable
use sqd_network.Base.{
  ℕ, zero, suc, ◌≡◌, ◌⊎◌, Bool, true, false, ◌&&◌, ◌||◌, not, Option, none, some, List, [], ◌∷◌, Eq,
  if◌then◌else◌, ◌==◌, leb, map,
}
use sqd_network.Base.Sets.{extend}

-- The protocols of a multiaddress that the code tells apart; `other` carries anything else.
pub data Protocol : Type 0 where
  ip4 : ℕ → ℕ → ℕ → ℕ → Protocol
  ip6 : List ℕ → Protocol
  dns dns4 dns6 dnsaddr : Protocol
  other : ℕ → Protocol

abbrev pub Address : Type 0
Address = List Protocol

-- The standard library's ranges: 127.0.0.0/8, 169.254.0.0/16, and 10/8, 172.16/12 and 192.168/16.
abbrev is_loopback : ℕ → Bool
is_loopback a = a == 127

abbrev is_link_local : ℕ → ℕ → Bool
is_link_local a b = a == 169 && b == 254

abbrev is_private : ℕ → ℕ → Bool
is_private a b = a == 10 || ((a == 172 && (leb 16 b && leb b 31)) || (a == 192 && b == 168))

-- `::1`: seven zero segments and a one.
abbrev is_loopback6 : ℕ → List ℕ → Bool
is_loopback6 zero (s ∷ []) = s == 1
is_loopback6 (suc n) (s ∷ segments) = s == 0 && is_loopback6 n segments
is_loopback6 _ _ = false

-- `addr_is_reachable`: only the first protocol counts.
unfoldable pub addr_is_reachable : Bool → Address → Bool
addr_is_reachable private_network [] = false
addr_is_reachable private_network (Protocol.ip4 a b c d ∷ _) =
    if is_loopback a
    then private_network
    else not (is_link_local a b) && (not (is_private a b) || private_network)
addr_is_reachable private_network (Protocol.ip6 segments ∷ _) = not (is_loopback6 7 segments)
addr_is_reachable private_network (Protocol.dns ∷ _) = true
addr_is_reachable private_network (Protocol.dns4 ∷ _) = true
addr_is_reachable private_network (Protocol.dns6 ∷ _) = true
addr_is_reachable private_network (Protocol.dnsaddr ∷ _) = true
addr_is_reachable private_network (Protocol.other _ ∷ _) = false

-- `DialError`, less what its variants carry.
pub data DialError : Type 0 where
  local_peer_id no_addresses peer_condition_false aborted wrong_peer_id denied transport : DialError

-- `lru::LruCache`, keyed by peer: what it holds after each call. Changing one entry leaves each other
-- one alone or drops it; `get` only marks an entry as used.
pub record Lru (P V C : Type 0) : Type 0 where
  pub initial : C
  pub lookup : C → P → Option V
  pub update : C → P → V → (V → V) → C
  pub pop : C → P → C
  pub touch : C → P → C
  pub lookup-initial : (p : P) → lookup initial p ≡ none
  pub lookup-update :
      (c : C) (p : P) (default : V) (f : V → V)
      → (lookup (update c p default f) p ≡ some (f default)) × (lookup c p ≡ none)
        ⊎ (v : V) × (lookup (update c p default f) p ≡ some (f v)) × (lookup c p ≡ some v)
  pub lookup-update_other :
      (c : C) (p q : P) (default : V) (f : V → V) (v : V)
      → lookup (update c p default f) q ≡ some v
      → (q ≡ p) ⊎ (lookup c q ≡ some v)
  pub lookup-pop : (c : C) (p : P) → lookup (pop c p) p ≡ none
  pub lookup-pop_other :
      (c : C) (p q : P) (v : V) → lookup (pop c p) q ≡ some v → lookup c q ≡ some v
  pub lookup-touch : (c : C) (p q : P) → lookup (touch c p) q ≡ lookup c q

abbrev pub is_some : {V : Type 0} → Option V → Bool
is_some none = false
is_some (some _) = true

-- What the swarm tells the cache.
pub data SwarmEvent (P : Type 0) : Type 0 where
  new_external_addr_of_peer : P → Address → SwarmEvent P
  dial_failure : Option P → DialError → SwarmEvent P
  another_event : SwarmEvent P

unfoldable pub filter_reachable : Bool → List Address → List Address
unfolding addr_is_reachable
filter_reachable private_network [] = []
filter_reachable private_network (a ∷ addrs) =
    let rest = filter_reachable private_network addrs in
    if addr_is_reachable private_network a then a ∷ rest else rest

-- `l` is the cache crate; `with_p2p` ends an address with a peer id, and gives it back as it is where
-- that fails.
module _ {P C : Type 0} ⦃e : Eq Address⦄ (l : Lru P (List Address) C)
    (with_p2p : P → Address → Address) (private_network : Bool) where
  -- `put`: nothing is entered where no address is reachable.
  unfoldable pub put : C → P → List Address → C
  unfolding filter_reachable
  put c peer_id addrs = elim (map (with_p2p peer_id) (filter_reachable private_network addrs)) [
    | [] ↦ c
    | a ∷ more ↦ l.update c peer_id [] (λ known. extend known (a ∷ more))
  ]

  -- `evict`.
  unfoldable pub evict : C → P → C
  evict c peer_id = l.pop c peer_id

  -- `contains`.
  unfoldable pub contains : C → P → Bool
  contains c peer_id = is_some (l.lookup c peer_id)

  -- `on_dial_failure`.
  unfoldable pub on_dial_failure : C → Option P → DialError → C
  unfolding evict
  on_dial_failure c none error = c
  on_dial_failure c (some peer_id) DialError.wrong_peer_id = evict c peer_id
  on_dial_failure c (some peer_id) DialError.transport = evict c peer_id
  on_dial_failure c (some peer_id) DialError.no_addresses = evict c peer_id
  on_dial_failure c (some peer_id) DialError.local_peer_id = c
  on_dial_failure c (some peer_id) DialError.peer_condition_false = c
  on_dial_failure c (some peer_id) DialError.aborted = c
  on_dial_failure c (some peer_id) DialError.denied = c

  -- `handle_pending_outbound_connection`: the addresses that the swarm dials.
  unfoldable pub handle_pending_outbound_connection : C → Option P → C × List Address
  handle_pending_outbound_connection c none = (c, [])
  handle_pending_outbound_connection c (some peer_id) =
      (l.touch c peer_id, elim (l.lookup c peer_id) [ none ↦ [] | some addrs ↦ addrs ])

  -- `handle_established_outbound_connection`.
  unfoldable pub handle_established_outbound_connection : C → P → Address → C
  unfolding put
  handle_established_outbound_connection c peer addr = put c peer (addr ∷ [])

  -- `on_swarm_event`.
  unfoldable pub on_swarm_event : C → SwarmEvent P → C
  unfolding put on_dial_failure
  on_swarm_event c (SwarmEvent.new_external_addr_of_peer p addr) = put c p (addr ∷ [])
  on_swarm_event c (SwarmEvent.dial_failure p error) = on_dial_failure c p error
  on_swarm_event c SwarmEvent.another_event = c
