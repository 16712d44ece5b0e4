-- ===== src/Tests/Dials.antt =====
-- The whitelist, the address cache and the base behaviour on a few peers.
use sqd_network.Base.{
  ℕ, zero, suc, ◌≡◌, ◌⊎◌, refl, sym, ap, ◌∙◌, Bool, true, false, ◌&&◌, ◌||◌, not, Option, none,
  some, List, [], ◌∷◌, if◌then◌else◌, ◌==◌, ==_iff, ltb, arith, inl, inr, Eq, nat_eq, Bool-cases,
  All,
}
use sqd_network.Base.Text.{Text, text_eq, text_eq_iff, text_eq_refl}
use sqd_network.Base.Sets.{elem, insert, remove, elem-remove, elem-insert, count}
use sqd_network.Transport.Whitelist
use sqd_network.Transport.Whitelist.{AllowList, NetworkNodes, Whitelist, on_nodes_update}
use sqd_network.Transport.Whitelist.Following.{
  Updated, on_nodes_update_lem, Reachable, Follows, reachable-Follows,
}
use sqd_network.Transport.Addresses.{
  Protocol, Address, addr_is_reachable, Lru, put, contains, handle_pending_outbound_connection,
}
use sqd_network.Transport.Addresses.Usable
use sqd_network.Transport.Addresses.Usable.{contains_dials}
use sqd_network.Transport.Dialing
use sqd_network.Transport.Dialing.{
  Kademlia, Event, Base, poll, outbound_conn_exists, on_connection_established,
  on_connection_closed,
}
use sqd_network.Transport.Dialing.Waiting.{Waits}
use sqd_network.Transport.Dialing.Runs
use sqd_network.Transport.Dialing.Runs.{reachable-Waits, outbound_conn_exists_lem}
use sqd_network.Transport.Dialing.Polling.{has_right}
use sqd_network.Transport.Dialing.Progress.{Polled, poll-Polled}

-- A list of allowed peers.
allow_list : AllowList ℕ (List ℕ)
unfolding elem
allow_list = record {
  initial = [];
  allow_peer = λ p w. (insert p w).1;
  disallow_peer = λ p w. remove p w;
  allowed = λ w p. elem p w;
  allowed-initial = λ p. refl;
  allowed-allow_peer = λ w p q. elem-insert p q w;
  allowed-disallow_peer = λ w p q. elem-remove p q w;
}

abbrev nodes : NetworkNodes ℕ
nodes = record { portals = 1 ∷ []; workers = 3 ∷ 4 ∷ [] }

abbrev earlier : Whitelist ℕ (List ℕ)
earlier = record { allow = 2 ∷ 3 ∷ []; registered_nodes = 2 ∷ 3 ∷ [] }

on_nodes_update_lem_example :
    ((p : ℕ)
      → Updated allow_list earlier (on_nodes_update allow_list earlier (some nodes)).0 nodes p)
    × (((on_nodes_update allow_list earlier (some nodes)).1 ≡ some nodes)
          × ((p : ℕ) × (elem p (on_nodes_update allow_list earlier (some nodes)).0.registered_nodes
                ≡ not (elem p earlier.registered_nodes)))
        ⊎ ((on_nodes_update allow_list earlier (some nodes)).1 ≡ none)
          × ((on_nodes_update allow_list earlier (some nodes)).0 ≡ earlier)
          × ((p : ℕ)
              → elem p nodes.portals || elem p nodes.workers ≡ elem p earlier.registered_nodes))
    × (on_nodes_update allow_list earlier none ≡ (earlier, none))
on_nodes_update_lem_example = on_nodes_update_lem allow_list earlier nodes

-- A boot node is allowed, and then the chain is read.
begun :
    Reachable allow_list
      (on_nodes_update allow_list
        (Whitelist.allow_peer allow_list (Whitelist.new allow_list) 9)
        (some nodes)).0
      (9 ∷ [])
begun =
    Reachable.updated (Whitelist.allow_peer allow_list (Whitelist.new allow_list) 9) (9 ∷ [])
      (some nodes) (Reachable.by_hand (Whitelist.new allow_list) [] 9 Reachable.started)

reachable-Follows_example :
    Follows allow_list
      (on_nodes_update allow_list
        (Whitelist.allow_peer allow_list (Whitelist.new allow_list) 9)
        (some nodes)).0
      (9 ∷ [])
      9
reachable-Follows_example = reachable-Follows allow_list _ (9 ∷ []) begun 9

-- A cache that never drops an entry by itself.
abbrev or_else {ℓ} : {A : Type ℓ} → Option A → A → A
or_else none a = a
or_else (some b) a = b

cache : Lru ℕ (List Address) (ℕ → Option (List Address))
cache = record {
  initial = λ p. none;
  lookup = λ c p. c p;
  update = λ c p default f q. if q == p then some (f (or_else (c p) default)) else c q;
  pop = λ c p q. if q == p then none else c q;
  touch = λ c p. c;
  lookup-initial = λ p. refl;
  lookup-update = λ c p default f. updated c p default f (c p) refl;
  lookup-update_other = λ c p q default f v h. others c p q default f v h;
  lookup-pop = λ c p. ground arith;
  lookup-pop_other = λ c p q v h. kept c p q v h;
  lookup-touch = λ c p q. refl;
}
  where
    updated :
        (c : ℕ → Option (List Address)) (p : ℕ) (default : List Address)
        (f : List Address → List Address) (o : Option (List Address))
        → c p ≡ o
        → ((if p == p then some (f (or_else (c p) default)) else c p) ≡ some (f default))
            × (c p ≡ none)
          ⊎ (v : List Address) × ((if p == p then some (f (or_else (c p) default)) else c p)
              ≡ some (f v))
            × (c p ≡ some v)
    updated c p default f none h = inl (ground (arith, h), h)
    updated c p default f (some v) h = inr (v, ground (arith, h), h)

    others :
        (c : ℕ → Option (List Address)) (p q : ℕ) (default : List Address)
        (f : List Address → List Address) (v : List Address)
        → (if q == p then some (f (or_else (c p) default)) else c q) ≡ some v
        → (q ≡ p) ⊎ (c q ≡ some v)
    others c p q default f v h = elim (Bool-cases (q == p)) [
      | inl same ↦ inl ((==_iff q p).0 same)
      | inr other ↦ inr (ground (arith, h, other))
    ]

    kept :
        (c : ℕ → Option (List Address)) (p q : ℕ) (v : List Address)
        → (if q == p then none else c q) ≡ some v
        → c q ≡ some v
    kept c p q v h = elim (Bool-cases (q == p)) [
      | inl same ↦ absurd (ground (arith, h, same))
      | inr other ↦ ground (arith, h, other)
    ]

-- Protocols and addresses compared by their codes.
code : Protocol → Text
code (Protocol.ip4 a b c d) = 0 ∷ a ∷ b ∷ c ∷ d ∷ []
code (Protocol.ip6 segments) = 1 ∷ segments
code Protocol.dns = 2 ∷ []
code Protocol.dns4 = 3 ∷ []
code Protocol.dns6 = 4 ∷ []
code Protocol.dnsaddr = 5 ∷ []
code (Protocol.other n) = 6 ∷ n ∷ []

decode : Text → Protocol
decode (zero ∷ a ∷ b ∷ c ∷ d ∷ []) = Protocol.ip4 a b c d
decode (suc zero ∷ segments) = Protocol.ip6 segments
decode (suc (suc zero) ∷ []) = Protocol.dns
decode (suc (suc (suc zero)) ∷ []) = Protocol.dns4
decode (suc (suc (suc (suc zero))) ∷ []) = Protocol.dns6
decode (suc (suc (suc (suc (suc (suc n))))) ∷ m ∷ []) = Protocol.other m
decode _ = Protocol.dnsaddr

decode-code : (p : Protocol) → decode (code p) ≡ p
unfolding decode code
decode-code (Protocol.ip4 a b c d) = refl
decode-code (Protocol.ip6 segments) = refl
decode-code Protocol.dns = refl
decode-code Protocol.dns4 = refl
decode-code Protocol.dns6 = refl
decode-code Protocol.dnsaddr = refl
decode-code (Protocol.other n) = refl

address_eq : Address → Address → Bool
address_eq [] [] = true
address_eq [] (q ∷ b) = false
address_eq (p ∷ a) [] = false
address_eq (p ∷ a) (q ∷ b) = text_eq (code p) (code q) && address_eq a b

address_eq_sound : (a b : Address) → address_eq a b ≡ true → a ≡ b
unfolding address_eq
address_eq_sound [] [] h = refl
address_eq_sound [] (q ∷ b) h = cc
address_eq_sound (p ∷ a) [] h = cc
address_eq_sound (p ∷ a) (q ∷ b) h =
    let same : code p ≡ code q = (text_eq_iff (code p) (code q)).0 (ground arith) in
    let k : p ≡ q = sym (decode-code p) ∙ ap decode same ∙ decode-code q in
    let r : a ≡ b = address_eq_sound a b (ground arith) in ap (λ x. x ∷ a) k ∙ ap (λ x. q ∷ x) r

address_eq_refl : (a : Address) → address_eq a a ≡ true
unfolding address_eq
address_eq_refl [] = refl
address_eq_refl (p ∷ a) = ground (arith, text_eq_refl (code p), address_eq_refl a)

instance abbrev address_has_eq : Eq Address
address_has_eq = record {
  beq = address_eq;
  beq_iff = λ a b. (address_eq_sound a b, λ h. rw h (address_eq_refl b));
}

-- An address with a peer id at its end.
with_p2p : ℕ → Address → Address
with_p2p p [] = Protocol.other p ∷ []
with_p2p p (x ∷ a) = x ∷ with_p2p p a

keeps : (p : ℕ) (x : Protocol) (a : Address) → (rest : Address) × (with_p2p p (x ∷ a) ≡ x ∷ rest)
unfolding with_p2p
keeps p x a = (with_p2p p a, refl)

abbrev near : Address
near = Protocol.ip4 1 2 3 4 ∷ []

contains_dials_example :
    ((contains cache with_p2p false (put cache with_p2p false cache.initial 7 (near ∷ [])) 7 ≡ true)
      × (a : Address) × (more : List Address) × ((handle_pending_outbound_connection cache with_p2p
            false
            (put cache with_p2p false cache.initial 7 (near ∷ []))
            (some 7)).1
          ≡ a ∷ more)
      × All (λ x. addr_is_reachable false x ≡ true) (a ∷ more))
    ⊎ (contains cache with_p2p false (put cache with_p2p false cache.initial 7 (near ∷ [])) 7
        ≡ false)
      × ((handle_pending_outbound_connection cache with_p2p false
            (put cache with_p2p false cache.initial 7 (near ∷ []))
            (some 7)).1
          ≡ [])
contains_dials_example =
    contains_dials cache with_p2p false keeps (put cache with_p2p false cache.initial 7 (near ∷ []))
      7 (Usable.Reachable.put_addrs cache.initial 7 (near ∷ []) Usable.Reachable.started)

-- Query ids are given out in order.
fresh_id : (n : ℕ) → ltb n n ≡ false
fresh_id n = ground arith

next_id : (n : ℕ) → ltb n (suc n) ≡ true
next_id n = ground arith

later_id : (n q : ℕ) → ltb q n ≡ true → ltb q (suc n) ≡ true
later_id n q h = ground arith

abbrev kademlia : Kademlia ℕ ℕ
kademlia = record {
  get_closest_peers = λ n p. (n, suc n);
  bootstrap = λ n. n;
  bootstrapping = λ n. false;
  issued = λ n q. ltb q n;
  fresh = λ n p. fresh_id n;
  issues = λ n p. next_id n;
  keeps = λ n p q h. later_id n q h;
  keeps_bootstrap = λ n q h. h;
}

abbrev share : ℕ → ℕ → ℕ
share identified size = identified

abbrev opened : Base ℕ ℕ
opened = on_connection_established (Dialing.maintain_worker_connections (Dialing.new 0 2)) true 3

opened-Reachable : Runs.Reachable kademlia share opened (3 ∷ [])
opened-Reachable =
    Runs.Reachable.opened _ [] 3 (ground arith)
      (Runs.Reachable.maintained _ [] (Runs.Reachable.started 0 2))

reachable-Waits_example : Waits (Dialing.on_nodes_update kademlia opened nodes)
reachable-Waits_example =
    reachable-Waits kademlia share (Dialing.on_nodes_update kademlia opened nodes) (3 ∷ [])
      (Runs.Reachable.updated opened (3 ∷ []) nodes opened-Reachable)

outbound_conn_exists_lem_example : outbound_conn_exists opened 3 ≡ ltb 0 (count {K = ℕ} 3 (3 ∷ []))
outbound_conn_exists_lem_example =
    outbound_conn_exists_lem kademlia share opened (3 ∷ []) opened-Reachable 3

abbrev waiting : Base ℕ ℕ
waiting = record (Dialing.new 0 1) {
  registered_workers = 3 ∷ 4 ∷ 5 ∷ [];
  pending_lookups = 3 ∷ 4 ∷ [];
  reconnect_queue = 5 ∷ [];
  reconnect_scheduled = 3 ∷ 4 ∷ 5 ∷ [];
}

poll-Polled_example :
    Polled kademlia waiting
      (poll kademlia (λ p. p == 3) (0 ∷ []) waiting).0
      (poll kademlia (λ p. p == 3) (0 ∷ []) waiting).1
poll-Polled_example = poll-Polled kademlia (λ p. p == 3) (0 ∷ []) waiting (λ n h. nothing n h)
  where
    nothing : (n : ℕ) → has_right n waiting.ongoing_lookups ≡ true → ltb n waiting.kademlia ≡ true
    nothing n h = absurd (unfold has_right Dialing.new in cc)
