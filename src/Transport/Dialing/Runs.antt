-- ===== src/Transport/Dialing/Runs.antt =====
-- The states that a behaviour reaches by the events of the swarm, the chain and its timers.
use sqd_network.Base.{
  ℕ, ◌+◌, ◌≡◌, ◌<◌, refl, Bool, true, false, Option, none, some, List, [], ◌∷◌, length, Eq, ltb,
  u32_mod, arith,
}
use sqd_network.Base.Sets.{elem, count}
use sqd_network.Transport.Addresses.{DialError}
use sqd_network.Transport.Whitelist.{NetworkNodes}
use sqd_network.Transport.Dialing
use sqd_network.Transport.Dialing.{
  Kademlia, Event, Base, add_conn, drop_conn, conns_of, above_zero, outbound_conn_exists,
  on_connection_established, schedule_reconnect, on_connection_closed, on_dial_failure,
  on_nodes_update, poll, on_closest_peers, on_identify_event, try_emit_confidence, find_and_dial,
}
use sqd_network.Transport.Dialing.Waiting.{
  Waits, closed-Waits, established-Waits, failed-Waits, nodes-Waits, poll-Waits,
}
use sqd_network.Transport.Dialing.Connections.{
  number, remove_one, Counts, opened-Counts, closed-Counts, schedule_reconnect-conns, failed-conns,
  nodes-conns, poll-conns,
}

module _ {P K : Type 0} ⦃e : Eq P⦄ (k : Kademlia P K) (tenths : ℕ → ℕ → ℕ) where
  -- A state, and the outbound connections that are open in it. A connection closes only if it is open,
  -- and fewer than 2^32 are open at a time.
  pub data Reachable : Base P K → List P → Type 0 where
    started : (kademlia : K) (max : ℕ) → Reachable (Dialing.new kademlia max) []
    maintained :
        (b : Base P K) (conns : List P)
        → Reachable b conns
        → Reachable (Dialing.maintain_worker_connections b) conns
    opened :
        (b : Base P K) (conns : List P) (p : P)
        → length conns + 1 < u32_mod
        → Reachable b conns
        → Reachable (on_connection_established b true p) (p ∷ conns)
    closed :
        (b : Base P K) (conns : List P) (p : P)
        → 0 < count p conns
        → length conns < u32_mod
        → Reachable b conns
        → Reachable (on_connection_closed b true p) (remove_one p conns)
    accepted :
        (b : Base P K) (conns : List P) (p : P)
        → Reachable b conns
        → Reachable (on_connection_established b false p) conns
    left :
        (b : Base P K) (conns : List P) (p : P)
        → Reachable b conns
        → Reachable (on_connection_closed b false p) conns
    failed :
        (b : Base P K) (conns : List P) (p : Option P) (error : DialError)
        → Reachable b conns
        → Reachable (on_dial_failure b p error) conns
    updated :
        (b : Base P K) (conns : List P) (nodes : NetworkNodes P)
        → Reachable b conns
        → Reachable (on_nodes_update k b nodes) conns
    polled :
        (b : Base P K) (conns : List P) (cached : P → Bool) (ready : List ℕ)
        → Reachable b conns
        → Reachable (poll k cached ready b).0 conns
    progressed :
        (b : Base P K) (conns : List P) (query : ℕ) (found last : Bool)
        → Reachable b conns
        → Reachable (on_closest_peers b query found last).0 conns
    identified :
        (b : Base P K) (conns : List P) (size : ℕ) (p : P)
        → Reachable b conns
        → Reachable (on_identify_event tenths size b p).0 conns

  progressed-Waits :
      (b : Base P K) (query : ℕ) (found last : Bool)
      → Waits b
      → Waits (on_closest_peers b query found last).0
  unfolding on_closest_peers
  progressed-Waits b query found last w = λ p. ground (arith, w p)

  identified-Waits :
      (b : Base P K) (size : ℕ) (p : P) → Waits b → Waits (on_identify_event tenths size b p).0
  unfolding on_identify_event
  identified-Waits b size p w = λ q. ground (arith, w q)

  -- In every state that the behaviour reaches, `reconnect_scheduled` has exactly the peers that wait in
  -- the reconnect queue or among the pending lookups, and a peer waits in one of the two and only once.
  pub reachable-Waits : (b : Base P K) (conns : List P) → Reachable b conns → Waits b
  unfolding Dialing.new Dialing.maintain_worker_connections count elem
  reachable-Waits _ _ (Reachable.started kademlia max) = λ p. refl
  reachable-Waits _ _ (Reachable.maintained b conns r) = reachable-Waits b conns r
  reachable-Waits _ _ (Reachable.opened b conns p l r) =
      established-Waits b true p (reachable-Waits b conns r)
  reachable-Waits _ _ (Reachable.closed b conns p o l r) =
      closed-Waits b true p (reachable-Waits b conns r)
  reachable-Waits _ _ (Reachable.accepted b conns p r) =
      established-Waits b false p (reachable-Waits b conns r)
  reachable-Waits _ _ (Reachable.left b conns p r) =
      closed-Waits b false p (reachable-Waits b conns r)
  reachable-Waits _ _ (Reachable.failed b conns p error r) =
      failed-Waits b p error (reachable-Waits b conns r)
  reachable-Waits _ _ (Reachable.updated b conns nodes r) =
      nodes-Waits k b nodes (reachable-Waits b conns r)
  reachable-Waits _ _ (Reachable.polled b conns cached ready r) =
      poll-Waits k cached ready b (reachable-Waits b conns r)
  reachable-Waits _ _ (Reachable.progressed b conns query found last r) =
      progressed-Waits b query found last (reachable-Waits b conns r)
  reachable-Waits _ _ (Reachable.identified b conns size p r) =
      identified-Waits b size p (reachable-Waits b conns r)

  same-Counts :
      (b' : Base P K) (m : List (P × ℕ)) (conns : List P)
      → b'.outbound_conns ≡ m
      → Counts m conns
      → Counts b'.outbound_conns conns
  same-Counts b' m conns same c = rw same c

  progressed-conns :
      (b : Base P K) (query : ℕ) (found last : Bool)
      → (on_closest_peers b query found last).0.outbound_conns ≡ b.outbound_conns
  unfolding on_closest_peers
  progressed-conns b query found last = ground arith

  identified-conns :
      (b : Base P K) (size : ℕ) (p : P)
      → (on_identify_event tenths size b p).0.outbound_conns ≡ b.outbound_conns
  unfolding on_identify_event
  identified-conns b size p = ground arith

  closed-conns :
      (b : Base P K) (p : P)
      → (on_connection_closed b true p).outbound_conns ≡ drop_conn b.outbound_conns p
  unfolding on_connection_closed
  closed-conns b p =
      schedule_reconnect-conns (record b { outbound_conns = drop_conn b.outbound_conns p }) p

  opened-conns :
      (b : Base P K) (p : P)
      → (on_connection_established b true p).outbound_conns ≡ add_conn b.outbound_conns p
  unfolding on_connection_established
  opened-conns b p = refl

  reachable-Counts :
      (b : Base P K) (conns : List P) → Reachable b conns → Counts b.outbound_conns conns
  unfolding Dialing.new Dialing.maintain_worker_connections conns_of count
  reachable-Counts _ _ (Reachable.started kademlia max) = λ p. refl
  reachable-Counts _ _ (Reachable.maintained b conns r) = reachable-Counts b conns r
  reachable-Counts _ _ (Reachable.opened b conns p l r) =
      same-Counts (on_connection_established b true p) (add_conn b.outbound_conns p) (p ∷ conns)
        (opened-conns b p) (opened-Counts b.outbound_conns conns p l (reachable-Counts b conns r))
  reachable-Counts _ _ (Reachable.closed b conns p o l r) =
      same-Counts (on_connection_closed b true p) (drop_conn b.outbound_conns p)
        (remove_one p conns) (closed-conns b p)
        (closed-Counts b.outbound_conns conns p o l (reachable-Counts b conns r))
  reachable-Counts _ _ (Reachable.accepted b conns p r) =
      same-Counts (on_connection_established b false p) b.outbound_conns conns (accepted b p)
        (reachable-Counts b conns r)
    where
      accepted :
          (b : Base P K) (p : P)
          → (on_connection_established b false p).outbound_conns ≡ b.outbound_conns
      accepted b p = unfold on_connection_established in refl
  reachable-Counts _ _ (Reachable.left b conns p r) =
      same-Counts (on_connection_closed b false p) b.outbound_conns conns (leaves b p)
        (reachable-Counts b conns r)
    where
      leaves :
          (b : Base P K) (p : P)
          → (on_connection_closed b false p).outbound_conns ≡ b.outbound_conns
      leaves b p = unfold on_connection_closed in refl
  reachable-Counts _ _ (Reachable.failed b conns p error r) =
      same-Counts (on_dial_failure b p error) b.outbound_conns conns (failed-conns b p error)
        (reachable-Counts b conns r)
  reachable-Counts _ _ (Reachable.updated b conns nodes r) =
      same-Counts (on_nodes_update k b nodes) b.outbound_conns conns (nodes-conns k b nodes)
        (reachable-Counts b conns r)
  reachable-Counts _ _ (Reachable.polled b conns cached ready r) =
      same-Counts (poll k cached ready b).0 b.outbound_conns conns (poll-conns k cached ready b)
        (reachable-Counts b conns r)
  reachable-Counts _ _ (Reachable.progressed b conns query found last r) =
      same-Counts (on_closest_peers b query found last).0 b.outbound_conns conns
        (progressed-conns b query found last) (reachable-Counts b conns r)
  reachable-Counts _ _ (Reachable.identified b conns size p r) =
      same-Counts (on_identify_event tenths size b p).0 b.outbound_conns conns
        (identified-conns b size p) (reachable-Counts b conns r)

  -- In every state that the behaviour reaches, `outbound_conn_exists` answers whether the peer has an
  -- open outbound connection, however many were opened and closed before; inbound ones do not count.
  pub outbound_conn_exists_lem :
      (b : Base P K) (conns : List P)
      → Reachable b conns
      → (p : P) → outbound_conn_exists b p ≡ ltb 0 (count p conns)
  unfolding outbound_conn_exists
  outbound_conn_exists_lem b conns r p =
      positive (conns_of b.outbound_conns p) (reachable-Counts b conns r p)
    where
      positive : (o : Option ℕ) → number o ≡ count p conns → above_zero o ≡ ltb 0 (count p conns)
      positive none h = unfold above_zero in ground (arith, h)
      positive (some n) h = unfold above_zero in ground (arith, h)
