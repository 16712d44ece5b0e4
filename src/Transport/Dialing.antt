-- ===== src/Transport/Dialing.antt =====
-- crates/transport/src/behaviour/base.rs: which peers are dialled, looked up in the DHT and
-- reconnected, and when the network counts as connected. Kademlia, the address cache and timers
-- are library calls: `Kademlia` hands out query ids, `cached` is what the address cache contains,
-- and the positions that a `DelayQueue` hands out are an argument of `poll`. Events of libp2p
-- carry what the code reads of them.
pub mod Waiting
pub mod Connections
pub mod Runs
pub mod Polling
pub mod Progress
pub mod Confidence
use sqd_network.Base.{
  ℕ, zero, suc, ◌+◌, ◌-◌, ◌%◌, ◌≡◌, ◌≤◌, Bool, true, false, ◌&&◌, ◌||◌, not, Option, none, some,
  List, [], ◌∷◌, ◌++◌, length, Eq, if◌then◌else◌, ◌==◌, ltb, leb, u32_mod,
}
use sqd_network.Base.Sets.{elem, insert, remove}
use sqd_network.Assignments.Columns.{push}
use sqd_network.Transport.Addresses.{DialError}
use sqd_network.Transport.Whitelist.{NetworkNodes}

-- `kad::Behaviour`: a lookup gets a query id that was not given out before.
pub record Kademlia (P K : Type 0) : Type 0 where
  pub get_closest_peers : K → P → ℕ × K
  pub bootstrap : K → K
  pub bootstrapping : K → Bool
  pub issued : K → ℕ → Bool
  pub fresh : (k : K) (p : P) → issued k (get_closest_peers k p).0 ≡ false
  pub issues : (k : K) (p : P) → issued (get_closest_peers k p).1 (get_closest_peers k p).0 ≡ true
  pub keeps :
      (k : K) (p : P) (q : ℕ) → issued k q ≡ true → issued (get_closest_peers k p).1 q ≡ true
  pub keeps_bootstrap : (k : K) (q : ℕ) → issued k q ≡ true → issued (bootstrap k) q ≡ true

-- `PeerCondition`, and the events that the behaviour raises.
pub data Event (P : Type 0) : Type 0 where
  dial dial_unless_dialing : P → Event P
  network_connected : ℕ → Event P

-- `BaseBehaviour`, less its key and the inner behaviours other than Kademlia. `reconnect_queue` is what
-- the `DelayQueue` holds.
pub record Base (P K : Type 0) : Type 0 where
  pub kademlia : K
  pub pending_events : List (Event P)
  pub ongoing_lookups : List (P × ℕ)
  pub outbound_conns : List (P × ℕ)
  pub registered_workers : List P
  pub whitelist_initialized : Bool
  pub identified_peers : List P
  pub last_sent_confidence_step : Option ℕ
  pub maintain_worker_connections : Bool
  pub pending_lookups : List P
  pub max_concurrent_lookups : ℕ
  pub reconnect_queue : List P
  pub reconnect_scheduled : List P

-- `BaseBehaviour::new`.
unfoldable pub new : {P K : Type 0} → K → ℕ → Base P K
new kademlia max = record {
  kademlia = kademlia;
  pending_events = [];
  ongoing_lookups = [];
  outbound_conns = [];
  registered_workers = [];
  whitelist_initialized = false;
  identified_peers = [];
  last_sent_confidence_step = none;
  maintain_worker_connections = false;
  pending_lookups = [];
  max_concurrent_lookups = max;
  reconnect_queue = [];
  reconnect_scheduled = [];
}

-- `maintain_worker_connections`, the keep-alive protocol apart.
unfoldable pub maintain_worker_connections : {P K : Type 0} → Base P K → Base P K
maintain_worker_connections b = record b { maintain_worker_connections = true }

-- `DelayQueue` hands out the entry at a position.
unfoldable pub take_at {ℓ} : {A : Type ℓ} → ℕ → List A → Option (A × List A)
take_at i [] = none
take_at zero (x ∷ xs) = some (x, xs)
take_at (suc i) (x ∷ xs) = elim (take_at i xs) [ none ↦ none | some (y, ys) ↦ some (y, x ∷ ys) ]

module _ {P : Type 0} ⦃e : Eq P⦄ where
  -- `HashMap<PeerId, u32>`: `entry().or_default() += 1`, `get_mut() -= 1` and `get`. Both sums wrap.
  unfoldable pub add_conn : List (P × ℕ) → P → List (P × ℕ)
  add_conn [] p = (p, 1) ∷ []
  add_conn ((q, n) ∷ conns) p =
      let rest = add_conn conns p in
      if e.beq p q then (q, (n + 1) % u32_mod) ∷ conns else (q, n) ∷ rest

  unfoldable pub drop_conn : List (P × ℕ) → P → List (P × ℕ)
  drop_conn [] p = []
  drop_conn ((q, n) ∷ conns) p =
      let rest = drop_conn conns p in
      if e.beq p q then (q, (n + (u32_mod - 1)) % u32_mod) ∷ conns else (q, n) ∷ rest

  unfoldable pub conns_of : List (P × ℕ) → P → Option ℕ
  conns_of [] p = none
  conns_of ((q, n) ∷ conns) p = if e.beq p q then some n else conns_of conns p

  -- `BiHashMap`: `contains_left`, `insert`, which drops every pair that shares a side, `get_by_right`
  -- and `remove_by_right`.
  unfoldable pub contains_left : P → List (P × ℕ) → Bool
  contains_left p [] = false
  contains_left p ((q, n) ∷ lookups) = e.beq p q || contains_left p lookups

  unfoldable pub drop_pairs : P → ℕ → List (P × ℕ) → List (P × ℕ)
  drop_pairs p id [] = []
  drop_pairs p id ((q, n) ∷ lookups) =
      let rest = drop_pairs p id lookups in if e.beq p q || id == n then rest else (q, n) ∷ rest

  unfoldable pub insert_lookup : P → ℕ → List (P × ℕ) → List (P × ℕ)
  unfolding drop_pairs
  insert_lookup p id lookups = (p, id) ∷ drop_pairs p id lookups

unfoldable pub get_by_right : {P : Type 0} → ℕ → List (P × ℕ) → Option P
get_by_right id [] = none
get_by_right id ((q, n) ∷ lookups) = if id == n then some q else get_by_right id lookups

unfoldable pub remove_by_right : {P : Type 0} → ℕ → List (P × ℕ) → List (P × ℕ)
remove_by_right id [] = []
remove_by_right id ((q, n) ∷ lookups) =
    let rest = remove_by_right id lookups in if id == n then rest else (q, n) ∷ rest

unfoldable pub above_zero : Option ℕ → Bool
above_zero none = false
above_zero (some n) = ltb 0 n

unfoldable pub unreachable : DialError → Bool
unreachable DialError.transport = true
unreachable DialError.wrong_peer_id = true
unreachable DialError.no_addresses = true
unreachable _ = false

module _ {P K : Type 0} ⦃e : Eq P⦄ where
  unfoldable pub outbound_conn_exists : Base P K → P → Bool
  unfolding conns_of above_zero
  outbound_conn_exists b p = above_zero (conns_of b.outbound_conns p)

  -- `on_connection_established`; `dialer` is whether the endpoint is `Dialer`.
  unfoldable pub on_connection_established : Base P K → Bool → P → Base P K
  unfolding add_conn
  on_connection_established b false p = b
  on_connection_established b true p = record b { outbound_conns = add_conn b.outbound_conns p }

  -- `schedule_reconnect`.
  unfoldable pub schedule_reconnect : Base P K → P → Base P K
  unfolding outbound_conn_exists
  schedule_reconnect b p =
      let needed =
        b.maintain_worker_connections
        && (elem p b.registered_workers && not (outbound_conn_exists b p)) in
      let (new, scheduled) = insert p b.reconnect_scheduled in
      if needed && new
      then record b { reconnect_scheduled = scheduled; reconnect_queue = push b.reconnect_queue p }
      else b

  -- `on_connection_closed`.
  unfoldable pub on_connection_closed : Base P K → Bool → P → Base P K
  unfolding drop_conn schedule_reconnect
  on_connection_closed b false p = b
  on_connection_closed b true p =
      schedule_reconnect (record b { outbound_conns = drop_conn b.outbound_conns p }) p

  -- `on_dial_failure`.
  unfoldable pub on_dial_failure : Base P K → Option P → DialError → Base P K
  unfolding unreachable schedule_reconnect
  on_dial_failure b none error = b
  on_dial_failure b (some p) error = if unreachable error then schedule_reconnect b p else b

  -- The loop of `on_nodes_update` over the registered workers.
  unfoldable pub enqueue_workers : List P → Base P K → Base P K
  unfolding outbound_conn_exists
  enqueue_workers [] b = b
  enqueue_workers (p ∷ workers) b =
      let (new, scheduled) = insert p b.reconnect_scheduled in
      enqueue_workers workers (
        if not (outbound_conn_exists b p) && new
        then record b {
          reconnect_scheduled = scheduled;
          pending_lookups = push b.pending_lookups p;
        }
        else b)

module _ {P K : Type 0} ⦃e : Eq P⦄ (k : Kademlia P K) where
  -- The bootstrap at the first update.
  unfoldable pub initialize : Base P K → Base P K
  initialize b = if b.whitelist_initialized then b else record b {
    whitelist_initialized = true;
    kademlia = if k.bootstrapping b.kademlia then b.kademlia else k.bootstrap b.kademlia;
  }

  -- `on_nodes_update`.
  unfoldable pub on_nodes_update : Base P K → NetworkNodes P → Base P K
  unfolding initialize enqueue_workers
  on_nodes_update b nodes =
      let b' = initialize (record b { registered_workers = nodes.workers }) in
      if b'.maintain_worker_connections then enqueue_workers b'.registered_workers b' else b'

  -- `find_and_dial`.
  unfoldable pub find_and_dial : (P → Bool) → Base P K → P → Base P K
  unfolding contains_left insert_lookup
  find_and_dial cached b p =
      if cached p
      then record b { pending_events = push b.pending_events (Event.dial p) }
      else if contains_left p b.ongoing_lookups
      then b
      else let (query_id, kademlia) = k.get_closest_peers b.kademlia p in
        record b {
          kademlia = kademlia;
          ongoing_lookups = insert_lookup p query_id b.ongoing_lookups;
        }

  -- One turn of the loop over expired reconnects; at a position that the queue does not have, none is.
  unfoldable pub expire : Base P K → ℕ → Base P K
  unfolding take_at outbound_conn_exists
  expire b i = elim (take_at i b.reconnect_queue) [
    | none ↦ b
    | some (p, queue) ↦
        if not (outbound_conn_exists b p) && elem p b.registered_workers
        then record b { reconnect_queue = queue; pending_lookups = push b.pending_lookups p }
        else record b {
          reconnect_queue = queue;
          reconnect_scheduled = remove p b.reconnect_scheduled;
        }
  ]

  unfoldable pub expire_all : List ℕ → Base P K → Base P K
  unfolding expire
  expire_all [] b = b
  expire_all (i ∷ ready) b = expire_all ready (expire b i)

  -- The body of the loop that starts lookups, after the `pop_front`.
  unfoldable pub start_lookup : (P → Bool) → Base P K → P → Base P K
  unfolding find_and_dial outbound_conn_exists
  start_lookup cached b p =
      let b' : Base P K = record b { reconnect_scheduled = remove p b.reconnect_scheduled } in
      if outbound_conn_exists b' p then b' else find_and_dial cached b' p

  -- The loop that starts lookups, over the pending ones.
  unfoldable pub start_lookups : (P → Bool) → List P → Base P K → Base P K
  unfolding start_lookup
  start_lookups cached [] b = b
  start_lookups cached (p ∷ pending) b =
      let rest =
        start_lookups cached pending
          (start_lookup cached (record b { pending_lookups = pending }) p) in
      if ltb (length b.ongoing_lookups) b.max_concurrent_lookups then rest else b

  -- `poll`: the state, and the event that it is ready with.
  unfoldable pub poll : (P → Bool) → List ℕ → Base P K → Base P K × Option (Event P)
  unfolding expire_all start_lookups
  poll cached ready b =
      let b1 = expire_all ready b in
      let b2 = start_lookups cached b1.pending_lookups b1 in
      elim b2.pending_events [
        | [] ↦ (b2, none)
        | event ∷ events ↦ (record b2 { pending_events = events }, some event)
      ]

-- `on_kademlia_event` for a lookup's progress; `found` is whether the peer is among the peers returned.
-- The dial is raised only when the query is finished.
unfoldable pub on_closest_peers :
    {P K : Type 0} → Base P K → ℕ → Bool → Bool → Base P K × Option (Event P)
unfolding get_by_right remove_by_right
on_closest_peers b query_id found last = elim (get_by_right query_id b.ongoing_lookups) [
  | none ↦ (b, none)
  | some p ↦
      if last || found
      then (
        record b { ongoing_lookups = remove_by_right query_id b.ongoing_lookups },
        some (Event.dial_unless_dialing p),
      )
      else (b, none)
]

-- `try_emit_confidence`; `tenths` is the rounding of the share in `f32`, from the identified peers and
-- the size of the whitelist.
unfoldable pub try_emit_confidence :
    {P K : Type 0} → (ℕ → ℕ → ℕ) → ℕ → Base P K → Base P K × Option (Event P)
try_emit_confidence tenths whitelist_size b =
    let step = tenths (length b.identified_peers) whitelist_size in
    if not b.whitelist_initialized || whitelist_size == 0 || step == 0
    then (b, none)
    else if (elim b.last_sent_confidence_step [ none ↦ false | some last ↦ leb step last ])
    then (b, none)
    else (record b { last_sent_confidence_step = some step }, some (Event.network_connected step))

-- `on_identify_event` for `Received`, the addresses apart.
unfoldable pub on_identify_event :
    {P K : Type 0} ⦃e : Eq P⦄ → (ℕ → ℕ → ℕ) → ℕ → Base P K → P → Base P K × Option (Event P)
unfolding try_emit_confidence
on_identify_event tenths whitelist_size b p =
    try_emit_confidence tenths whitelist_size
      (record b { identified_peers = (insert p b.identified_peers).1 })
