-- ===== src/Transport/Dialing/Connections.antt =====
-- `outbound_conns` counts the open outbound connections of each peer.
use sqd_network.Base.{
  ℕ, ◌+◌, ◌≡◌, ◌≤◌, ◌<◌, refl, ◌∙◌, Bool, true, false, ◌&&◌, not, Option, none, some, List, [], ◌∷◌,
  ◌++◌, length, Eq, if◌then◌else◌, u32_mod, arith, inl, inr, Bool-cases,
}
use sqd_network.Base.Sets.{insert, count, beq_sym, beq_trans}
use sqd_network.Transport.Addresses.{DialError}
use sqd_network.Transport.Whitelist.{NetworkNodes}
use sqd_network.Transport.Dialing.{
  Kademlia, Base, add_conn, drop_conn, conns_of, outbound_conn_exists, schedule_reconnect,
  on_dial_failure, enqueue_workers, initialize, on_nodes_update, find_and_dial, expire, expire_all,
  start_lookup, start_lookups, poll,
}
use sqd_network.Transport.Dialing.Waiting.{one_if}

abbrev pub number : Option ℕ → ℕ
number none = 0
number (some n) = n

module _ {P : Type 0} ⦃e : Eq P⦄ where
  -- A connection of the peer, closed.
  unfoldable pub remove_one : P → List P → List P
  remove_one p [] = []
  remove_one p (q ∷ conns) = let rest = remove_one p conns in if e.beq p q then conns else q ∷ rest

  pub count-remove_one :
      (p q : P) (conns : List P)
      → 0 < count p conns
      → count q (remove_one p conns) + one_if (e.beq q p) ≡ count q conns
  unfolding remove_one count
  count-remove_one p q [] h = absurd (omega arith)
  count-remove_one p q (x ∷ conns) h = elim (Bool-cases (e.beq p x)) [
    | inl same ↦ ground (arith, same, beq_trans p x same q, beq_sym p q, beq_sym x q)
    | inr other ↦ ground (arith, other, count-remove_one p q conns)
  ]

  pub count-le-length : (p : P) (conns : List P) → count p conns ≤ length conns
  unfolding count
  count-le-length p [] = omega arith
  count-le-length p (x ∷ conns) = ground (arith, count-le-length p conns)

  -- The map has the number of open connections of every peer.
  abbrev pub Counts : List (P × ℕ) → List P → Type 0
  Counts m conns = (p : P) → number (conns_of m p) ≡ count p conns

  add_conn-number :
      (m : List (P × ℕ)) (q p : P)
      → number (conns_of m q) + 1 < u32_mod
      → number (conns_of (add_conn m q) p) ≡ number (conns_of m p) + one_if (e.beq p q)
  unfolding add_conn conns_of
  add_conn-number [] q p h = ground arith
  add_conn-number ((r, n) ∷ m) q p h = elim (Bool-cases (e.beq q r)) [
    | inl same ↦
        let s = beq_sym p r in
        let t = beq_trans q r same p in let u = beq_sym q p in ground (arith, same, s, t, u)
    | inr other ↦ elim (Bool-cases (e.beq p r)) [
      | inr far ↦ ground (arith, other, far, add_conn-number m q p)
      | inl near ↦
          let t = beq_trans p r near q in let s = beq_sym r q in ground (arith, other, near, t, s)
    ]
  ]

  drop_conn-number :
      (m : List (P × ℕ)) (q p : P)
      → 0 < number (conns_of m q)
      → number (conns_of m q) < u32_mod
      → number (conns_of (drop_conn m q) p) + one_if (e.beq p q) ≡ number (conns_of m p)
  unfolding drop_conn conns_of
  drop_conn-number [] q p h l = absurd (omega arith)
  drop_conn-number ((r, n) ∷ m) q p h l = elim (Bool-cases (e.beq q r)) [
    | inl same ↦
        let s = beq_sym p r in
        let t = beq_trans q r same p in let u = beq_sym q p in ground (arith, same, s, t, u)
    | inr other ↦ elim (Bool-cases (e.beq p r)) [
      | inr far ↦ ground (arith, other, far, drop_conn-number m q p)
      | inl near ↦
          let t = beq_trans p r near q in let s = beq_sym r q in ground (arith, other, near, t, s)
    ]
  ]

  pub opened-Counts :
      (m : List (P × ℕ)) (conns : List P) (q : P)
      → length conns + 1 < u32_mod
      → Counts m conns
      → Counts (add_conn m q) (q ∷ conns)
  unfolding count
  opened-Counts m conns q h c p =
      let at = add_conn-number m q p (omega (arith, c q, count-le-length q conns)) in
      omega (arith, at, c p)

  pub closed-Counts :
      (m : List (P × ℕ)) (conns : List P) (q : P)
      → 0 < count q conns
      → length conns < u32_mod
      → Counts m conns
      → Counts (drop_conn m q) (remove_one q conns)
  closed-Counts m conns q h l c p =
      let at =
        drop_conn-number m q p (omega (arith, c q)) (omega (arith, c q, count-le-length q conns)) in
      omega (arith, at, c p, count-remove_one q p conns h)

module _ {P K : Type 0} ⦃e : Eq P⦄ where
  -- The other operations leave the map alone.
  pub schedule_reconnect-conns :
      (b : Base P K) (p : P) → (schedule_reconnect b p).outbound_conns ≡ b.outbound_conns
  unfolding schedule_reconnect
  schedule_reconnect-conns b p = ground arith

  pub failed-conns :
      (b : Base P K) (p : Option P) (error : DialError)
      → (on_dial_failure b p error).outbound_conns ≡ b.outbound_conns
  unfolding on_dial_failure
  failed-conns b none error = refl
  failed-conns b (some p) error = ground (arith, schedule_reconnect-conns b p)

  enqueue_workers-conns :
      (workers : List P) (b : Base P K)
      → (enqueue_workers workers b).outbound_conns ≡ b.outbound_conns
  unfolding enqueue_workers
  enqueue_workers-conns [] b = refl
  enqueue_workers-conns (p ∷ workers) b =
      let t = not (outbound_conn_exists b p) && (insert p b.reconnect_scheduled).0 in
      let b' : Base P K = record b {
        reconnect_scheduled = (insert p b.reconnect_scheduled).1;
        pending_lookups = b.pending_lookups ++ p ∷ [];
      } in
      enqueue_workers-conns workers (if t then b' else b) ∙ same t b' refl
    where
      same :
          (t : Bool) (b' : Base P K)
          → b'.outbound_conns ≡ b.outbound_conns
          → (if t then b' else b).outbound_conns ≡ b.outbound_conns
      same true b' h = h
      same false b' h = refl

module _ {P K : Type 0} ⦃e : Eq P⦄ (k : Kademlia P K) where
  pub nodes-conns :
      (b : Base P K) (nodes : NetworkNodes P)
      → (on_nodes_update k b nodes).outbound_conns ≡ b.outbound_conns
  unfolding on_nodes_update initialize
  nodes-conns b nodes =
      let b' = initialize k (record b { registered_workers = nodes.workers }) in
      ground (arith, enqueue_workers-conns b'.registered_workers b')

  find_and_dial-conns :
      (cached : P → Bool) (b : Base P K) (p : P)
      → (find_and_dial k cached b p).outbound_conns ≡ b.outbound_conns
  unfolding find_and_dial
  find_and_dial-conns cached b p = ground arith

  expire-conns : (b : Base P K) (i : ℕ) → (expire k b i).outbound_conns ≡ b.outbound_conns
  unfolding expire
  expire-conns b i = ground arith

  expire_all-conns :
      (ready : List ℕ) (b : Base P K) → (expire_all k ready b).outbound_conns ≡ b.outbound_conns
  unfolding expire_all
  expire_all-conns [] b = refl
  expire_all-conns (i ∷ ready) b = expire_all-conns ready (expire k b i) ∙ expire-conns b i

  start_lookup-conns :
      (cached : P → Bool) (b : Base P K) (p : P)
      → (start_lookup k cached b p).outbound_conns ≡ b.outbound_conns
  unfolding start_lookup find_and_dial
  start_lookup-conns cached b p = ground arith

  start_lookups-conns :
      (cached : P → Bool) (pending : List P) (b : Base P K)
      → (start_lookups k cached pending b).outbound_conns ≡ b.outbound_conns
  unfolding start_lookups
  start_lookups-conns cached [] b = refl
  start_lookups-conns cached (p ∷ pending) b =
      let b' : Base P K = record b { pending_lookups = pending } in
      let rest = start_lookups-conns cached pending (start_lookup k cached b' p) in
      ground (arith, rest, start_lookup-conns cached b' p)

  pub poll-conns :
      (cached : P → Bool) (ready : List ℕ) (b : Base P K)
      → (poll k cached ready b).0.outbound_conns ≡ b.outbound_conns
  unfolding poll
  poll-conns cached ready b =
      let b1 = expire_all k ready b in
      ground (arith, start_lookups-conns cached b1.pending_lookups b1, expire_all-conns ready b)
