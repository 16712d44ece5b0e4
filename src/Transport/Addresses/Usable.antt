-- ===== src/Transport/Addresses/Usable.antt =====
-- A peer that the address cache contains can be dialled.
use sqd_network.Base.{
  ◌≡◌, ◌≢◌, ◌⊎◌, refl, sym, ap, ◌∙◌, Bool, true, false, Option, none, some, List, [], ◌∷◌, Eq,
  arith, inl, inr, map, All, Bool-cases, Option-cases,
}
use sqd_network.Base.Sets.{extend, insert, elem}
use sqd_network.Transport.Addresses.{
  Protocol, Address, addr_is_reachable, DialError, Lru, SwarmEvent, filter_reachable, put, evict,
  contains, on_dial_failure, handle_pending_outbound_connection,
  handle_established_outbound_connection, on_swarm_event,
}

module _ {K : Type 0} ⦃e : Eq K⦄ where
  insert-nonempty : (k : K) (xs : List K) → (insert k xs).1 ≢ []
  unfolding insert elem
  insert-nonempty k [] h = cc
  insert-nonempty k (x ∷ xs) h = elim (Bool-cases (elem k (x ∷ xs))) [
    | inl old ↦ ground (arith, old, h)
    | inr new ↦ ground (arith, new, h)
  ]

  extend-nonempty : (xs ys : List K) → xs ≢ [] → extend xs ys ≢ []
  unfolding extend
  extend-nonempty xs [] n = n
  extend-nonempty xs (y ∷ ys) n = extend-nonempty (insert y xs).1 ys (insert-nonempty y xs)

  insert-All : (Q : K → Type 0) (k : K) (xs : List K) → Q k → All Q xs → All Q (insert k xs).1
  unfolding insert
  insert-All Q k xs q a = elim (Bool-cases (elem k xs)) [
    | inl old ↦ rw old a
    | inr new ↦ rw new (q, a)
  ]

  extend-All : (Q : K → Type 0) (xs ys : List K) → All Q xs → All Q ys → All Q (extend xs ys)
  unfolding extend
  extend-All Q xs [] a b = a
  extend-All Q xs (y ∷ ys) a b = extend-All Q (insert y xs).1 ys (insert-All Q y xs b.0 a) b.1

-- `with_p2p` adds at the end only.
abbrev pub KeepsFirst : {P : Type 0} → (P → Address → Address) → Type 0
KeepsFirst {P} with_p2p =
    (p : P) (x : Protocol) (a : Address) → (rest : Address) × (with_p2p p (x ∷ a) ≡ x ∷ rest)

IsReachable : Bool → Address → Type 0
IsReachable private_network a = addr_is_reachable private_network a ≡ true

first_decides :
    (private_network : Bool) (x : Protocol) (a b : Address)
    → addr_is_reachable private_network (x ∷ a) ≡ addr_is_reachable private_network (x ∷ b)
unfolding addr_is_reachable
first_decides n (Protocol.ip4 s t u v) a b = refl
first_decides n (Protocol.ip6 segments) a b = refl
first_decides n Protocol.dns a b = refl
first_decides n Protocol.dns4 a b = refl
first_decides n Protocol.dns6 a b = refl
first_decides n Protocol.dnsaddr a b = refl
first_decides n (Protocol.other k) a b = refl

module _ {P C : Type 0} ⦃e : Eq Address⦄ (l : Lru P (List Address) C)
    (with_p2p : P → Address → Address) (private_network : Bool) (keeps : KeepsFirst with_p2p) where
  with_p2p-IsReachable :
      (p : P) (a : Address)
      → IsReachable private_network a
      → IsReachable private_network (with_p2p p a)
  unfolding IsReachable
  with_p2p-IsReachable p [] h = absurd (unfold addr_is_reachable in cc)
  with_p2p-IsReachable p (x ∷ a) h =
      let (rest, same) = keeps p x a in
      ap (addr_is_reachable private_network) same ∙ first_decides private_network x rest a ∙ h

  filtered-IsReachable :
      (p : P) (addrs : List Address)
      → All
          (IsReachable private_network)
          (map (with_p2p p) (filter_reachable private_network addrs))
  unfolding filter_reachable
  filtered-IsReachable p [] = tt
  filtered-IsReachable p (a ∷ addrs) = elim (Bool-cases (addr_is_reachable private_network a)) [
    | inl near ↦ rw near (reach a near, filtered-IsReachable p addrs)
    | inr out ↦ rw out (filtered-IsReachable p addrs)
  ]
    where
      reach :
          (a : Address)
          → addr_is_reachable private_network a ≡ true
          → IsReachable private_network (with_p2p p a)
      reach a h = with_p2p-IsReachable p a (unfold IsReachable in h)

  -- Every entry has an address, and only reachable ones.
  abbrev pub Usable : C → Type 0
  Usable c =
      (p : P) (addrs : List Address)
      → l.lookup c p ≡ some addrs
      → (addrs ≢ []) × All (λ a. addr_is_reachable private_network a ≡ true) addrs

  -- Extending an entry, or a new one, by reachable addresses.
  extended-Usable :
      (c : C) (p : P) (a : Address) (more : List Address)
      → Usable c
      → All (IsReachable private_network) (a ∷ more)
      → Usable (l.update c p [] (λ known. extend known (a ∷ more)))
  unfolding IsReachable
  extended-Usable c p a more u r q addrs h =
      elim (l.lookup-update_other c p q [] (λ known. extend known (a ∷ more)) addrs h) [
        | inr old ↦ u q addrs old
        | inl same ↦
            let here =
              ap (l.lookup (l.update c p [] (λ known. extend known (a ∷ more)))) (sym same) ∙ h in
            elim (l.lookup-update c p [] (λ known. extend known (a ∷ more))) [
              | inl (fresh, was) ↦
                  let k : extend [] (a ∷ more) ≡ addrs = the (sym fresh ∙ here) in
                  rw (← k) (
                    entered,
                    extend-All (λ x. addr_is_reachable private_network x ≡ true) [] (a ∷ more) tt r,
                  )
              | inr (v, grown, was) ↦
                  let k : extend v (a ∷ more) ≡ addrs = the (sym grown ∙ here) in
                  let (some_v, all_v) = u p v was in
                  rw (← k) (
                    extend-nonempty v (a ∷ more) some_v,
                    extend-All (λ x. addr_is_reachable private_network x ≡ true) v (a ∷ more) all_v
                        r,
                  )
            ]
      ]
    where
      the : {x y : List Address} → ◌≡◌ {A = Option (List Address)} (some x) (some y) → x ≡ y
      the k = cc

      entered : extend [] (a ∷ more) ≢ []
      entered = unfold extend in extend-nonempty (insert a []).1 more (insert-nonempty a [])

  put-Usable :
      (c : C) (p : P) (addrs : List Address)
      → Usable c
      → Usable (put l with_p2p private_network c p addrs)
  unfolding put
  put-Usable c p addrs u =
      from (map (with_p2p p) (filter_reachable private_network addrs))
        (filtered-IsReachable p addrs)
    where
      from :
          (found : List Address)
          → All (IsReachable private_network) found
          → Usable (elim found [
            | [] ↦ c
            | a ∷ more ↦ l.update c p [] (λ known. extend known (a ∷ more))
          ])
      from [] r = u
      from (a ∷ more) r = extended-Usable c p a more u r

  evict-Usable : (c : C) (p : P) → Usable c → Usable (evict l with_p2p private_network c p)
  unfolding evict
  evict-Usable c p u q addrs h = u q addrs (l.lookup-pop_other c p q addrs h)

  failed-Usable :
      (c : C) (p : Option P) (error : DialError)
      → Usable c
      → Usable (on_dial_failure l with_p2p private_network c p error)
  unfolding on_dial_failure
  failed-Usable c none error u = u
  failed-Usable c (some p) DialError.wrong_peer_id u = evict-Usable c p u
  failed-Usable c (some p) DialError.transport u = evict-Usable c p u
  failed-Usable c (some p) DialError.no_addresses u = evict-Usable c p u
  failed-Usable c (some p) DialError.local_peer_id u = u
  failed-Usable c (some p) DialError.peer_condition_false u = u
  failed-Usable c (some p) DialError.aborted u = u
  failed-Usable c (some p) DialError.denied u = u

  -- The states of the cache.
  pub data Reachable : C → Type 0 where
    started : Reachable l.initial
    put_addrs :
        (c : C) (p : P) (addrs : List Address)
        → Reachable c
        → Reachable (put l with_p2p private_network c p addrs)
    established :
        (c : C) (p : P) (addr : Address)
        → Reachable c
        → Reachable (handle_established_outbound_connection l with_p2p private_network c p addr)
    told :
        (c : C) (event : SwarmEvent P)
        → Reachable c
        → Reachable (on_swarm_event l with_p2p private_network c event)
    dialling :
        (c : C) (p : Option P)
        → Reachable c
        → Reachable (handle_pending_outbound_connection l with_p2p private_network c p).0
    evicted : (c : C) (p : P) → Reachable c → Reachable (evict l with_p2p private_network c p)

  told-Usable :
      (c : C) (event : SwarmEvent P)
      → Usable c
      → Usable (on_swarm_event l with_p2p private_network c event)
  unfolding on_swarm_event
  told-Usable c (SwarmEvent.new_external_addr_of_peer p addr) u = put-Usable c p (addr ∷ []) u
  told-Usable c (SwarmEvent.dial_failure p error) u = failed-Usable c p error u
  told-Usable c SwarmEvent.another_event u = u

  dialling-Usable :
      (c : C) (p : Option P)
      → Usable c
      → Usable (handle_pending_outbound_connection l with_p2p private_network c p).0
  unfolding handle_pending_outbound_connection
  dialling-Usable c none u = λ q addrs h. u q addrs h
  dialling-Usable c (some p) u = λ q addrs h. u q addrs (sym (l.lookup-touch c p q) ∙ h)

  established-Usable :
      (c : C) (p : P) (addr : Address)
      → Usable c
      → Usable (handle_established_outbound_connection l with_p2p private_network c p addr)
  unfolding handle_established_outbound_connection
  established-Usable c p addr u = put-Usable c p (addr ∷ []) u

  reachable-Usable : (c : C) → Reachable c → Usable c
  reachable-Usable _ Reachable.started = λ p addrs h. absurd (cc (h, l.lookup-initial p))
  reachable-Usable _ (Reachable.put_addrs c p addrs r) = put-Usable c p addrs (reachable-Usable c r)
  reachable-Usable _ (Reachable.established c p addr r) =
      established-Usable c p addr (reachable-Usable c r)
  reachable-Usable _ (Reachable.told c event r) = told-Usable c event (reachable-Usable c r)
  reachable-Usable _ (Reachable.dialling c p r) = dialling-Usable c p (reachable-Usable c r)
  reachable-Usable _ (Reachable.evicted c p r) = evict-Usable c p (reachable-Usable c r)

  -- In every state of the cache, a peer that it contains is dialled at one address or more, all of them
  -- reachable, and a peer that it does not contain at none. The cache starts empty and changes by
  -- `put`, `evict`, established connections, dials and the swarm's events.
  pub contains_dials :
      (c : C) (p : P)
      → Reachable c
      → ((contains l with_p2p private_network c p ≡ true)
          × (a : Address) × (more : List Address) × ((handle_pending_outbound_connection l with_p2p
                private_network c
                (some p)).1
              ≡ a ∷ more)
          × All (λ x. addr_is_reachable private_network x ≡ true) (a ∷ more))
        ⊎ (contains l with_p2p private_network c p ≡ false)
          × ((handle_pending_outbound_connection l with_p2p private_network c (some p)).1 ≡ [])
  unfolding contains handle_pending_outbound_connection
  contains_dials c p r = elim (Option-cases (l.lookup c p)) [
    | inl out ↦ inr (rw out refl, rw out refl)
    | inr (addrs, h) ↦
        let (a, more, same, all) = dialled addrs (reachable-Usable c r p addrs h) in
        rw h (inl (refl, a, more, same, all))
  ]
    where
      dialled :
          (addrs : List Address)
          → (addrs ≢ []) × All (λ x. addr_is_reachable private_network x ≡ true) addrs
          → (a : Address) × (more : List Address) × (addrs ≡ a ∷ more)
            × All (λ x. addr_is_reachable private_network x ≡ true) (a ∷ more)
      dialled [] (n, all) = absurd (n refl)
      dialled (a ∷ more) (n, all) = (a, more, refl, all)
