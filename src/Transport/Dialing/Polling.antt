-- ===== src/Transport/Dialing/Polling.antt =====
-- `poll`: lookups start as long as there is room for them, and no worker that waits is forgotten.
use sqd_network.Base.{
  ℕ, zero, suc, ◌≡◌, ◌≤◌, refl, sym, ap, Bool, true, false, ◌&&◌, ◌||◌, not, Option, none, some,
  List, [], ◌∷◌, length, Eq, ◌==◌, arith, inl, inr, Bool-cases,
}
use sqd_network.Base.Sets.{elem, remove}
use sqd_network.Assignments.Columns.{push}
use sqd_network.Transport.Dialing.{
  Kademlia, Event, Base, take_at, conns_of, above_zero, outbound_conn_exists, contains_left,
  drop_pairs, insert_lookup, find_and_dial, expire, start_lookup,
}

module _ {P : Type 0} ⦃e : Eq P⦄ where
  -- A dial of the peer among the events.
  unfoldable pub is_dial : P → Event P → Bool
  is_dial p (Event.dial q) = e.beq p q
  is_dial p (Event.dial_unless_dialing q) = e.beq p q
  is_dial p (Event.network_connected _) = false

  unfoldable pub dials : P → List (Event P) → Bool
  unfolding is_dial
  dials p [] = false
  dials p (event ∷ events) = is_dial p event || dials p events

  dials-push :
      (p : P) (events : List (Event P)) (event : Event P)
      → dials p (push events event) ≡ dials p events || is_dial p event
  unfolding dials
  dials-push p [] event = ground arith
  dials-push p (x ∷ events) event = ground (arith, dials-push p events event)

  elem-push : (p q : P) (xs : List P) → elem p (push xs q) ≡ elem p xs || e.beq p q
  unfolding elem
  elem-push p q [] = ground arith
  elem-push p q (x ∷ xs) = ground (arith, elem-push p q xs)

  elem-take_at :
      (p : P) (i : ℕ) (xs : List P) (y : P) (ys : List P)
      → take_at i xs ≡ some (y, ys)
      → elem p xs ≡ e.beq p y || elem p ys
  unfolding take_at elem
  elem-take_at p i [] y ys h = absurd (cc)
  elem-take_at p zero (x ∷ xs) y ys h = let a : x ≡ y = cc in let b : xs ≡ ys = cc in rw (a, b) refl
  elem-take_at p (suc i) (x ∷ xs) y ys h = from (take_at i xs) refl (elem-take_at p i xs)
    where
      from :
          (o : Option (P × List P))
          → take_at i xs ≡ o
          → ((y : P) (ys : List P)
              → take_at i xs ≡ some (y, ys)
              → elem p xs ≡ e.beq p y || elem p ys)
          → e.beq p x || elem p xs ≡ e.beq p y || elem p ys
      from none t more = absurd (ground (arith, t))
      from (some (z, zs)) t more =
          let a : z ≡ y = ground (arith, t) in
          let b : x ∷ zs ≡ ys = ground (arith, t) in
          let m = more z zs t in rw (← a, ← b) (ground (arith, m))

-- The id of a lookup that is going on.
unfoldable pub has_right : {P : Type 0} → ℕ → List (P × ℕ) → Bool
has_right id [] = false
has_right id ((q, n) ∷ lookups) = id == n || has_right id lookups

module _ {P : Type 0} ⦃e : Eq P⦄ where
  -- A lookup of a new peer with a new id drops no pair.
  drop_pairs-fresh :
      (p : P) (id : ℕ) (lookups : List (P × ℕ))
      → contains_left p lookups ≡ false
      → has_right id lookups ≡ false
      → drop_pairs p id lookups ≡ lookups
  unfolding drop_pairs contains_left has_right
  drop_pairs-fresh p id [] h g = refl
  drop_pairs-fresh p id ((q, n) ∷ lookups) h g = ground (arith, drop_pairs-fresh p id lookups)

  has_right-drop_pairs :
      (n : ℕ) (p : P) (id : ℕ) (lookups : List (P × ℕ))
      → has_right n (drop_pairs p id lookups) ≡ true
      → has_right n lookups ≡ true
  unfolding drop_pairs has_right
  has_right-drop_pairs n p id [] h = h
  has_right-drop_pairs n p id ((q, m) ∷ lookups) h =
      ground (arith, has_right-drop_pairs n p id lookups)

  pub length-drop_pairs :
      (p : P) (id : ℕ) (lookups : List (P × ℕ)) → length (drop_pairs p id lookups) ≤ length lookups
  unfolding drop_pairs
  length-drop_pairs p id [] = omega arith
  length-drop_pairs p id ((q, n) ∷ lookups) = ground (arith, length-drop_pairs p id lookups)

module _ {P K : Type 0} ⦃e : Eq P⦄ where
  -- A peer is waiting, connected, no registered worker, being looked up, or about to be dialled.
  unfoldable pub accounted : Base P K → P → Bool
  unfolding dials
  accounted b p =
      elem p b.reconnect_queue
      || (elem p b.pending_lookups
          || (outbound_conn_exists b p
              || (not (elem p b.registered_workers)
                  || (contains_left p b.ongoing_lookups || dials p b.pending_events))))

module _ {P K : Type 0} ⦃e : Eq P⦄ (k : Kademlia P K) where
  -- Every lookup that is going on has an id that Kademlia gave out.
  abbrev pub Issued : Base P K → Type 0
  Issued b = (n : ℕ) → has_right n b.ongoing_lookups ≡ true → k.issued b.kademlia n ≡ true

  pub expire-accounted :
      (b : Base P K) (i : ℕ) (p : P) → accounted b p ≡ true → accounted (expire k b i) p ≡ true
  unfolding accounted expire outbound_conn_exists
  expire-accounted b i p a = from (take_at i b.reconnect_queue) refl
    where
      from :
          (o : Option (P × List P))
          → take_at i b.reconnect_queue ≡ o
          → accounted (expire k b i) p ≡ true
      from none t = rw (t, expire) a
      from (some (q, queue)) t =
          let c = elem-take_at p i b.reconnect_queue q queue t in
          elim (Bool-cases (not (outbound_conn_exists b q) && elem q b.registered_workers)) [
            | inl needed ↦
                rw (t, expire, needed) (ground (arith, a, c, elem-push p q b.pending_lookups))
            | inr idle ↦ elim (Bool-cases (e.beq p q)) [
              | inr other ↦ rw (t, expire, idle) (ground (arith, a, c, other))
              | inl same ↦
                  let h : q ≡ p = sym ((e.beq_iff p q).0 same) in
                  let idle' : not (outbound_conn_exists b p) && elem p b.registered_workers
                      ≡ false =
                    rw (← h) idle in
                  rw (t, expire, idle) (ground (arith, idle'))
            ]
          ]

  pub expire-Issued : (b : Base P K) (i : ℕ) → Issued b → Issued (expire k b i)
  unfolding expire
  expire-Issued b i w = λ n. ground (arith, w n)

  find_and_dial-Issued :
      (cached : P → Bool) (b : Base P K) (p : P) → Issued b → Issued (find_and_dial k cached b p)
  unfolding find_and_dial insert_lookup has_right
  find_and_dial-Issued cached b p w = elim (Bool-cases (cached p)) [
    | inl c ↦ rw c w
    | inr c ↦ elim (Bool-cases (contains_left p b.ongoing_lookups)) [
      | inl d ↦ rw (c, d) w
      | inr d ↦
          let (id, kademlia) = k.get_closest_peers b.kademlia p in
          rw (c, d)
            (λ n h. elim (Bool-cases (n == id)) [
              | inl same ↦ let j : n ≡ id = ground arith in rw j (k.issues b.kademlia p)
              | inr other ↦
                  k.keeps b.kademlia p n
                    (w n (has_right-drop_pairs n p id b.ongoing_lookups (ground (arith, h, other))))
            ])
    ]
  ]

  pub start_lookup-Issued :
      (cached : P → Bool) (b : Base P K) (p : P) → Issued b → Issued (start_lookup k cached b p)
  unfolding start_lookup
  start_lookup-Issued cached b p w =
      let b' : Base P K = record b { reconnect_scheduled = remove p b.reconnect_scheduled } in
      elim (Bool-cases (outbound_conn_exists b' p)) [
        | inl there ↦ rw there w
        | inr gone ↦ rw gone (find_and_dial-Issued cached b' p w)
      ]

  -- Dialling or looking up a peer accounts for it, and for every peer that was accounted for.
  find_and_dial-accounted :
      (cached : P → Bool) (b : Base P K) (p q : P)
      → Issued b
      → accounted b q || e.beq q p ≡ true
      → accounted (find_and_dial k cached b p) q ≡ true
  unfolding find_and_dial accounted insert_lookup contains_left outbound_conn_exists
  find_and_dial-accounted cached b p q w a = elim (Bool-cases (cached p)) [
    | inl c ↦ rw c (ground (arith, a, dials-push q b.pending_events (Event.dial p), dial_self q p))
    | inr c ↦ elim (Bool-cases (contains_left p b.ongoing_lookups)) [
      | inl d ↦ elim (Bool-cases (e.beq q p)) [
        | inl same ↦
            let d' : contains_left q b.ongoing_lookups ≡ true = rw ((e.beq_iff q p).0 same) d in
            rw (c, d) (ground (arith, d'))
        | inr other ↦ rw (c, d) (ground (arith, a, other))
      ]
      | inr d ↦
          let id = (k.get_closest_peers b.kademlia p).0 in
          let stays =
            drop_pairs-fresh p id b.ongoing_lookups d (fresh_right id b w (k.fresh b.kademlia p)) in
          rw (c, d, stays) (ground (arith, a))
    ]
  ]
    where
      dial_self : (q p : P) → is_dial q (Event.dial p) ≡ e.beq q p
      dial_self q p = unfold is_dial in refl

      fresh_right :
          (id : ℕ) (b : Base P K)
          → Issued b
          → k.issued b.kademlia id ≡ false
          → has_right id b.ongoing_lookups ≡ false
      fresh_right id b w new = elim (Bool-cases (has_right id b.ongoing_lookups)) [
        | inr f ↦ f
        | inl t ↦ absurd (cc (w id t, new))
      ]

  pub start_lookup-accounted :
      (cached : P → Bool) (b : Base P K) (p q : P) (pending : List P)
      → b.pending_lookups ≡ p ∷ pending
      → Issued b
      → accounted b q ≡ true
      → accounted (start_lookup k cached (record b { pending_lookups = pending }) p) q ≡ true
  unfolding start_lookup
  start_lookup-accounted cached b p q pending h w a =
      let b' : Base P K = record b {
        pending_lookups = pending;
        reconnect_scheduled = remove p b.reconnect_scheduled;
      } in
      elim (Bool-cases (outbound_conn_exists b' p)) [
        | inl there ↦ rw there (connected b p q pending h there a)
        | inr gone ↦ rw gone (find_and_dial-accounted cached b' p q w (popped b p q pending h a))
      ]
    where
      popped :
          (b : Base P K) (p q : P) (pending : List P)
          → b.pending_lookups ≡ p ∷ pending
          → accounted b q ≡ true
          → accounted
                (record b {
                  pending_lookups = pending;
                  reconnect_scheduled = remove p b.reconnect_scheduled;
                })
                q
              || e.beq q p
            ≡ true
      popped b p q pending h a =
          unfold accounted elem outbound_conn_exists in ground (arith, ap (elem q) h, a)

      connected :
          (b : Base P K) (p q : P) (pending : List P)
          → b.pending_lookups ≡ p ∷ pending
          → above_zero (conns_of b.outbound_conns p) ≡ true
          → accounted b q ≡ true
          → accounted
              (record b {
                pending_lookups = pending;
                reconnect_scheduled = remove p b.reconnect_scheduled;
              })
              q
            ≡ true
      connected b p q pending h there a = elim (Bool-cases (e.beq q p)) [
        | inr other ↦
            unfold accounted elem outbound_conn_exists in ground (arith, ap (elem q) h, a, other)
        | inl same ↦
            let t : above_zero (conns_of b.outbound_conns q) ≡ true =
              rw ((e.beq_iff q p).0 same) there in
            unfold accounted outbound_conn_exists in ground (arith, t)
      ]
