-- ===== src/Transport/Dialing/Waiting.antt =====
-- A peer waits in at most one place, and the places are what `reconnect_scheduled` says.
use sqd_network.Base.{
  ℕ, zero, suc, ◌+◌, ◌≡◌, refl, ap, ◌∙◌, Bool, true, false, ◌&&◌, not, Option, none, some, List, [],
  ◌∷◌, length, Eq, if◌then◌else◌, ltb, arith, inl, inr, Bool-cases,
}
use sqd_network.Base.Sets.{
  elem, insert, remove, count, count-append, elem-insert, elem-remove, elem-congr,
}
use sqd_network.Assignments.Columns.{push}
use sqd_network.Transport.Addresses.{DialError}
use sqd_network.Transport.Whitelist.{NetworkNodes}
use sqd_network.Transport.Dialing.{
  Kademlia, Event, Base, take_at, drop_conn, outbound_conn_exists, on_connection_established,
  schedule_reconnect, on_connection_closed, unreachable, on_dial_failure, enqueue_workers,
  initialize, on_nodes_update, contains_left, find_and_dial, expire, expire_all, start_lookup,
  start_lookups, poll,
}

abbrev pub one_if : Bool → ℕ
one_if t = if t then 1 else 0

module _ {P : Type 0} ⦃e : Eq P⦄ where
  pub count-push : (p q : P) (xs : List P) → count p (push xs q) ≡ count p xs + one_if (e.beq p q)
  count-push p q xs = count-append p xs (q ∷ []) ∙ (unfold count in omega arith)

  insert-fresh : (p : P) (xs : List P) → (insert p xs).0 ≡ not (elem p xs)
  unfolding insert
  insert-fresh p xs = ground arith

  -- A peer that is newly scheduled, in one of the queues.
  scheduled_once :
      (p q : P) (xs ys zs : List P)
      → count q xs + count q ys ≡ one_if (elem q zs)
      → (insert p zs).0 ≡ true
      → (count q xs + one_if (e.beq q p)) + count q ys ≡ one_if (elem q (insert p zs).1)
  scheduled_once p q xs ys zs w new = elim (Bool-cases (e.beq q p)) [
    | inl same ↦
        ground (arith, w, new, same, insert-fresh p zs, elem-insert q p zs, elem-congr q p zs same)
    | inr other ↦ ground (arith, w, other, elem-insert q p zs)
  ]

  -- What a delay queue hands out leaves it.
  count-take_at :
      (q : P) (i : ℕ) (xs : List P) (y : P) (ys : List P)
      → take_at i xs ≡ some (y, ys)
      → count q xs ≡ one_if (e.beq q y) + count q ys
  unfolding take_at count
  count-take_at q i [] y ys h = absurd (cc)
  count-take_at q zero (x ∷ xs) y ys h =
      let a : x ≡ y = cc in let b : xs ≡ ys = cc in rw (a, b) refl
  count-take_at q (suc i) (x ∷ xs) y ys h = from (take_at i xs) refl (count-take_at q i xs)
    where
      from :
          (o : Option (P × List P))
          → take_at i xs ≡ o
          → ((y : P) (ys : List P)
              → take_at i xs ≡ some (y, ys)
              → count q xs ≡ one_if (e.beq q y) + count q ys)
          → one_if (e.beq q x) + count q xs ≡ one_if (e.beq q y) + count q ys
      from none t more = absurd (ground (arith, t))
      from (some (z, zs)) t more =
          let a : z ≡ y = ground (arith, t) in
          let b : x ∷ zs ≡ ys = ground (arith, t) in
          let m = more z zs t in rw (← a, ← b) (omega (arith, m))

  -- A peer that waits no more is no longer scheduled.
  unscheduled :
      (p q : P) (n : ℕ) (zs : List P)
      → one_if (e.beq q p) + n ≡ one_if (elem q zs)
      → n ≡ one_if (elem q (remove p zs))
  unscheduled p q n zs h = elim (Bool-cases (e.beq q p)) [
    | inl same ↦ ground (arith, same, elem-remove q p zs, h)
    | inr other ↦ ground (arith, other, elem-remove q p zs, h)
  ]

module _ {P K : Type 0} ⦃e : Eq P⦄ where
  -- A scheduled peer stands once in the two queues together, any other not at all.
  abbrev pub Waits : Base P K → Type 0
  Waits b =
      (p : P)
      → count p b.reconnect_queue + count p b.pending_lookups
        ≡ one_if (elem p b.reconnect_scheduled)

  pub schedule_reconnect-Waits : (b : Base P K) (p : P) → Waits b → Waits (schedule_reconnect b p)
  unfolding schedule_reconnect
  schedule_reconnect-Waits b p w q =
      elim (Bool-cases (
        (b.maintain_worker_connections
          && (elem p b.registered_workers && not (outbound_conn_exists b p)))
        && (insert p b.reconnect_scheduled).0)) [
          | inr stays ↦ rw (stays, schedule_reconnect) (w q)
          | inl goes ↦
              let new : (insert p b.reconnect_scheduled).0 ≡ true = ground arith in
              rw (goes, schedule_reconnect)
                (ap (λ n. n + count q b.pending_lookups) (count-push q p b.reconnect_queue)
                  ∙ scheduled_once p q b.reconnect_queue b.pending_lookups b.reconnect_scheduled
                      (w q) new)
        ]

  pub closed-Waits :
      (b : Base P K) (dialer : Bool) (p : P) → Waits b → Waits (on_connection_closed b dialer p)
  unfolding on_connection_closed
  closed-Waits b false p w = w
  closed-Waits b true p w =
      schedule_reconnect-Waits (record b { outbound_conns = drop_conn b.outbound_conns p }) p w

  pub established-Waits :
      (b : Base P K) (dialer : Bool) (p : P)
      → Waits b
      → Waits (on_connection_established b dialer p)
  unfolding on_connection_established
  established-Waits b false p w = w
  established-Waits b true p w = w

  pub failed-Waits :
      (b : Base P K) (p : Option P) (error : DialError)
      → Waits b
      → Waits (on_dial_failure b p error)
  unfolding on_dial_failure
  failed-Waits b none error w = w
  failed-Waits b (some p) error w = elim (Bool-cases (unreachable error)) [
    | inl retry ↦ rw retry (schedule_reconnect-Waits b p w)
    | inr leave ↦ rw leave w
  ]

  enqueue_workers-Waits :
      (workers : List P) (b : Base P K) → Waits b → Waits (enqueue_workers workers b)
  unfolding enqueue_workers
  enqueue_workers-Waits [] b w = w
  enqueue_workers-Waits (p ∷ workers) b w =
      enqueue_workers-Waits workers _ (enqueued (not (outbound_conn_exists b p)))
    where
      enqueued :
          (out : Bool)
          → Waits (
              if out && (insert p b.reconnect_scheduled).0
              then record b {
                reconnect_scheduled = (insert p b.reconnect_scheduled).1;
                pending_lookups = push b.pending_lookups p;
              }
              else b)
      enqueued out q = elim (Bool-cases (out && (insert p b.reconnect_scheduled).0)) [
        | inr stays ↦ rw stays (w q)
        | inl goes ↦
            let new : (insert p b.reconnect_scheduled).0 ≡ true = ground arith in
            rw goes (
              omega (
                arith,
                count-push q p b.pending_lookups,
                scheduled_once p q b.reconnect_queue b.pending_lookups b.reconnect_scheduled (w q)
                    new,
              ))
      ]

module _ {P K : Type 0} ⦃e : Eq P⦄ (k : Kademlia P K) where
  find_and_dial-Waits :
      (cached : P → Bool) (b : Base P K) (p : P) → Waits b → Waits (find_and_dial k cached b p)
  unfolding find_and_dial
  find_and_dial-Waits cached b p w = elim (Bool-cases (cached p)) [
    | inl c ↦ rw c w
    | inr c ↦ elim (Bool-cases (contains_left p b.ongoing_lookups)) [
      | inl d ↦ rw (c, d) w
      | inr d ↦ rw (c, d) w
    ]
  ]

  pub nodes-Waits :
      (b : Base P K) (nodes : NetworkNodes P) → Waits b → Waits (on_nodes_update k b nodes)
  unfolding on_nodes_update
  nodes-Waits b nodes w =
      let b' = initialize k (record b { registered_workers = nodes.workers }) in
      elim (Bool-cases b'.maintain_worker_connections) [
        | inl keep ↦ rw keep (enqueue_workers-Waits b'.registered_workers b' begun)
        | inr leave ↦ rw leave begun
      ]
    where
      begun : Waits (initialize k (record b { registered_workers = nodes.workers }))
      begun =
          unfold initialize in
          elim (Bool-cases b.whitelist_initialized) [ inl t ↦ rw t w | inr f ↦ rw f w ]

  expire-Waits : (b : Base P K) (i : ℕ) → Waits b → Waits (expire k b i)
  unfolding expire
  expire-Waits b i w = from (take_at i b.reconnect_queue) refl
    where
      from : (o : Option (P × List P)) → take_at i b.reconnect_queue ≡ o → Waits (expire k b i)
      from none t = λ q. rw (t, expire) (w q)
      from (some (p, queue)) t = λ q.
          let c = count-take_at q i b.reconnect_queue p queue t in
          elim (Bool-cases (not (outbound_conn_exists b p) && elem p b.registered_workers)) [
            | inl needed ↦
                rw (t, expire, needed) (omega (arith, w q, c, count-push q p b.pending_lookups))
            | inr not_needed ↦
                rw (t, expire, not_needed)
                  (unscheduled p q (count q queue + count q b.pending_lookups) b.reconnect_scheduled
                    (omega (arith, w q, c)))
          ]

  expire_all-Waits : (ready : List ℕ) (b : Base P K) → Waits b → Waits (expire_all k ready b)
  unfolding expire_all
  expire_all-Waits [] b w = w
  expire_all-Waits (i ∷ ready) b w = expire_all-Waits ready (expire k b i) (expire-Waits b i w)

  start_lookup-Waits :
      (cached : P → Bool) (b : Base P K) (p : P) (pending : List P)
      → b.pending_lookups ≡ p ∷ pending
      → Waits b
      → Waits (start_lookup k cached (record b { pending_lookups = pending }) p)
  unfolding start_lookup count
  start_lookup-Waits cached b p pending h w =
      let b' : Base P K = record b {
        pending_lookups = pending;
        reconnect_scheduled = remove p b.reconnect_scheduled;
      } in
      let w' : Waits b' = λ q.
        unscheduled p q (count q b.reconnect_queue + count q pending) b.reconnect_scheduled
          (omega (arith, w q, ap (count q) h)) in
      elim (Bool-cases (outbound_conn_exists b' p)) [
        | inl there ↦ rw there w'
        | inr gone ↦ rw gone (find_and_dial-Waits cached b' p w')
      ]

  pub start_lookup-pending :
      (cached : P → Bool) (b : Base P K) (p : P) (pending : List P)
      → (start_lookup k cached (record b { pending_lookups = pending }) p).pending_lookups ≡ pending
  unfolding start_lookup find_and_dial
  start_lookup-pending cached b p pending = ground arith

  start_lookups-Waits :
      (cached : P → Bool) (pending : List P) (b : Base P K)
      → b.pending_lookups ≡ pending
      → Waits b
      → Waits (start_lookups k cached pending b)
  unfolding start_lookups
  start_lookups-Waits cached [] b h w = w
  start_lookups-Waits cached (p ∷ pending) b h w =
      let b' = start_lookup k cached (record b { pending_lookups = pending }) p in
      elim (Bool-cases (ltb (length b.ongoing_lookups) b.max_concurrent_lookups)) [
        | inl room ↦ rw room (
            start_lookups-Waits cached pending b' (start_lookup-pending cached b p pending)
              (start_lookup-Waits cached b p pending h w))
        | inr full ↦ rw full w
      ]

  pub poll-Waits :
      (cached : P → Bool) (ready : List ℕ) (b : Base P K)
      → Waits b
      → Waits (poll k cached ready b).0
  unfolding poll
  poll-Waits cached ready b w =
      let b1 = expire_all k ready b in
      first (start_lookups k cached b1.pending_lookups b1)
        (start_lookups-Waits cached b1.pending_lookups b1 refl (expire_all-Waits ready b w))
    where
      first :
          (b2 : Base P K)
          → Waits b2
          → Waits
              (elim b2.pending_events as (λ _. Base P K × Option (Event P)) [
                | [] ↦ (b2, none)
                | event ∷ events ↦ (record b2 { pending_events = events }, some event)
              ]).0
      first b2 w = from b2.pending_events
        where
          from :
              (l : List (Event P))
              → Waits
                  (elim l as (λ _. Base P K × Option (Event P)) [
                    | [] ↦ (b2, none)
                    | event ∷ events ↦ (record b2 { pending_events = events }, some event)
                  ]).0
          from [] = w
          from (event ∷ events) = w
