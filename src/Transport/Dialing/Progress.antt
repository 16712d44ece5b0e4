-- ===== src/Transport/Dialing/Progress.antt =====
-- What a `poll` of the base behaviour achieves.
use sqd_network.Base.{
  ℕ, suc, ◌≡◌, ◌≤◌, ◌⊎◌, refl, ap, ◌∙◌, Bool, true, false, ◌||◌, Option, none, some, List, [], ◌∷◌,
  length, Eq, ltb, ltb-false, arith, inl, inr, Bool-cases, max,
}
use sqd_network.Transport.Dialing.{
  Kademlia, Event, Base, outbound_conn_exists, insert_lookup, find_and_dial, expire, expire_all,
  start_lookup, start_lookups, poll,
}
use sqd_network.Transport.Dialing.Waiting.{start_lookup-pending}
use sqd_network.Transport.Dialing.Polling.{
  is_dial, dials, accounted, Issued, expire-accounted, expire-Issued, start_lookup-Issued,
  start_lookup-accounted, length-drop_pairs,
}

module _ {P K : Type 0} ⦃e : Eq P⦄ (k : Kademlia P K) where
  expire_all-accounted :
      (ready : List ℕ) (b : Base P K) (p : P)
      → accounted b p ≡ true
      → accounted (expire_all k ready b) p ≡ true
  unfolding expire_all
  expire_all-accounted [] b p a = a
  expire_all-accounted (i ∷ ready) b p a =
      expire_all-accounted ready (expire k b i) p (expire-accounted k b i p a)

  expire_all-Issued : (ready : List ℕ) (b : Base P K) → Issued k b → Issued k (expire_all k ready b)
  unfolding expire_all
  expire_all-Issued [] b w = w
  expire_all-Issued (i ∷ ready) b w = expire_all-Issued ready (expire k b i) (expire-Issued k b i w)

  -- The lookups that go on, and the room for them.
  record Filled (b b' : Base P K) : Type 0 where
    done : (b'.pending_lookups ≡ []) ⊎ (b'.max_concurrent_lookups ≤ length b'.ongoing_lookups)
    most : length b'.ongoing_lookups ≤ max (length b.ongoing_lookups) b.max_concurrent_lookups
    same_max : b'.max_concurrent_lookups ≡ b.max_concurrent_lookups
    issued : Issued k b → Issued k b'
    keeps : Issued k b → (p : P) → accounted b p ≡ true → accounted b' p ≡ true

  length-start_lookup :
      (cached : P → Bool) (b : Base P K) (p : P)
      → (length (start_lookup k cached b p).ongoing_lookups ≤ suc (length b.ongoing_lookups))
        × ((start_lookup k cached b p).max_concurrent_lookups ≡ b.max_concurrent_lookups)
  unfolding start_lookup find_and_dial insert_lookup
  length-start_lookup cached b p =
      let id = (k.get_closest_peers b.kademlia p).0 in
      ground (arith, length-drop_pairs p id b.ongoing_lookups)

  start_lookups-Filled :
      (cached : P → Bool) (pending : List P) (b : Base P K)
      → b.pending_lookups ≡ pending
      → Filled b (start_lookups k cached pending b)
  unfolding start_lookups
  start_lookups-Filled cached [] b h = record {
    done = inl h;
    most = omega arith;
    same_max = refl;
    issued = λ w. w;
    keeps = λ w p a. a;
  }
  start_lookups-Filled cached (p ∷ pending) b h =
      let b0 : Base P K = record b { pending_lookups = pending } in
      let b' = start_lookup k cached b0 p in
      let rest =
        start_lookups-Filled cached pending b' (start_lookup-pending k cached b p pending) in
      let (grows, same) = length-start_lookup cached b0 p in
      elim (Bool-cases (ltb (length b.ongoing_lookups) b.max_concurrent_lookups)) [
        | inr full ↦ rw full (record {
          done = inr (ltb-false (length b.ongoing_lookups) b.max_concurrent_lookups full);
          most = omega arith;
          same_max = refl;
          issued = λ w. w;
          keeps = λ w q a. a;
        })
        | inl room ↦ rw room (record {
          done = rest.done;
          most = ground (arith, room, rest.most, grows, same);
          same_max = rest.same_max ∙ same;
          issued = λ w. rest.issued (start_lookup-Issued k cached b0 p w);
          keeps = λ w q a.
              rest.keeps (start_lookup-Issued k cached b0 p w) q
                (start_lookup-accounted k cached b p q pending h w a);
        })
      ]

  expire_all-lookups :
      (ready : List ℕ) (b : Base P K)
      → ((expire_all k ready b).ongoing_lookups ≡ b.ongoing_lookups)
        × ((expire_all k ready b).max_concurrent_lookups ≡ b.max_concurrent_lookups)
  unfolding expire_all expire
  expire_all-lookups [] b = (refl, refl)
  expire_all-lookups (i ∷ ready) b = ground (arith, expire_all-lookups ready (expire k b i))

  -- A peer is dialled by the event that `poll` is ready with.
  abbrev pub dialled_now : P → Option (Event P) → Bool
  dialled_now p none = false
  dialled_now p (some event) = is_dial p event

  pub record Polled (b b' : Base P K) (event : Option (Event P)) : Type 0 where
    pub done : (b'.pending_lookups ≡ []) ⊎ (b'.max_concurrent_lookups ≤ length b'.ongoing_lookups)
    pub most : length b'.ongoing_lookups ≤ max (length b.ongoing_lookups) b.max_concurrent_lookups
    pub keeps : (p : P) → accounted b p ≡ true → dialled_now p event || accounted b' p ≡ true
    pub issued : Issued k b'

  -- The end of `poll` takes the first event off.
  first_event-Polled :
      (b b2 : Base P K)
      → Filled b b2
      → Issued k b
      → Polled b
          (elim b2.pending_events as (λ _. Base P K × Option (Event P)) [
            | [] ↦ (b2, none)
            | event ∷ events ↦ (record b2 { pending_events = events }, some event)
          ]).0
          (elim b2.pending_events as (λ _. Base P K × Option (Event P)) [
            | [] ↦ (b2, none)
            | event ∷ events ↦ (record b2 { pending_events = events }, some event)
          ]).1
  first_event-Polled b b2 f w = from b2.pending_events refl
    where
      popped :
          (event : Event P) (events : List (Event P))
          → b2.pending_events ≡ event ∷ events
          → (p : P) → accounted b2 p ≡ true
          → is_dial p event || accounted (record b2 { pending_events = events }) p ≡ true
      popped event events h p a =
          unfold accounted dials outbound_conn_exists in ground (arith, ap (dials p) h, a)

      from :
          (l : List (Event P))
          → b2.pending_events ≡ l
          → Polled b
              (elim l as (λ _. Base P K × Option (Event P)) [
                | [] ↦ (b2, none)
                | event ∷ events ↦ (record b2 { pending_events = events }, some event)
              ]).0
              (elim l as (λ _. Base P K × Option (Event P)) [
                | [] ↦ (b2, none)
                | event ∷ events ↦ (record b2 { pending_events = events }, some event)
              ]).1
      from [] h = record {
        done = f.done;
        most = f.most;
        keeps = λ p a. f.keeps w p a;
        issued = f.issued w;
      }
      from (event ∷ events) h = record {
        done = f.done;
        most = f.most;
        keeps = λ p a. popped event events h p (f.keeps w p a);
        issued = f.issued w;
      }

  -- A `poll` starts lookups until none is pending or as many go on as may, and never more than
  -- that unless there were more before. It forgets no worker: a peer that waited for its reconnect
  -- or its lookup still does, or has a connection, or is no registered worker, or is being looked
  -- up, or is to be dialled, at once by the event that the `poll` is ready with or by a later one.
  -- The queries that go on have ids that Kademlia gave out, and this holds again afterwards.
  pub poll-Polled :
      (cached : P → Bool) (ready : List ℕ) (b : Base P K)
      → Issued k b
      → Polled b (poll k cached ready b).0 (poll k cached ready b).1
  unfolding poll
  poll-Polled cached ready b w =
      let b1 = expire_all k ready b in
      let (same, same_max) = expire_all-lookups ready b in
      let f = start_lookups-Filled cached b1.pending_lookups b1 refl in
      let w1 = expire_all-Issued ready b w in
      first_event-Polled b (start_lookups k cached b1.pending_lookups b1)
        (record {
          done = f.done;
          most = omega (arith, f.most, ap length same, same_max);
          same_max = f.same_max ∙ same_max;
          issued = λ _. f.issued w1;
          keeps = λ _ p a. f.keeps w1 p (expire_all-accounted ready b p a);
        })
        w
