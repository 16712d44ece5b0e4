-- ===== src/Assignments/Worker/Fleet/Lookup.antt =====
-- The workers that a builder took are found again by their peer ids.
use sqd_network.Base.{
  Bool, ℕ, ◌%◌, ◌≡◌, ◌≢◌, refl, sym, ap, ◌∙◌, Option, none, some, List, [], ◌++◌, length, get_elem?,
  get_elem?-below, get_elem?-bound, ok, arith,
}
use sqd_network.Base.Order.{Ord}
use sqd_network.Base.Text.{Text}
use sqd_network.Assignments.Entries.{
  AssignedWorker, Ascends, one_place, Looks, find_entry, find_entry-Looks, encode, PeerText,
  u16_mod,
}
use sqd_network.Assignments.Entries.Encoded.{get_worker-encode}
use sqd_network.Assignments.Worker.Fleet.{
  status_from_fb, WorkerEntry, WorkerAssignment, Sealer, Crypto, Fleet, finish, get_worker, status,
  peer_id,
}
use sqd_network.Assignments.Worker.Fleet.Adding.{
  Addition, id_of, status_of, add_all, sealer_at, HoldsHeaders, Placed, HaveRoom, add_all-AddsAll,
}

module _ {P R : Type 0} ⦃o : Ord P⦄ (y : Crypto R) (t : PeerText P) (checked : Bool) where
  -- What a reader finds of the workers that were added.
  pub record FindsAll (s : Sealer R) (additions : List (Addition P)) (a : WorkerAssignment)
      : Type 0 where
    pub finds :
        (i : ℕ) (x : Addition P)
        → get_elem? additions i ≡ some x
        → (w : AssignedWorker Text WorkerEntry) × (get_worker t a (id_of x) ≡ some (some w))
          × (w.index ≡ i % u16_mod)
          × (peer_id t w ≡ some (id_of x))
          × (status w ≡ status_of x)
          × HoldsHeaders y t checked
              (sealer_at y t checked s additions i)
              x
              w.reader.encrypted_headers
    pub only :
        (id : P)
        → ((i : ℕ) (x : Addition P) → get_elem? additions i ≡ some x → id_of x ≢ id)
        → get_worker t a id ≡ some none

  module _ (s : Sealer R) (additions : List (Addition P)) (entries : List (P × WorkerEntry))
      (last : Option P) (count : length entries ≡ length additions)
      (placed : Placed y t checked s additions entries) (ascends : Ascends entries last) where
    found :
        (i : ℕ) (x : Addition P) (e : WorkerEntry)
        → get_elem? entries i ≡ some (id_of x, e)
        → (r : Option (AssignedWorker P WorkerEntry)) → Looks entries (id_of x) r
        → (w : AssignedWorker P WorkerEntry) × (r ≡ some w)
          × (w.index ≡ i % u16_mod)
          × (w.worker_id ≡ id_of x)
          × (e ≡ w.reader)
    found i x e at none l = absurd (l i e at)
    found i x e at (some w) (j, there, id, index) =
        let place : j ≡ i = one_place entries last j i (id_of x) w.reader e ascends there at in
        (w, refl, index ∙ ap (λ n. n % u16_mod) place, id, reader place there)
      where
        second :
            ◌≡◌ {A = Option (P × WorkerEntry)} (some (id_of x, e)) (some (id_of x, w.reader))
            → e ≡ w.reader
        second q = cc

        reader : {j : ℕ} → j ≡ i → get_elem? entries j ≡ some (id_of x, w.reader) → e ≡ w.reader
        reader {j} q h = second (sym at ∙ ap (get_elem? entries) (sym q) ∙ h)

    missing :
        (id : P)
        → ((i : ℕ) (x : Addition P) → get_elem? additions i ≡ some x → id_of x ≢ id)
        → (r : Option (AssignedWorker P WorkerEntry)) → Looks entries id r
        → r ≡ none
    missing id absent none l = refl
    missing id absent (some w) (j, there, same, index) =
        let (x, at) =
          get_elem?-below additions j
            (omega (arith, count, get_elem?-bound entries j (id, w.reader) there)) in
        let (e, place, holds) = placed j x at in
        absurd (absent j x at (first x e (sym place ∙ there)))
      where
        first :
            (x : Addition P) (e : WorkerEntry)
            → ◌≡◌ {A = Option (P × WorkerEntry)} (some (id_of x, e)) (some (id, w.reader))
            → id_of x ≡ id
        first x e q = cc

    entries-FindsAll :
        (a : WorkerAssignment) → a.workers ≡ encode t entries → FindsAll s additions a
    unfolding get_worker status peer_id
    entries-FindsAll a same = record {
      finds = λ i x at.
          let (e, place, holds) = placed i x at in
          let (w, look, index, id, reader) =
            found i x e place (find_entry entries (id_of x))
              (find_entry-Looks entries last (id_of x) ascends) in
          (
            record { worker_id = t.to_bytes w.worker_id; reader = w.reader; index = w.index },
            rw same (get_worker-encode t entries last (id_of x) ascends ∙ rw look refl),
            index,
            t.from_bytes-to_bytes w.worker_id ∙ ap (λ p. some p) id,
            ap (λ (v : WorkerEntry). status_from_fb v.status) (sym reader) ∙ holds.status,
            rw (← reader) holds.headers,
          );
      only = λ id absent. rw same (
          get_worker-encode t entries last id ascends
          ∙ rw
              (missing id absent (find_entry entries id) (find_entry-Looks entries last id ascends))
              refl);
    }

  -- Where a builder without workers takes a list of them, with headers sealed now or before, and
  -- their peer ids have no more than the 38 bytes of a `WorkerId`, the assignment that it finishes
  -- has each under its peer id: `get_worker` does not panic and returns it with its place in that
  -- list, cast to `u16`, as its index, with that peer id, the status it was added with, and the
  -- headers given or those that `generate_encrypted_headers` made of it, with the builder's sealer
  -- as the earlier calls had left it. For a peer id that was not added, `get_worker` returns
  -- `none`.
  pub add_all-FindsAll :
      (additions : List (Addition P)) (b b' : Fleet P) (s s' : Sealer R)
      → HaveRoom y t checked additions
      → b.worker_entries ≡ []
      → b.last_peer_id ≡ none
      → add_all y t checked b s additions ≡ ok (b', s')
      → FindsAll s additions (finish b')
  unfolding finish
  add_all-FindsAll additions b b' s s' room start last h =
      let all = add_all-AddsAll y t checked additions b b' s s' room h in
      entries-FindsAll s additions all.added b'.last_peer_id all.count all.placed
        (all.ascends []
          (rw last record { ascend = λ i j p q u v lt x z. absurd (cc); up_to = refl }))
        (finish b') (all.entries ∙ ap (λ l. l ++ encode t all.added) start)
