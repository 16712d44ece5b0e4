-- ===== src/Assignments/Portal/Workers.antt =====
-- `PortalAssignmentBuilder::add_worker` keeps its entries in the order that lookups rely on.
use sqd_network.Base.{
  ◌<◌, ◌≡◌, ◌⊎◌, ◌≢◌, refl, sym, panic, Option-cases, Bool, Bool-cases, Option, none, some,
  Ordering, ok, arith, inl, inr, List, length,
}
use sqd_network.Base.Order.{Ord, before}
use sqd_network.Base.Text.{Text}
use sqd_network.Assignments.Columns.{push}
use sqd_network.Assignments.Entries.{
  Ascends, push-Ascends, PeerText, HasRoom, encode, worker_id_from, worker_id_from-some,
  worker_id_from-none, worker_id_size,
}
use sqd_network.Assignments.Entries.Encoded.{encode-push}
use sqd_network.Assignments.Portal.{Builder, add_worker}

-- The new id is above the last one added.
abbrev pub IsAbove : {P : Type 0} ⦃o : Ord P⦄ → Option P → P → Type 0
IsAbove {P} ⦃o⦄ last id = (l : P) → last ≡ some l → o.cmp l id ≡ Ordering.lt

module _ {P S : Type 0} ⦃o : Ord P⦄ (t : PeerText P) where
  -- The entries are under the bytes of peer ids that ascend.
  abbrev pub WorkersAscend : Builder P S → Type 0
  WorkersAscend b =
      (parsed : List (P × S)) × (b.worker_entries ≡ encode t parsed) × Ascends parsed b.last_peer_id

  module _ (checked : Bool) (b : Builder P S) (id : P) (status : S) where
    abbrev Added : Type 0
    Added =
        (b' : Builder P S) × (add_worker t checked b id status ≡ ok b')
        × WorkersAscend b'
        × (b'.worker_entries ≡ push b.worker_entries (t.to_bytes id, status))
        × (b'.last_peer_id ≡ some id)
        × (length (t.to_bytes id) ≡ worker_id_size)
        × IsAbove b.last_peer_id id

    -- Once the order holds.
    goes_on :
        HasRoom t id
        → WorkersAscend b
        → IsAbove b.last_peer_id id
        → ((w : Text)
            → worker_id_from t checked id ≡ some w
            → add_worker t checked b id status
              ≡ ok (record b {
                last_peer_id = some id;
                worker_entries = push b.worker_entries (w, status);
              }))
        → (worker_id_from t checked id ≡ none → add_worker t checked b id status ≡ panic)
        → Added
          ⊎ ((add_worker t checked b id status ≡ panic) × (length (t.to_bytes id) < worker_id_size))
    goes_on room (parsed, same, w) above added fails =
        elim (Option-cases (worker_id_from t checked id)) [
          | inl e ↦ inr (fails e, worker_id_from-none t checked id room e)
          | inr (v, e) ↦
              let (size, bytes) = worker_id_from-some t checked id v room e in
              inl (
                record b {
                  last_peer_id = some id;
                  worker_entries = push b.worker_entries (v, status);
                },
                added v e,
                (
                  push parsed (id, status),
                  rw (bytes, same) (sym (encode-push t parsed id status)),
                  push-Ascends parsed b.last_peer_id id status w above,
                ),
                rw bytes refl,
                refl,
                size,
                above,
              )
        ]

  -- `add_worker` keeps the entries the bytes of strictly ascending peer ids, where those of the
  -- new id are no more than the 38 that a `WorkerId` holds. It adds the one entry at the end,
  -- under exactly those 38 bytes, and only an id above the last one; otherwise it panics, where
  -- the id is not above the last one or has fewer than 38 bytes.
  pub add_worker_lem :
      (checked : Bool) (b : Builder P S) (id : P) (status : S)
      → HasRoom t id
      → WorkersAscend b
      → ((b' : Builder P S) × (add_worker t checked b id status ≡ ok b')
          × WorkersAscend b'
          × (b'.worker_entries ≡ push b.worker_entries (t.to_bytes id, status))
          × (b'.last_peer_id ≡ some id)
          × (length (t.to_bytes id) ≡ worker_id_size)
          × IsAbove b.last_peer_id id)
        ⊎ ((add_worker t checked b id status ≡ panic)
            × (((last : P) × (b.last_peer_id ≡ some last) × (o.cmp last id ≢ Ordering.lt))
                ⊎ (length (t.to_bytes id) < worker_id_size)))
  unfolding add_worker
  add_worker_lem checked b id status room w = elim (Option-cases b.last_peer_id) [
    | inl e ↦ wrap (
        goes_on checked b id status room w (λ l h. absurd (cc (e, h)))
          (λ v h. rw (add_worker, e, h) refl) (λ h. rw (add_worker, e, h) refl))
    | inr (last, e) ↦ elim (Bool-cases (before last id)) [
      | inr out ↦ inr (rw (add_worker, e, out) refl, inl (last, e, ground (arith, out)))
      | inl below ↦ wrap (
          goes_on checked b id status room w
            (λ l h. let k : last ≡ l = cc (e, h) in rw (← k) ground (arith, below))
            (λ v h. rw (add_worker, e, below, h) refl) (λ h. rw (add_worker, e, below, h) refl))
    ]
  ]
    where
      wrap :
          Added checked b id status
            ⊎ ((add_worker t checked b id status ≡ panic)
                × (length (t.to_bytes id) < worker_id_size))
          → Added checked b id status
            ⊎ ((add_worker t checked b id status ≡ panic)
                × (((last : P) × (b.last_peer_id ≡ some last) × (o.cmp last id ≢ Ordering.lt))
                    ⊎ (length (t.to_bytes id) < worker_id_size)))
      wrap (inl a) = inl a
      wrap (inr (p, short)) = inr (p, inr short)
