-- ===== src/Assignments/Entries/Encoded.antt =====
-- Entries under the bytes of their peer ids are looked up as the parsed ones.
use sqd_network.Base.{
  zero, suc, ◌∷◌, ℕ, ◌≡◌, refl, ap, Option, none, some, List, [], length, get_elem?,
  get_elem?-below,
}
use sqd_network.Base.Order.{Ord}
use sqd_network.Assignments.Columns.{push}
use sqd_network.Assignments.Search.{lookup_index_by_key, try_lookup_index_by_key}
use sqd_network.Assignments.Search.Keyed.{
  Answers, lookup_index_by_key-Answers, try_lookup_index_by_key_lem,
}
use sqd_network.Assignments.Entries.{
  PeerText, encode, Ascends, compare_entry, find_entry, entries-IsAscending, compare_worker,
  get_worker,
}

module _ {P E : Type 0} ⦃o : Ord P⦄ (t : PeerText P) where
  compare_worker-encode :
      (entries : List (P × E)) (id : P) (i : ℕ)
      → compare_worker t (encode t entries) id i ≡ some (compare_entry entries id i)
  unfolding compare_worker compare_entry
  compare_worker-encode [] id i = refl
  compare_worker-encode ((p, e) ∷ entries) id zero =
      rw (t.from_bytes-to_bytes p, compare_worker) refl
  compare_worker-encode ((p, e) ∷ entries) id (suc i) = compare_worker-encode entries id i

  length-encode : (entries : List (P × E)) → length (encode t entries) ≡ length entries
  length-encode [] = refl
  length-encode (x ∷ entries) = ap suc (length-encode entries)

  pub encode-push :
      (entries : List (P × E)) (p : P) (e : E)
      → encode t (push entries (p, e)) ≡ push (encode t entries) (t.to_bytes p, e)
  encode-push [] p e = refl
  encode-push (x ∷ entries) p e = ap (λ l. (t.to_bytes x.0, x.1) ∷ l) (encode-push entries p e)

  get_elem?-encode :
      (entries : List (P × E)) (i : ℕ) (p : P) (e : E)
      → get_elem? entries i ≡ some (p, e)
      → get_elem? (encode t entries) i ≡ some (t.to_bytes p, e)
  get_elem?-encode [] i p e h = absurd (cc)
  get_elem?-encode (x ∷ entries) zero p e h = let k : x ≡ (p, e) = cc in rw k refl
  get_elem?-encode (x ∷ entries) (suc i) p e h = get_elem?-encode entries i p e h

  -- Entries under the bytes of peer ids are looked up without a panic, and as the parsed ones.
  pub get_worker-encode :
      (entries : List (P × E)) (last : Option P) (id : P)
      → Ascends entries last
      → get_worker t (encode t entries) id
        ≡ some (elim (find_entry entries id) [
          | none ↦ none
          | some w ↦
              some
                (record { worker_id = t.to_bytes w.worker_id; reader = w.reader; index = w.index })
        ])
  unfolding get_worker find_entry
  get_worker-encode entries last id a =
      from (lookup_index_by_key (length entries) (compare_entry entries id)) refl (
        lookup_index_by_key-Answers (length entries) (compare_entry entries id)
          (entries-IsAscending entries last id a))
    where
      searched :
          try_lookup_index_by_key
            (length (encode t entries))
            (compare_worker t (encode t entries) id)
          ≡ some (lookup_index_by_key (length entries) (compare_entry entries id))
      searched = rw (length-encode entries) (
          try_lookup_index_by_key_lem (length entries) (compare_worker t (encode t entries) id)
            (compare_entry entries id) (compare_worker-encode entries id))

      from :
          (found : Option ℕ)
          → lookup_index_by_key (length entries) (compare_entry entries id) ≡ found
          → Answers (length entries) (compare_entry entries id) found
          → get_worker t (encode t entries) id
            ≡ some (elim (find_entry entries id) [
              | none ↦ none
              | some w ↦ some (record {
                worker_id = t.to_bytes w.worker_id;
                reader = w.reader;
                index = w.index;
              })
            ])
      from none e h = rw (get_worker, searched, find_entry, e) refl
      from (some k) e h =
          let ((p, x), at) = get_elem?-below entries k h.0 in
          rw (get_worker, searched, e, get_elem?-encode entries k p x at, find_entry, at) refl
