-- ===== src/Assignments/Worker/Fleet/Adding.antt =====
-- The calls that add workers, one after another, and the entries they leave behind
-- (crates/assignments/src/builder.rs).
use sqd_network.Base.{
  Bool, Option-cases, ℕ, zero, suc, ◌≡◌, refl, sym, ap, ◌∙◌, Ordering, Option, none, some, List, [],
  ◌∷◌, ◌++◌, length, get_elem?, Outcome, ok, err, panic, ◌>>=◌, true, arith, inl, inr, Bool-cases,
  append-nil, append_assoc,
}
use sqd_network.Base.Order.{Ord}
use sqd_network.Base.Text.{Text}
use sqd_network.Assignments.Columns.{AssignError, push}
use sqd_network.Assignments.Entries.{
  Ascends, push-Ascends, encode, PeerText, HasRoom, worker_id_from, worker_id_from-some,
}
use sqd_network.Assignments.Worker.Fleet.{
  WorkerStatus, status_to_fb, status_from_fb, EncryptedHeaders, WorkerEntry, Sealer, Crypto,
  generate_encrypted_headers, Fleet, follows, add_worker_with_sealed_headers,
  add_worker_with_timestamp,
}

pub status_from_fb-status_to_fb : (s : WorkerStatus) → status_from_fb (status_to_fb s) ≡ s
unfolding status_from_fb status_to_fb
status_from_fb-status_to_fb WorkerStatus.reliable = refl
status_from_fb-status_to_fb WorkerStatus.unreliable = refl
status_from_fb-status_to_fb WorkerStatus.deprecated_version = refl
status_from_fb-status_to_fb WorkerStatus.unsupported_version = refl

-- A call that adds a worker.
pub data Addition (P : Type 0) : Type 0 where
  timed : P → WorkerStatus → ℕ → Addition P
  presealed : P → WorkerStatus → EncryptedHeaders → Addition P

abbrev pub id_of : {P : Type 0} → Addition P → P
id_of (Addition.timed id _ _) = id
id_of (Addition.presealed id _ _) = id

abbrev pub status_of : {P : Type 0} → Addition P → WorkerStatus
status_of (Addition.timed _ s _) = s
status_of (Addition.presealed _ s _) = s

module _ {P R : Type 0} ⦃o : Ord P⦄ (y : Crypto R) (t : PeerText P) (checked : Bool) where
  unfoldable add : Fleet P → Sealer R → Addition P → Outcome AssignError (Fleet P × Sealer R)
  add b s (Addition.timed id st timestamp) =
      add_worker_with_timestamp y t checked b s id st timestamp
  add b s (Addition.presealed id st h) =
      add_worker_with_sealed_headers t checked b id st h.identity h.nonce h.ciphertext >>= λ b'.
      ok (b', s)

  unfoldable pub add_all :
      Fleet P → Sealer R → List (Addition P) → Outcome AssignError (Fleet P × Sealer R)
  unfolding add
  add_all b s [] = ok (b, s)
  add_all b s (a ∷ more) = elim (add b s a) [
    | ok (b', s') ↦ add_all b' s' more
    | err e ↦ err e
    | panic ↦ panic
  ]

  -- The sealer after one call: `generate_encrypted_headers` moves it on.
  abbrev pub sealer_step : Sealer R → Addition P → Sealer R
  sealer_step s (Addition.timed id _ timestamp) = (generate_encrypted_headers y t s id timestamp).0
  sealer_step s (Addition.presealed _ _ _) = s

  -- The sealer after the first calls of a list.
  unfoldable pub sealer_at : Sealer R → List (Addition P) → ℕ → Sealer R
  sealer_at s [] i = s
  sealer_at s (a ∷ more) zero = s
  sealer_at s (a ∷ more) (suc i) = sealer_at (sealer_step s a) more i

  -- What an entry says of the worker that was added: its status, and the headers as they were given or
  -- as `generate_encrypted_headers` made them at that time.
  abbrev pub HoldsHeaders : Sealer R → Addition P → Option EncryptedHeaders → Type 0
  HoldsHeaders s (Addition.timed id _ timestamp) h =
      (generate_encrypted_headers y t s id timestamp).1 ≡ h
  HoldsHeaders s (Addition.presealed _ _ given) h = h ≡ some given

  pub record Holds (s : Sealer R) (a : Addition P) (e : WorkerEntry) : Type 0 where
    pub status : status_from_fb e.status ≡ status_of a
    pub headers : HoldsHeaders s a e.encrypted_headers

  -- One call: the id follows the last one, and one entry is added at the end, under its bytes.
  record Adds (a : Addition P) (b b' : Fleet P) (s s' : Sealer R) : Type 0 where
    entry : WorkerEntry
    holds : Holds s a entry
    entries : b'.worker_entries ≡ push b.worker_entries (t.to_bytes (id_of a), entry)
    last : b'.last_peer_id ≡ some (id_of a)
    sealer : s' ≡ sealer_step s a
    order : (l : P) → b.last_peer_id ≡ some l → o.cmp l (id_of a) ≡ Ordering.lt

  follows_order :
      (last : Option P) (id : P)
      → follows last id ≡ true
      → (l : P) → last ≡ some l
      → o.cmp l id ≡ Ordering.lt
  unfolding follows
  follows_order none id h l e = absurd (cc)
  follows_order (some last) id h l e = let k : last ≡ l = cc in rw (← k) ground arith

  -- What a call that goes through has made.
  entries-Adds :
      (b b' : Fleet P) (s s' : Sealer R) (a : Addition P) (e : WorkerEntry) (w : Text)
      → HasRoom t (id_of a)
      → worker_id_from t checked (id_of a) ≡ some w
      → follows b.last_peer_id (id_of a) ≡ true
      → Holds s a e
      → record b { last_peer_id = some (id_of a); worker_entries = push b.worker_entries (w, e) }
        ≡ b'
      → s' ≡ sealer_step s a
      → Adds a b b' s s'
  entries-Adds b b' s s' a e w room from goes holds same moved = record {
    entry = e;
    holds = holds;
    entries =
        sym (ap (λ (x : Fleet P). x.worker_entries) same)
        ∙ ap (λ v. push b.worker_entries (v, e))
            (worker_id_from-some t checked (id_of a) w room from).1;
    last = sym (ap (λ (x : Fleet P). x.last_peer_id) same);
    sealer = moved;
    order = follows_order b.last_peer_id (id_of a) goes;
  }

  timed-Adds :
      (b b' : Fleet P) (s s' : Sealer R) (id : P) (st : WorkerStatus) (timestamp : ℕ)
      → HasRoom t id
      → add_worker_with_timestamp y t checked b s id st timestamp ≡ ok (b', s')
      → Adds (Addition.timed id st timestamp) b b' s s'
  unfolding add_worker_with_timestamp
  timed-Adds b b' s s' id st timestamp room h = elim (Bool-cases (follows b.last_peer_id id)) [
    | inr out ↦ absurd (ground (arith, out))
    | inl goes ↦ elim (Option-cases (worker_id_from t checked id)) [
      | inl n ↦ absurd (ground (arith, goes, n))
      | inr (w, from) ↦
          let (moved, headers) = generate_encrypted_headers y t s id timestamp in
          let e : WorkerEntry = record { status = status_to_fb st; encrypted_headers = headers } in
          let made : Fleet P = record b {
            last_peer_id = some id;
            worker_entries = push b.worker_entries (w, e);
          } in
          let same : made ≡ b' = ground (arith, goes, from) in
          let after : moved ≡ s' = ground (arith, goes, from) in
          entries-Adds b b' s s' (Addition.timed id st timestamp) e w room from goes
            (record { status = status_from_fb-status_to_fb st; headers = refl }) same (sym after)
    ]
  ]

  sealed-Adds :
      (b b' : Fleet P) (s : Sealer R) (id : P) (st : WorkerStatus) (h : EncryptedHeaders)
      → HasRoom t id
      → add_worker_with_sealed_headers t checked b id st h.identity h.nonce h.ciphertext ≡ ok b'
      → Adds (Addition.presealed id st h) b b' s s
  unfolding add_worker_with_sealed_headers
  sealed-Adds b b' s id st h room k = elim (Bool-cases (follows b.last_peer_id id)) [
    | inr out ↦ absurd (ground (arith, out))
    | inl goes ↦ elim (Option-cases (worker_id_from t checked id)) [
      | inl n ↦ absurd (ground (arith, goes, n))
      | inr (w, from) ↦
          let e : WorkerEntry = record { status = status_to_fb st; encrypted_headers = some h } in
          let made : Fleet P = record b {
            last_peer_id = some id;
            worker_entries = push b.worker_entries (w, e);
          } in
          let same : made ≡ b' = ground (arith, goes, from) in
          entries-Adds b b' s s (Addition.presealed id st h) e w room from goes
            (record { status = status_from_fb-status_to_fb st; headers = refl }) same refl
    ]
  ]

  add-Adds :
      (b b' : Fleet P) (s s' : Sealer R) (a : Addition P)
      → HasRoom t (id_of a)
      → add b s a ≡ ok (b', s')
      → Adds a b b' s s'
  unfolding add
  add-Adds b b' s s' (Addition.timed id st timestamp) room h =
      timed-Adds b b' s s' id st timestamp room h
  add-Adds b b' s s' (Addition.presealed id st given) room h =
      from
        (add_worker_with_sealed_headers t checked b id st given.identity given.nonce
          given.ciphertext)
        refl
    where
      from :
          (r : Outcome AssignError (Fleet P))
          → add_worker_with_sealed_headers t checked b id st given.identity given.nonce
              given.ciphertext
            ≡ r
          → Adds (Addition.presealed id st given) b b' s s'
      from (ok c) e =
          let k : c ≡ b' = ground (arith, e) in
          let moved : s ≡ s' = ground (arith, e) in
          rw (← moved) (sealed-Adds b b' s id st given room (rw (← k) e))
      from (err x) e = absurd (ground (arith, e))
      from panic e = absurd (ground (arith, e))

  -- Every addition's entry stands at its place.
  abbrev pub Placed : Sealer R → List (Addition P) → List (P × WorkerEntry) → Type 0
  Placed s additions entries =
      (i : ℕ) (a : Addition P)
      → get_elem? additions i ≡ some a
      → (e : WorkerEntry) × (get_elem? entries i ≡ some (id_of a, e))
        × Holds (sealer_at s additions i) a e

  abbrev pub HaveRoom : List (Addition P) → Type 0
  HaveRoom additions =
      (i : ℕ) (a : Addition P) → get_elem? additions i ≡ some a → HasRoom t (id_of a)

  pub record AddsAll (additions : List (Addition P)) (b b' : Fleet P) (s : Sealer R) : Type 0 where
    pub added : List (P × WorkerEntry)
    pub entries : b'.worker_entries ≡ b.worker_entries ++ encode t added
    pub count : length added ≡ length additions
    pub placed : Placed s additions added
    pub ascends :
        (earlier : List (P × WorkerEntry))
        → Ascends earlier b.last_peer_id
        → Ascends (earlier ++ added) b'.last_peer_id

  then_all :
      (a : Addition P) (more : List (Addition P)) (b b1 b' : Fleet P) (s s1 : Sealer R)
      → Adds a b b1 s s1
      → AddsAll more b1 b' s1
      → AddsAll (a ∷ more) b b' s
  unfolding sealer_at
  then_all a more b b1 b' s s1 one rest = record {
    added = (id_of a, one.entry) ∷ rest.added;
    entries =
        rest.entries
        ∙ ap (λ l. l ++ encode t rest.added) one.entries
        ∙ append_assoc b.worker_entries ((t.to_bytes (id_of a), one.entry) ∷ [])
            (encode t rest.added);
    count = ap suc rest.count;
    placed = at;
    ascends = λ earlier w. rw (← append_assoc earlier ((id_of a, one.entry) ∷ []) rest.added) (
        rest.ascends (push earlier (id_of a, one.entry))
          (rw one.last (push-Ascends earlier b.last_peer_id (id_of a) one.entry w one.order)));
  }
    where
      at : Placed s (a ∷ more) ((id_of a, one.entry) ∷ rest.added)
      at zero c h = let k : a ≡ c = cc in rw (← k) (one.entry, refl, one.holds)
      at (suc i) c h =
          let (e, place, holds) = rest.placed i c h in (e, place, rw (← one.sealer) holds)

  pub add_all-AddsAll :
      (additions : List (Addition P)) (b b' : Fleet P) (s s' : Sealer R)
      → HaveRoom additions
      → add_all b s additions ≡ ok (b', s')
      → AddsAll additions b b' s
  add_all-AddsAll [] b b' s s' room h =
      let k : b ≡ b' = unfold add_all in cc in
      rw (← k) record {
        added = [];
        entries = sym (append-nil b.worker_entries);
        count = refl;
        placed = λ i a at. absurd (cc);
        ascends = λ earlier w. rw (append-nil earlier) w;
      }
  add_all-AddsAll (a ∷ more) b b' s s' room h =
      from (λ b1 s1. add_all-AddsAll more b1 b' s1 s' (λ i x. room (suc i) x)) (add b s a) refl
    where
      from :
          ((b1 : Fleet P) (s1 : Sealer R)
            → add_all b1 s1 more ≡ ok (b', s')
            → AddsAll more b1 b' s1)
          → (r : Outcome AssignError (Fleet P × Sealer R)) → add b s a ≡ r
          → AddsAll (a ∷ more) b b' s
      from rest (ok (b1, s1)) e =
          let goes : add_all b1 s1 more ≡ ok (b', s') = unfold add_all in ground (arith, e) in
          then_all a more b b1 b' s s1 (add-Adds b b1 s s1 a (room 0 a refl) e) (rest b1 s1 goes)
      from rest (err x) e = absurd (unfold add_all in ground (arith, e))
      from rest panic e = absurd (unfold add_all in ground (arith, e))
