-- ===== src/Assignments/Entries.antt =====
-- The worker entries of an assignment, which all three builders keep in the order of their peer
-- ids (crates/assignments/src/builder.rs), and the lookup of one by its peer id, `get_worker`
-- (crates/assignments/src/reader.rs). A `WorkerId` is the 38 bytes of a peer id, which libp2p
-- prints and parses: `PeerText`.
pub mod Encoded
use sqd_network.Base.{
  Bool, zero, suc, ◌∷◌, ◌&&◌, ltb, take, take-length, map, if◌then◌else◌, ℕ, ◌%◌, ◌≤◌, ◌<◌, ◌≡◌,
  ◌⊎◌, ◌≢◌, refl, sym, ap, ◌∙◌, Option, none, some, Ordering, List, [], length, get_elem?,
  get_elem?-bound, get_elem?-below, arith, inl, inr, lt_or_le, Option-cases,
}
use sqd_network.Base.Order.{Ord}
use sqd_network.Base.Text.{Text}
use sqd_network.Assignments.Columns.{push}
use sqd_network.Assignments.Columns.Runs.{get_elem?-push_cases}
use sqd_network.Assignments.Search.{lookup_index_by_key, try_lookup_index_by_key}
use sqd_network.Assignments.Search.Keyed.{
  IsAscending, Answers, lookup_index_by_key-Answers, try_lookup_index_by_key_lem,
}

abbrev pub u16_mod : ℕ
u16_mod = 65536

-- `AssignedWorker` and `Worker`, less the assignment they point into.
pub record AssignedWorker (P E : Type 0) : Type 0 where
  pub worker_id : P
  pub reader : E
  pub index : ℕ

-- A peer id as bytes and as text; parsing returns what was written.
pub record PeerText (P : Type 0) : Type 0 where
  pub to_bytes : P → Text
  pub from_bytes : Text → Option P
  pub to_string : P → Text
  pub from_bytes-to_bytes : (p : P) → from_bytes (to_bytes p) ≡ some p

-- The size of `WorkerId` in crates/assignments/schema/assignment.fbs.
abbrev pub worker_id_size : ℕ
worker_id_size = 38

-- `WorkerId::from`, where the `debug_assert_eq!` is on as `checked`; `none` is a panic.
unfoldable pub worker_id_from : {P : Type 0} → PeerText P → Bool → P → Option Text
worker_id_from t checked peer_id =
    let buf = t.to_bytes peer_id in
    if ltb (length buf) worker_id_size
    then none
    else if checked && ltb worker_id_size (length buf)
    then none
    else some (take worker_id_size buf)

-- The peer ids that a `WorkerId` has room for.
abbrev pub HasRoom : {P : Type 0} → PeerText P → P → Type 0
HasRoom t p = length (t.to_bytes p) ≤ worker_id_size

pub worker_id_from-some :
    {P : Type 0} (t : PeerText P) (checked : Bool) (p : P) (w : Text)
    → HasRoom t p
    → worker_id_from t checked p ≡ some w
    → (length (t.to_bytes p) ≡ worker_id_size) × (w ≡ t.to_bytes p)
worker_id_from-some t checked p w room h =
    let full : length (t.to_bytes p) ≡ worker_id_size =
      unfold worker_id_from in ground (arith, h) in
    let cut : take worker_id_size (t.to_bytes p) ≡ w = unfold worker_id_from in ground (arith, h) in
    (full, sym cut ∙ ap (λ n. take n (t.to_bytes p)) (sym full) ∙ take-length (t.to_bytes p))

pub worker_id_from-none :
    {P : Type 0} (t : PeerText P) (checked : Bool) (p : P)
    → HasRoom t p
    → worker_id_from t checked p ≡ none
    → length (t.to_bytes p) < worker_id_size
unfolding worker_id_from
worker_id_from-none t checked p room h = ground (arith, h)

-- Entries under the bytes of their peer ids.
abbrev pub encode : {P E : Type 0} → PeerText P → List (P × E) → List (Text × E)
encode {P = P} {E = E} t entries = map (λ (x : P × E). (t.to_bytes x.0, x.1)) entries

module _ {P E : Type 0} ⦃o : Ord P⦄ where
  -- No entry's peer id is above the last one.
  abbrev pub UpTo : List (P × E) → Option P → Type 0
  UpTo entries none = entries ≡ []
  UpTo entries (some last) =
      (i : ℕ) (p : P) (s : E)
      → get_elem? entries i ≡ some (p, s)
      → (o.cmp p last ≡ Ordering.lt) ⊎ (p ≡ last)

  -- Entries in strictly ascending order of their peer ids, up to the last one added.
  pub record Ascends (entries : List (P × E)) (last : Option P) : Type 0 where
    pub ascend :
        (i j : ℕ) (p q : P) (s t : E)
        → i < j
        → get_elem? entries i ≡ some (p, s)
        → get_elem? entries j ≡ some (q, t)
        → o.cmp p q ≡ Ordering.lt
    pub up_to : UpTo entries last

  -- Every earlier entry is below a peer id above the last.
  below_new :
      (entries : List (P × E)) (last : Option P) (id : P)
      → UpTo entries last
      → ((l : P) → last ≡ some l → o.cmp l id ≡ Ordering.lt)
      → (i : ℕ) (p : P) (s : E) → get_elem? entries i ≡ some (p, s)
      → o.cmp p id ≡ Ordering.lt
  below_new entries none id u h i p s at = absurd (cc (u, at))
  below_new entries (some l) id u h i p s at = elim (u i p s at) [
    | inl lt ↦ o.lt_trans p l id lt (h l refl)
    | inr same ↦ rw same (h l refl)
  ]

  pub push-Ascends :
      (entries : List (P × E)) (last : Option P) (id : P) (e : E)
      → Ascends entries last
      → ((l : P) → last ≡ some l → o.cmp l id ≡ Ordering.lt)
      → Ascends (push entries (id, e)) (some id)
  push-Ascends entries last id e w h = record {
    ascend = λ i j p q s t lt a c.
        order i j p q s t lt (get_elem?-push_cases entries (id, e) i (p, s) a)
          (get_elem?-push_cases entries (id, e) j (q, t) c);
    up_to = λ i p s a. top p s (get_elem?-push_cases entries (id, e) i (p, s) a);
  }
    where
      below : (i : ℕ) (p : P) (s : E) → get_elem? entries i ≡ some (p, s) → o.cmp p id ≡ Ordering.lt
      below = below_new entries last id w.up_to h

      order :
          (i j : ℕ) (p q : P) (s t : E)
          → i < j
          → ((i < length entries) × (get_elem? entries i ≡ some (p, s)))
            ⊎ ((i ≡ length entries) × (◌≡◌ {A = P × E} (id, e) (p, s)))
          → ((j < length entries) × (get_elem? entries j ≡ some (q, t)))
            ⊎ ((j ≡ length entries) × (◌≡◌ {A = P × E} (id, e) (q, t)))
          → o.cmp p q ≡ Ordering.lt
      order i j p q s t lt (inl a) (inl c) = w.ascend i j p q s t lt a.1 c.1
      order i j p q s t lt (inl a) (inr c) =
          let k : id ≡ q = ap (λ (x : P × E). x.0) c.1 in rw (← k) (below i p s a.1)
      order i j p q s t lt (inr a) (inl c) = absurd (omega (arith, a.0, c.0))
      order i j p q s t lt (inr a) (inr c) = absurd (omega (arith, a.0, c.0))

      top :
          {i : ℕ} (p : P) (s : E)
          → ((i < length entries) × (get_elem? entries i ≡ some (p, s)))
            ⊎ ((i ≡ length entries) × (◌≡◌ {A = P × E} (id, e) (p, s)))
          → (o.cmp p id ≡ Ordering.lt) ⊎ (p ≡ id)
      top {i} p s (inl a) = inl (below i p s a.1)
      top p s (inr a) = inr (sym (ap (λ (x : P × E). x.0) a.1))

  -- The comparison that a lookup hands to the search; the search stays below the length.
  unfoldable pub compare_entry : List (P × E) → P → ℕ → Ordering
  compare_entry entries id i = elim (get_elem? entries i) [
    | none ↦ Ordering.gt
    | some (p, e) ↦ o.cmp p id
  ]

  -- The entry under a peer id, in entries whose peer ids are parsed already.
  unfoldable pub find_entry : List (P × E) → P → Option (AssignedWorker P E)
  unfolding compare_entry lookup_index_by_key
  find_entry entries id = elim (lookup_index_by_key (length entries) (compare_entry entries id)) [
    | none ↦ none
    | some index ↦ elim (get_elem? entries index) [
      | none ↦ none
      | some (p, e) ↦ some (record { worker_id = p; reader = e; index = index % u16_mod })
    ]
  ]

  compare-entry_at :
      (entries : List (P × E)) (id : P) (i : ℕ) (p : P) (e : E)
      → get_elem? entries i ≡ some (p, e)
      → compare_entry entries id i ≡ o.cmp p id
  unfolding compare_entry
  compare-entry_at entries id i p e h = rw (h, compare_entry) refl

  compare-entry_past :
      (entries : List (P × E)) (id : P) (i : ℕ)
      → length entries ≤ i
      → compare_entry entries id i ≡ Ordering.gt
  unfolding compare_entry
  compare-entry_past entries id i h = elim (Option-cases (get_elem? entries i)) [
    | inl n ↦ rw (n, compare_entry) refl
    | inr (x, e) ↦ absurd (omega (arith, get_elem?-bound entries i x e))
  ]

  -- A lookup sees the entries in ascending order.
  pub entries-IsAscending :
      (entries : List (P × E)) (last : Option P) (id : P)
      → Ascends entries last
      → IsAscending (compare_entry entries id)
  entries-IsAscending entries last id a = record {
    lt_below = λ i j le h. elim (lt_or_le j (length entries)) [
      | inr past ↦ absurd (cc (h, compare-entry_past entries id j past))
      | inl lt ↦ elim (lt_or_le i j) [
        | inr ge ↦ let k : i ≡ j = omega arith in rw k h
        | inl less ↦
            let ((q, t), atj) = get_elem?-below entries j lt in
            let ((p, s), ati) = get_elem?-below entries i (omega arith) in
            compare-entry_at entries id i p s ati
            ∙ o.lt_trans p q id (a.ascend i j p q s t less ati atj)
                (sym (compare-entry_at entries id j q t atj) ∙ h)
      ]
    ];
    gt_above = λ i j le h. elim (lt_or_le j (length entries)) [
      | inr past ↦ compare-entry_past entries id j past
      | inl lt ↦ elim (lt_or_le i j) [
        | inr ge ↦ let k : i ≡ j = omega arith in rw (← k) h
        | inl less ↦
            let ((q, t), atj) = get_elem?-below entries j lt in
            let ((p, s), ati) = get_elem?-below entries i (omega arith) in
            compare-entry_at entries id j q t atj
            ∙ o.gt_of_lt id q (
                o.lt_trans id p q
                  (o.lt_of_gt p id (sym (compare-entry_at entries id i p s ati) ∙ h))
                  (a.ascend i j p q s t less ati atj))
      ]
    ];
  }

  -- What a lookup returns: the entry with the peer id at its index, or `none` where there is none.
  abbrev pub Looks : List (P × E) → P → Option (AssignedWorker P E) → Type 0
  Looks entries id none = (i : ℕ) (e : E) → get_elem? entries i ≢ some (id, e)
  Looks entries id (some w) =
      (i : ℕ) × (get_elem? entries i ≡ some (id, w.reader))
      × (w.worker_id ≡ id)
      × (w.index ≡ i % u16_mod)

  pub find_entry-Looks :
      (entries : List (P × E)) (last : Option P) (id : P)
      → Ascends entries last
      → Looks entries id (find_entry entries id)
  unfolding find_entry
  find_entry-Looks entries last id a =
      answer (lookup_index_by_key (length entries) (compare_entry entries id)) (
        lookup_index_by_key-Answers (length entries) (compare_entry entries id)
          (entries-IsAscending entries last id a))
    where
      answer :
          (found : Option ℕ)
          → Answers (length entries) (compare_entry entries id) found
          → Looks entries id (elim found [
            | none ↦ none
            | some index ↦ elim (get_elem? entries index) [
              | none ↦ none
              | some (p, e) ↦ some (record { worker_id = p; reader = e; index = index % u16_mod })
            ]
          ])
      answer none h = λ i e at.
          h i (get_elem?-bound entries i (id, e) at)
            (compare-entry_at entries id i id e at ∙ o.cmp_self id)
      answer (some k) (lt, eq) =
          let ((p, e), at) = get_elem?-below entries k lt in
          let same : p ≡ id = o.eq_of_cmp p id (sym (compare-entry_at entries id k p e at) ∙ eq) in
          rw at (k, at ∙ ap (λ q. some (q, e)) same, same, refl)

  -- In ascending entries a peer id has one place.
  pub one_place :
      (entries : List (P × E)) (last : Option P) (i j : ℕ) (id : P) (s t : E)
      → Ascends entries last
      → get_elem? entries i ≡ some (id, s)
      → get_elem? entries j ≡ some (id, t)
      → i ≡ j
  one_place entries last i j id s t a h k = elim (lt_or_le i j) [
    | inl lt ↦ absurd (cc (a.ascend i j id id s t lt h k, o.cmp_self id))
    | inr le ↦ elim (lt_or_le j i) [
      | inl lt ↦ absurd (cc (a.ascend j i id id t s lt k h, o.cmp_self id))
      | inr ge ↦ omega arith
    ]
  ]

module _ {P E : Type 0} ⦃o : Ord P⦄ (t : PeerText P) where
  -- The comparison of `get_worker`, which panics where an id does not parse.
  unfoldable pub compare_worker : List (Text × E) → P → ℕ → Option Ordering
  compare_worker entries id i = elim (get_elem? entries i) [
    | none ↦ some Ordering.gt
    | some (w, e) ↦ elim (t.from_bytes w) [ none ↦ none | some parsed ↦ some (o.cmp parsed id) ]
  ]

  -- `get_worker`, whose index is cast to `u16`; `none` is a panic.
  unfoldable pub get_worker : List (Text × E) → P → Option (Option (AssignedWorker Text E))
  get_worker entries id =
      elim (try_lookup_index_by_key (length entries) (compare_worker entries id)) [
        | none ↦ none
        | some none ↦ some none
        | some (some index) ↦ elim (get_elem? entries index) [
          | none ↦ none
          | some (w, e) ↦
              some (some (record { worker_id = w; reader = e; index = index % u16_mod }))
        ]
      ]
