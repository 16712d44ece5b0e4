-- ===== src/Assignments/Columns/Runs.antt =====
-- Top runs: pushing a chunk's top keeps every earlier answer of `top_at` and answers for the chunk.
use sqd_network.Base.{
  ℕ, zero, suc, ◌≤◌, ◌<◌, ◌≡◌, ◌⊎◌, refl, sym, ap, ◌∙◌, true, false, Option, none, some, List, [],
  ◌∷◌, length, length-append, get_elem?, arith, inl, inr, leb, ◌==◌, ==_iff, if◌then◌else◌,
  Bool-cases, ok,
}
use sqd_network.Assignments.Search.{partition_point}
use sqd_network.Assignments.Search.Partition.{
  HoldsForPrefix, IsPartition, partition_point-IsPartition,
}
use sqd_network.Assignments.Columns.{
  TopRun, push, last_run, push_top, starts_by, top_at, ascend_from, check_top_runs,
}

-- Runs that start at or after `lo`, strictly ascend, and stay below `hi`.
abbrev pub Ascends : ℕ → ℕ → List TopRun → Type 0
Ascends lo hi [] = Unit
Ascends lo hi (r ∷ rs) =
    (lo ≤ r.first_chunk_index)
    × (r.first_chunk_index < hi)
    × Ascends (suc r.first_chunk_index) hi rs

-- The top of the last run at or before `index`, by a scan.
pub scan : List TopRun → ℕ → Option ℕ → Option ℕ
scan [] index acc = acc
scan (r ∷ rs) index acc = scan rs index (if leb r.first_chunk_index index then some r.top else acc)

pick : List TopRun → ℕ → Option ℕ → Option ℕ
pick ts zero acc = acc
pick ts (suc i) acc = elim (get_elem? ts i) [ none ↦ none | some run ↦ some run.top ]

-- A run that starts by `index` bounds where the runs begin.
starts_by_low :
    (ts : List TopRun) (index lo hi : ℕ)
    → Ascends lo hi ts
    → (i : ℕ) → starts_by ts index i ≡ true
    → lo ≤ index
unfolding starts_by
starts_by_low [] index lo hi a i h = absurd (cc)
starts_by_low (r ∷ ts) index lo hi a zero h = ground arith
starts_by_low (r ∷ ts) index lo hi a (suc i) h =
    omega (arith, starts_by_low ts index (suc r.first_chunk_index) hi a.2 i h)

pick_cons :
    (r : TopRun) (ts : List TopRun) (j : ℕ) (acc : Option ℕ)
    → pick ts j (some r.top) ≡ pick (r ∷ ts) (suc j) acc
unfolding pick
pick_cons r ts zero acc = refl
pick_cons r ts (suc j) acc = refl

-- Whatever splits the runs at `index` picks what the scan finds.
scan-pick :
    (ts : List TopRun) (index k : ℕ) (acc : Option ℕ)
    → IsPartition (length ts) (starts_by ts index) k
    → scan ts index acc ≡ pick ts k acc
unfolding scan pick starts_by
scan-pick [] index zero acc p = refl
scan-pick [] index (suc k) acc p = absurd (omega (arith, p.0))
scan-pick (r ∷ ts) index zero acc p =
    let e : leb r.first_chunk_index index ≡ false = p.2 0 (omega arith) (omega arith) in
    rw e (
      scan-pick ts index zero acc (
        omega arith,
        λ i h. absurd (omega arith),
        λ i a b. p.2 (suc i) (omega arith) (omega arith),
      ))
scan-pick (r ∷ ts) index (suc j) acc p =
    let e : leb r.first_chunk_index index ≡ true = p.1 0 (omega arith) in
    rw e (
      scan-pick ts index j (some r.top) (
        omega (arith, p.0),
        λ i h. p.1 (suc i) (omega arith),
        λ i a b. p.2 (suc i) (omega arith) (omega arith),
      )
      ∙ pick_cons r ts j acc)

-- Strictly ascending starts make the test hold for a prefix.
starts_by-HoldsForPrefix :
    (ts : List TopRun) (index lo hi : ℕ) → Ascends lo hi ts → HoldsForPrefix (starts_by ts index)
unfolding starts_by
starts_by-HoldsForPrefix [] index lo hi a i j le h = h
starts_by-HoldsForPrefix (r ∷ ts) index lo hi a zero zero le h = h
starts_by-HoldsForPrefix (r ∷ ts) index lo hi a zero (suc j) le h =
    ground (arith, starts_by_low ts index (suc r.first_chunk_index) hi a.2 j h)
starts_by-HoldsForPrefix (r ∷ ts) index lo hi a (suc i) zero le h = absurd (omega arith)
starts_by-HoldsForPrefix (r ∷ ts) index lo hi a (suc i) (suc j) le h =
    starts_by-HoldsForPrefix ts index (suc r.first_chunk_index) hi a.2 i j (omega arith) h

top_at-pick :
    (ts : List TopRun) (index : ℕ)
    → top_at ts index ≡ pick ts (partition_point (length ts) (starts_by ts index)) none
unfolding top_at pick
top_at-pick ts index = at (partition_point (length ts) (starts_by ts index))
  where
    at :
        (k : ℕ)
        → (elim k [
          | zero ↦ none
          | suc i ↦ elim (get_elem? ts i) [ none ↦ none | some run ↦ some run.top ]
        ])
          ≡ pick ts k none
    at zero = refl
    at (suc k) = refl

pub top_at-scan :
    (ts : List TopRun) (index lo hi : ℕ) → Ascends lo hi ts → top_at ts index ≡ scan ts index none
unfolding top_at
top_at-scan ts index lo hi a =
    top_at-pick ts index
    ∙ sym (
        scan-pick ts index _ none (
          partition_point-IsPartition (length ts) (starts_by ts index)
            (starts_by-HoldsForPrefix ts index lo hi a)))

scan_above :
    (ts : List TopRun) (index lo hi : ℕ) (acc : Option ℕ)
    → Ascends lo hi ts
    → index < lo
    → scan ts index acc ≡ acc
unfolding scan
scan_above [] index lo hi acc a h = refl
scan_above (r ∷ ts) index lo hi acc a h =
    let e : leb r.first_chunk_index index ≡ false = ground arith in
    rw e (scan_above ts index (suc r.first_chunk_index) hi acc a.2 (omega arith))

-- The top of the last run.
last_top : List TopRun → Option ℕ → Option ℕ
last_top [] acc = acc
last_top (r ∷ ts) acc = last_top ts (some r.top)

-- All runs start below `hi`, so from there on the last run answers.
scan_last :
    (ts : List TopRun) (index lo hi : ℕ) (acc : Option ℕ)
    → Ascends lo hi ts
    → hi ≤ suc index
    → scan ts index acc ≡ last_top ts acc
unfolding scan last_top
scan_last [] index lo hi acc a h = refl
scan_last (r ∷ ts) index lo hi acc a h =
    let e : leb r.first_chunk_index index ≡ true = ground arith in
    rw e (scan_last ts index (suc r.first_chunk_index) hi (some r.top) a.2 h)

last_top-last_run :
    (r : TopRun) (ts : List TopRun) (acc : Option ℕ)
    → (run : TopRun) × (last_run (r ∷ ts) ≡ some run) × (last_top (r ∷ ts) acc ≡ some run.top)
unfolding last_top last_run
last_top-last_run r [] acc = (r, refl, refl)
last_top-last_run r (s ∷ ts) acc = last_top-last_run s ts (some r.top)

scan-push :
    (ts : List TopRun) (r : TopRun) (index : ℕ) (acc : Option ℕ)
    → scan (push ts r) index acc
      ≡ (if leb r.first_chunk_index index then some r.top else scan ts index acc)
unfolding scan
scan-push [] r index acc = ground arith
scan-push (x ∷ ts) r index acc = scan-push ts r index _

Ascends-push :
    (ts : List TopRun) (lo n top : ℕ)
    → lo ≤ n
    → Ascends lo n ts
    → Ascends lo (suc n) (push ts (record { first_chunk_index = n; top = top }))
Ascends-push [] lo n top le a = (le, omega arith, tt)
Ascends-push (r ∷ ts) lo n top le a =
    (a.0, omega arith, Ascends-push ts (suc r.first_chunk_index) n top (omega arith) a.2)

Ascends-weaken : (ts : List TopRun) (lo n : ℕ) → Ascends lo n ts → Ascends lo (suc n) ts
Ascends-weaken [] lo n a = tt
Ascends-weaken (r ∷ ts) lo n a =
    (a.0, omega arith, Ascends-weaken ts (suc r.first_chunk_index) n a.2)

-- The runs stand for the tops of chunks 0, 1, ...: they ascend, and each chunk's is found.
pub record TopsFor (ts : List TopRun) (tops : List ℕ) : Type 0 where
  pub ascends : Ascends 0 (length tops) ts
  pub found_at : (i top : ℕ) → get_elem? tops i ≡ some top → scan ts i none ≡ some top

pub TopsFor-nil : TopsFor [] []
TopsFor-nil = record { ascends = tt; found_at = λ i top h. absurd (cc) }

-- The last place of a pushed list is new, and every other was there before.
pub get_elem?-push_cases {ℓ} :
    {A : Type ℓ} (xs : List A) (x : A) (i : ℕ) (y : A)
    → get_elem? (push xs x) i ≡ some y
    → ((i < length xs) × (get_elem? xs i ≡ some y)) ⊎ ((i ≡ length xs) × (x ≡ y))
get_elem?-push_cases [] x zero y h = inr (refl, cc)
get_elem?-push_cases [] x (suc i) y h = absurd (cc)
get_elem?-push_cases (z ∷ xs) x zero y h = inl (omega arith, h)
get_elem?-push_cases (z ∷ xs) x (suc i) y h = elim (get_elem?-push_cases xs x i y h) [
  | inl (l, e) ↦ inl (omega arith, e)
  | inr (l, e) ↦ inr (omega arith, e)
]

TopsFor-new_run :
    (ts : List TopRun) (tops : List ℕ) (top : ℕ)
    → TopsFor ts tops
    → TopsFor (push ts (record { first_chunk_index = length tops; top = top })) (push tops top)
TopsFor-new_run ts tops top t =
    let e : length (push tops top) ≡ suc (length tops) =
      omega (arith, length-append {0} tops (top ∷ [])) in
    record {
      ascends = rw e (Ascends-push ts 0 (length tops) top (omega arith) t.ascends);
      found_at = λ i x h. elim (get_elem?-push_cases tops top i x h) [
        | inl (l, p) ↦ scan-push ts _ i none ∙ ground (arith, t.found_at i x p)
        | inr (l, p) ↦ scan-push ts _ i none ∙ ground arith
      ];
    }

TopsFor-same_run :
    (ts : List TopRun) (tops : List ℕ) (top : ℕ)
    → last_top ts none ≡ some top
    → TopsFor ts tops
    → TopsFor ts (push tops top)
TopsFor-same_run ts tops top l t =
    let e : length (push tops top) ≡ suc (length tops) =
      omega (arith, length-append {0} tops (top ∷ [])) in
    record {
      ascends = rw e (Ascends-weaken ts 0 (length tops) t.ascends);
      found_at = λ i x h. elim (get_elem?-push_cases tops top i x h) [
        | inl (_, p) ↦ t.found_at i x p
        | inr (m, p) ↦ scan_last ts i 0 (length tops) none t.ascends (omega arith) ∙ l ∙ ap some p
      ];
    }

-- Pushing the top of the next chunk keeps the runs right.
pub push_top-TopsFor :
    (ts : List TopRun) (tops : List ℕ) (top : ℕ)
    → TopsFor ts tops
    → TopsFor (push_top ts (length tops) top) (push tops top)
unfolding push_top
push_top-TopsFor [] tops top t = TopsFor-new_run [] tops top t
push_top-TopsFor (r ∷ ts) tops top t =
    let (run, found, last) = last_top-last_run r ts none in
    elim (Bool-cases (run.top == top)) [
      | inl same ↦
          rw (found, push_top, same)
            (TopsFor-same_run (r ∷ ts) tops top (last ∙ ap some ((==_iff run.top top).0 same)) t)
      | inr new ↦ rw (found, push_top, new) (TopsFor-new_run (r ∷ ts) tops top t)
    ]

-- The bisection of `top_at` finds each chunk's top.
pub top_at-TopsFor :
    (ts : List TopRun) (tops : List ℕ) (i top : ℕ)
    → TopsFor ts tops
    → get_elem? tops i ≡ some top
    → top_at ts i ≡ some top
top_at-TopsFor ts tops i top t h = top_at-scan ts i 0 (length tops) t.ascends ∙ t.found_at i top h

Ascends-ascend_from :
    (i hi : ℕ) (ts : List TopRun) → Ascends (suc i) hi ts → ascend_from i ts ≡ true
unfolding ascend_from
Ascends-ascend_from i hi [] a = refl
Ascends-ascend_from i hi (r ∷ ts) a =
    ground (arith, Ascends-ascend_from r.first_chunk_index hi ts a.2)

-- Runs made by pushing pass the check of `emit_dataset`, once there is a chunk.
pub check_top_runs-TopsFor :
    (ts : List TopRun) (tops : List ℕ)
    → TopsFor ts tops
    → 0 < length tops
    → check_top_runs ts ≡ ok tt
unfolding check_top_runs
check_top_runs-TopsFor ts [] t h = absurd (omega arith)
check_top_runs-TopsFor [] (top ∷ tops) t h = absurd (unfold scan in cc (t.found_at 0 top refl))
check_top_runs-TopsFor (r ∷ ts) (top ∷ tops) t h = elim (Bool-cases (r.first_chunk_index == 0)) [
  | inl z ↦ rw (z, Ascends-ascend_from r.first_chunk_index _ ts t.ascends.2)
  | inr nz ↦
      let lo : 0 < r.first_chunk_index = ground arith in
      absurd (
        cc (
          t.found_at 0 top refl,
          scan_above (r ∷ ts) 0 r.first_chunk_index (length (top ∷ tops)) none
              (omega arith, t.ascends.1, t.ascends.2) lo,
        ))
]
