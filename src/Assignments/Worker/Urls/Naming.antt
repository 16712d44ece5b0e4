-- ===== src/Assignments/Worker/Urls/Naming.antt =====
-- The id and the url that a reader gives a chunk are those of the id it was staged under.
use sqd_network.Base.{
  ℕ, ◌≢◌, ◌⊎◌, All, inl, inr, arith, append_assoc, Bool-cases, ◌≡◌, refl, sym, ap, ◌∙◌, Bool, true,
  Option, none, some, List, [], ◌∷◌, ◌++◌, ◌==◌, if◌then◌else◌, ltb, ◌&&◌,
}
use sqd_network.Base.Text.{Text}
use sqd_network.DataChunk
use sqd_network.DataChunk.{DataChunk, display, last_hash, trim_nul, pad_hash}
use sqd_network.DataChunk.Hash.{new-eq-some, last_hash-new, trim_nul-pad}
use sqd_network.Assignments.Ids.Digits.{push_chunk_id_lem}
use sqd_network.Assignments.Worker.{Builder, Dataset, btree_get, create_generations}
use sqd_network.Assignments.Worker.Rows.{Row}
use sqd_network.Assignments.Worker.Emission.{ReadsAs}
use sqd_network.Assignments.Worker.Staging.{ChunkBuilder, Accepted, chunk_hash}
use sqd_network.Assignments.Worker.Urls.{
  with_slash, ends_with_slash, trim_slashes, push_segment, id, get_generation, url_prefix, url,
}

-- Keys in strictly ascending order, as a `BTreeMap` iterates.
unfoldable pub keys_ascend : List (ℕ × Text) → Bool
keys_ascend [] = true
keys_ascend ((k, u) ∷ []) = true
keys_ascend ((k, u) ∷ (j, v) ∷ entries) = ltb k j && keys_ascend ((j, v) ∷ entries)

-- `Vector::lookup_by_key`: on ascending keys, the entry with the key, if there is one.
pub record KeyLookup : Type 0 where
  pub lookup_by_key : List (ℕ × Text) → ℕ → Option (ℕ × Text)
  pub lookup_by_key_finds :
      (entries : List (ℕ × Text)) (k : ℕ) (v : Text)
      → keys_ascend entries ≡ true
      → btree_get k entries ≡ some v
      → lookup_by_key entries k ≡ some (k, v)
  pub lookup_by_key_misses :
      (entries : List (ℕ × Text)) (k : ℕ)
      → keys_ascend entries ≡ true
      → btree_get k entries ≡ none
      → lookup_by_key entries k ≡ none

-- Where a chunk of a version lies: at the base url, or under the prefix registered for the version.
unfoldable pub home : Text → List (ℕ × Text) → ℕ → Option Text
home base_url generations version =
    if version == 0 then some base_url else elim (btree_get version generations) [
      | none ↦ none
      | some prefix ↦ some (push_segment base_url prefix)
    ]

-- A name in a directory.
abbrev pub chunk_in : Text → Option Text → Option Text
chunk_in name none = none
chunk_in name (some directory) = some (with_slash directory ++ name)

-- The hash that is stored for a chunk id is trimmed to the id's own.
hash_of_id :
    (t f l : ℕ) (h : Text) (id : DataChunk)
    → DataChunk.new t f l h ≡ some id
    → trim_nul (chunk_hash id) ≡ last_hash id
unfolding chunk_hash pad_hash
hash_of_id t f l h id e =
    let same = last_hash-new t f l h id e in
    let (_, _, _, _, words, _) = new-eq-some t f l h id e in
    ap (λ s. trim_nul (pad_hash s)) same ∙ trim_nul-pad h _ words ∙ sym same

id_of_row :
    (d : Dataset) (i : ℕ) (r : Row) (c : DataChunk)
    → ReadsAs d i r
    → (c.top ≡ r.top) × (c.first_block ≡ r.range_start) × (c.last_block ≡ r.range_end)
    → trim_nul r.hash ≡ last_hash c
    → id d i ≡ some (display c)
unfolding id
id_of_row d i r c reads (t, f, l) h =
    rw (reads.hash, id, reads.top, reads.first_block, reads.last_block, h, ← t, ← f, ← l)
      (push_chunk_id_lem [] c)

-- A chunk whose place is known has its url there.
url_of_row :
    (l : List (ℕ × Text) → ℕ → Option (ℕ × Text)) (d : Dataset) (i : ℕ) (r : Row) (c : DataChunk)
    → ReadsAs d i r
    → (c.top ≡ r.top) × (c.first_block ≡ r.range_start) × (c.last_block ≡ r.range_end)
    → trim_nul r.hash ≡ last_hash c
    → url l d i ≡ some (chunk_in (display c) (url_prefix l d r.version))
url_of_row l d i r c reads (t, f, e) h = from (url_prefix l d r.version) refl
  where
    from :
        (p : Option Text)
        → url_prefix l d r.version ≡ p
        → url l d i ≡ some (chunk_in (display c) (url_prefix l d r.version))
    from none q = unfold url in rw (reads.hash, url, reads.version, q) refl
    from (some p) q =
        unfold url in
        rw
          (
            reads.hash,
            url,
            reads.version,
            q,
            reads.top,
            reads.first_block,
            reads.last_block,
            h,
            ← t,
            ← f,
            ← e,
            push_chunk_id_lem (with_slash p) c,
          )
          refl

url_prefix-home :
    (k : KeyLookup) (d : Dataset) (generations : List (ℕ × Text)) (version : ℕ)
    → d.generations ≡ create_generations generations
    → keys_ascend generations ≡ true
    → url_prefix k.lookup_by_key d version ≡ home d.base_url generations version
unfolding url_prefix home
url_prefix-home k d generations version g asc = from (btree_get version generations) refl
  where
    found :
        (generations : List (ℕ × Text)) (u : Text)
        → d.generations ≡ create_generations generations
        → keys_ascend generations ≡ true
        → btree_get version generations ≡ some u
        → get_generation k.lookup_by_key d version ≡ some (version, u)
    found [] u g asc h = unfold btree_get in absurd (cc)
    found (x ∷ entries) u g asc h =
        unfold get_generation create_generations in
        rw g (k.lookup_by_key_finds (x ∷ entries) version u asc h)

    missing :
        (generations : List (ℕ × Text))
        → d.generations ≡ create_generations generations
        → keys_ascend generations ≡ true
        → btree_get version generations ≡ none
        → get_generation k.lookup_by_key d version ≡ none
    missing [] g asc h = unfold get_generation create_generations in rw g refl
    missing (x ∷ entries) g asc h =
        unfold get_generation create_generations in
        rw g (k.lookup_by_key_misses (x ∷ entries) version asc h)

    from :
        (o : Option Text)
        → btree_get version generations ≡ o
        → url_prefix k.lookup_by_key d version ≡ home d.base_url generations version
    from none h = rw (missing generations g asc h, url_prefix, h) refl
    from (some u) h = rw (found generations u g asc h, url_prefix, h) refl

-- `name` under `base`, with exactly one slash between them: a slash that ends `base` is the one.
abbrev pub Joined : Text → Text → Text → Type 0
Joined base name u =
    (stem : Text) × (u ≡ stem ++ 47 ∷ name)
    × ((base ≡ stem ++ 47 ∷ []) ⊎ ((base ≡ stem) × ((s : Text) → base ≢ s ++ 47 ∷ [])))

-- `segment` is `prefix` without the slashes that it begins with.
abbrev pub Trimmed : Text → Text → Type 0
Trimmed prefix segment =
    (slashes : Text) × (prefix ≡ slashes ++ segment)
    × All (λ c. c ≡ 47) slashes
    × ((s : Text) → segment ≢ 47 ∷ s)

-- Where a chunk of a version lies: at the base url for version 0, under the prefix of its
-- generation for another one, and nowhere where the version has no generation.
abbrev pub Located : Text → List (ℕ × Text) → ℕ → Text → Option Text → Type 0
Located base generations version name none = (version ≢ 0) × (btree_get version generations ≡ none)
Located base generations version name (some u) =
    ((version ≡ 0) × Joined base name u)
    ⊎ ((version ≢ 0)
        × ((prefix : Text) × (segment : Text) × (directory : Text) × (btree_get version generations
              ≡ some prefix)
            × Trimmed prefix segment
            × Joined base segment directory
            × Joined directory name u))

ends_with_slash_stem : (u : Text) → ends_with_slash u ≡ true → (stem : Text) × (u ≡ stem ++ 47 ∷ [])
unfolding ends_with_slash
ends_with_slash_stem [] h = absurd (cc h)
ends_with_slash_stem (c ∷ []) h = ([], let e : c ≡ 47 = ground arith in ap (λ c. c ∷ []) e)
ends_with_slash_stem (c ∷ d ∷ u) h =
    let (stem, e) = ends_with_slash_stem (d ∷ u) h in (c ∷ stem, ap (◌∷◌ c) e)

stem-ends_with_slash : (stem : Text) → ends_with_slash (stem ++ 47 ∷ []) ≡ true
unfolding ends_with_slash
stem-ends_with_slash [] = refl
stem-ends_with_slash (c ∷ []) = refl
stem-ends_with_slash (c ∷ d ∷ stem) = stem-ends_with_slash (d ∷ stem)

with_slash-Joined : (base name : Text) → Joined base name (with_slash base ++ name)
unfolding with_slash
with_slash-Joined base name = elim (Bool-cases (ends_with_slash base)) [
  | inl t ↦
      let (stem, e) = ends_with_slash_stem base t in
      (stem, rw t (ap (λ b. b ++ name) e ∙ append_assoc stem (47 ∷ []) name), inl e)
  | inr f ↦ (
    base,
    rw f (append_assoc base (47 ∷ []) name),
    inr (refl, λ s e. absurd (cc (f, ap ends_with_slash e ∙ stem-ends_with_slash s))),
  )
]

trim_slashes-Trimmed : (prefix : Text) → Trimmed prefix (trim_slashes prefix)
unfolding trim_slashes
trim_slashes-Trimmed [] = ([], refl, tt, λ s e. absurd (cc e))
trim_slashes-Trimmed (c ∷ prefix) = elim (Bool-cases (c == 47)) [
  | inl t ↦
      let same : c ≡ 47 = ground arith in
      let (slashes, e, all, starts) = trim_slashes-Trimmed prefix in
      rw t (c ∷ slashes, ap (◌∷◌ c) e, (same, all), starts)
  | inr f ↦ rw f ([], refl, tt, λ s e. ground (arith, head_of s e))
]
  where
    head_of : (s : Text) → ◌≡◌ {A = Text} (c ∷ prefix) (47 ∷ s) → c ≡ 47
    head_of s e = cc

chunk_in-Located :
    (base name : Text) (generations : List (ℕ × Text)) (version : ℕ)
    → Located base generations version name (chunk_in name (home base generations version))
unfolding home push_segment
chunk_in-Located base name generations version = elim (Bool-cases (version == 0)) [
  | inl t ↦ rw t (inl (ground arith, with_slash-Joined base name))
  | inr f ↦
      let versioned : version ≢ 0 = ground arith in
      rw f (from versioned (btree_get version generations) refl)
]
  where
    from :
        version ≢ 0
        → (o : Option Text) → btree_get version generations ≡ o
        → Located base generations version name (
            chunk_in name (elim o [
              | none ↦ none
              | some prefix ↦ some (with_slash base ++ trim_slashes prefix)
            ]))
    from n none e = (n, e)
    from n (some prefix) e = inr (
      n,
      (
        prefix,
        trim_slashes prefix,
        with_slash base ++ trim_slashes prefix,
        e,
        trim_slashes-Trimmed prefix,
        with_slash-Joined base (trim_slashes prefix),
        with_slash-Joined (with_slash base ++ trim_slashes prefix) name,
      ),
    )

-- A chunk that was staged under an id that `DataChunk::new` made, and is read back at an index as
-- it was staged, has that id there, as `Display` prints it. Its url is never a panic: where the
-- dataset's generations are the builder's, in ascending order of their versions, it is the id
-- joined by one slash to the dataset's base url for version 0, and for another one to that base
-- url joined by one slash to the generation's, less the slashes that this begins with; and it is
-- nothing where the version has no generation.
pub chunk_named :
    {P E : Type 0} (k : KeyLookup) (b : Builder P E) (c : ChunkBuilder) (d : Dataset) (i : ℕ)
    (r : Row)
    → (a : Accepted b c r.chunk) → (top first_block last_block : ℕ) (hash : Text)
    → DataChunk.new top first_block last_block hash ≡ some a.id
    → ReadsAs d i r
    → d.generations ≡ create_generations b.current_generations
    → keys_ascend b.current_generations ≡ true
    → (id d i ≡ some (display a.id))
      × (o : Option Text) × (url k.lookup_by_key d i ≡ some o)
      × Located d.base_url b.current_generations r.version (display a.id) o
chunk_named k b c d i r a top first_block last_block hash made reads g asc =
    let names : (a.id.top ≡ r.top)
        × (a.id.first_block ≡ r.range_start)
        × (a.id.last_block ≡ r.range_end) =
      (sym a.top_named, a.start_named, a.end_named) in
    let same : trim_nul r.hash ≡ last_hash a.id =
      ap trim_nul a.hash_named ∙ hash_of_id top first_block last_block hash a.id made in
    (
      id_of_row d i r a.id reads names same,
      chunk_in (display a.id) (home d.base_url b.current_generations r.version),
      url_of_row k.lookup_by_key d i r a.id reads names same
          ∙ ap (λ p. some (chunk_in (display a.id) p))
              (url_prefix-home k d b.current_generations r.version g asc),
      chunk_in-Located d.base_url (display a.id) b.current_generations r.version,
    )
