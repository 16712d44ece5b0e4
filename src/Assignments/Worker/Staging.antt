-- ===== src/Assignments/Worker/Staging.antt =====
-- `WorkerAssignmentChunkBuilder::finish`, and the registrations that it checks against: write
-- schemas and generations (crates/assignments/src/builder.rs).
use sqd_network.Base.{
  ℕ, ◌≡◌, ◌⊎◌, refl, sym, ap, ◌∙◌, Bool, true, false, ◌&&◌, Option, none, some, List, [], ◌∷◌, ok,
  err, panic, ◌==◌, if◌then◌else◌, arith, inl, inr, Bool-cases, Option-cases,
}
use sqd_network.Base.Text.{Text, text_eq, text_lt}
use sqd_network.DataChunk.{DataChunk, pad_hash, last_hash}
use sqd_network.Assignments.Columns.{AssignError}
use sqd_network.Assignments.Worker.{Builder, PushChunk, Res, push_chunk, btree_get, btree_insert}

-- `is_sorted_by(|a, b| a < b)`.
unfoldable pub is_ascending : List Text → Bool
is_ascending [] = true
is_ascending (a ∷ []) = true
is_ascending (a ∷ b ∷ ts) = text_lt a b && is_ascending (b ∷ ts)

unfoldable pub same_texts : List Text → List Text → Bool
same_texts [] [] = true
same_texts [] (b ∷ ts) = false
same_texts (a ∷ ss) [] = false
same_texts (a ∷ ss) (b ∷ ts) = text_eq a b && same_texts ss ts

-- `WorkerAssignmentChunkBuilder`.
pub record ChunkBuilder : Type 0 where
  pub block_range : Option (ℕ × ℕ)
  pub id : Option DataChunk
  pub size : Option ℕ
  pub version : ℕ
  pub write_schema_id : Option ℕ
  pub tables_present : Option ℕ

-- The schema that the staged bitmap was encoded against is the declared one.
unfoldable pub bitmap_matches : Option ℕ → ℕ → Bool
bitmap_matches none schema = true
bitmap_matches (some encoded) schema = encoded == schema

abbrev pub is_some {ℓ} : {A : Type ℓ} → Option A → Bool
is_some none = false
is_some (some _) = true

-- `chunk_hash`.
unfoldable pub chunk_hash : DataChunk → Text
chunk_hash id = pad_hash (last_hash id)

module _ {P E : Type 0} where
  -- `register_write_schema`.
  unfoldable pub register_write_schema : Builder P E → ℕ → List Text → Builder P E × Res
  register_write_schema b schema tables =
      if is_ascending tables
      then elim (btree_get schema b.write_schemas) [
        | some registered ↦
            if same_texts registered tables then (b, ok tt) else (b, err AssignError.roster_changed)
        | none ↦ (record b { write_schemas = btree_insert schema tables b.write_schemas }, ok tt)
      ]
      else (b, err AssignError.roster_not_sorted)

  -- `register_generation`.
  unfoldable pub register_generation : Builder P E → ℕ → Text → Builder P E × Res
  register_generation b version base_url =
      if version == 0
      then (b, err AssignError.version_zero)
      else elim (btree_get version b.current_generations) [
        | some existing ↦
            if text_eq existing base_url
            then (b, ok tt)
            else (b, err AssignError.generation_changed)
        | none ↦ (
          record b { current_generations = btree_insert version base_url b.current_generations },
          ok tt,
        )
      ]

  -- `new_chunk`.
  unfoldable pub new_chunk : Builder P E → Builder P E
  new_chunk b = record b { staged_worker_indexes = []; staged_tables_present = [] }

  -- The checks of `finish` after the id's, and the push.
  unfoldable pub finish_checked : Builder P E → ChunkBuilder → DataChunk → ℕ → ℕ → Builder P E × Res
  finish_checked b c id start end = elim c.write_schema_id [
    | none ↦ (b, err AssignError.schema_unset)
    | some schema ↦
        if is_some (btree_get schema b.write_schemas)
        then (if (if c.version == 0
              then true
              else is_some (btree_get c.version b.current_generations))
            then (if bitmap_matches c.tables_present schema
                then elim c.size [
                  | none ↦ (b, panic)
                  | some size ↦ push_chunk b (record {
                    top = id.top;
                    range_start = start;
                    range_end = end;
                    hash = chunk_hash id;
                    size = size;
                    write_schema_id = schema;
                    version = c.version;
                  })
                ]
                else (b, err AssignError.bitmap_schema_mismatch))
            else (b, err AssignError.generation_unregistered))
        else (b, err AssignError.schema_unregistered)
  ]

  -- `WorkerAssignmentChunkBuilder::finish`.
  unfoldable pub finish_chunk : Builder P E → ChunkBuilder → Builder P E × Res
  finish_chunk b c = elim c.block_range [
    | none ↦ (b, panic)
    | some (start, end) ↦ elim c.id [
      | none ↦ (b, err AssignError.id_unset)
      | some id ↦
          if id.first_block == start && id.last_block == end
          then finish_checked b c id start end
          else (b, err AssignError.id_mismatch)
    ]
  ]

  -- A chunk that `finish` takes: its id names the blocks of its range, its schema is registered, a
  -- version other than 0 has a generation, and it is pushed with the id's top and hash.
  pub record Accepted (b : Builder P E) (c : ChunkBuilder) (chunk : PushChunk) : Type 0 where
    pub id : DataChunk
    pub id_set : c.id ≡ some id
    pub start_named : id.first_block ≡ chunk.range_start
    pub end_named : id.last_block ≡ chunk.range_end
    pub range_set : c.block_range ≡ some (chunk.range_start, chunk.range_end)
    pub top_named : chunk.top ≡ id.top
    pub hash_named : chunk.hash ≡ chunk_hash id
    pub size_set : c.size ≡ some chunk.size
    pub schema_set : c.write_schema_id ≡ some chunk.write_schema_id
    pub schema_registered : is_some (btree_get chunk.write_schema_id b.write_schemas) ≡ true
    pub version_set : chunk.version ≡ c.version
    pub generation_registered :
        (c.version ≡ 0) ⊎ (is_some (btree_get c.version b.current_generations) ≡ true)
    pub bitmap_for_schema : bitmap_matches c.tables_present chunk.write_schema_id ≡ true

  finish_checked-Accepted :
      (b : Builder P E) (c : ChunkBuilder) (id : DataChunk) (start end : ℕ)
      → c.id ≡ some id
      → c.block_range ≡ some (start, end)
      → id.first_block ≡ start
      → id.last_block ≡ end
      → (finish_checked b c id start end).1 ≡ ok tt
      → (chunk : PushChunk) × Accepted b c chunk
        × (finish_checked b c id start end ≡ push_chunk b chunk)
  unfolding finish_checked
  finish_checked-Accepted b c id start end i r s e h = elim (Option-cases c.write_schema_id) [
    | inl n ↦ absurd (ground arith)
    | inr (schema, w) ↦ elim (Option-cases c.size) [
      | inl n ↦ absurd (ground arith)
      | inr (size, z) ↦
          let chunk : PushChunk = record {
            top = id.top;
            range_start = start;
            range_end = end;
            hash = chunk_hash id;
            size = size;
            write_schema_id = schema;
            version = c.version;
          } in
          (
            chunk,
            record {
              id = id;
              id_set = i;
              start_named = s;
              end_named = e;
              range_set = r;
              top_named = refl;
              hash_named = refl;
              size_set = z;
              schema_set = w;
              schema_registered = ground arith;
              version_set = refl;
              generation_registered = ground arith;
              bitmap_for_schema = ground arith;
            },
            ground arith,
          )
    ]
  ]

  -- Where `finish` succeeds, its chunk was `Accepted`, and what it did is `push_chunk` of that chunk.
  pub finish_chunk_accepts :
      (b : Builder P E) (c : ChunkBuilder)
      → (finish_chunk b c).1 ≡ ok tt
      → (chunk : PushChunk) × Accepted b c chunk × (finish_chunk b c ≡ push_chunk b chunk)
  unfolding finish_chunk
  finish_chunk_accepts b c h = elim (Option-cases c.block_range) [
    | inl n ↦ absurd (ground arith)
    | inr ((start, end), r) ↦ elim (Option-cases c.id) [
      | inl n ↦ absurd (ground arith)
      | inr (id, i) ↦ elim (Bool-cases (id.first_block == start && id.last_block == end)) [
        | inl t ↦
            let same : finish_chunk b c ≡ finish_checked b c id start end = ground arith in
            let (chunk, a, e) =
              finish_checked-Accepted b c id start end i r (ground arith) (ground arith)
                (ap (λ p. p.1) (sym same) ∙ h) in
            (chunk, a, same ∙ e)
        | inr f ↦ absurd (ground arith)
      ]
    ]
  ]
