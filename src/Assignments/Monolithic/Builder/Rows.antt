-- ===== src/Assignments/Monolithic/Builder/Rows.antt =====
-- Chunks that the builder of the format of one file takes one after another.
use sqd_network.Base.{
  ℕ, ◌+◌, ◌≤◌, ◌<◌, ◌≡◌, refl, sym, ap, ◌∙◌, Option, none, some, List, [], ◌∷◌, ◌++◌, map,
  append-nil, append_assoc, ok, err, panic, arith, u64_mod,
}
use sqd_network.Assignments.Columns.{push}
use sqd_network.Assignments.Worker.{Res, continuity}
use sqd_network.Assignments.Portal.Rows
use sqd_network.Assignments.Portal.Emission.{Continues, last_end}
use sqd_network.Assignments.Monolithic.{Chunk}
use sqd_network.Assignments.Monolithic.Builder.{
  Builder, ChunkBuilder, create_chunk, expect, add_chunk, finish_chunk,
}

-- A chunk to be staged, and where its block range ends.
pub record Row : Type 0 where
  pub chunk : Chunk
  pub range_end : ℕ

-- The chunk builder once every setter was called.
abbrev pub builder_of : Row → ChunkBuilder
builder_of r = record {
  block_range = some (r.chunk.first_block, r.range_end);
  id = some r.chunk.id;
  dataset_id = some r.chunk.dataset_id;
  size = some r.chunk.size;
  last_block_hash = r.chunk.last_block_hash;
  last_block_timestamp = r.chunk.last_block_timestamp;
  dataset_base_url = some r.chunk.dataset_base_url;
  files = some r.chunk.files;
  worker_indexes = some r.chunk.worker_indexes;
}

-- The chunk as it is written: its own url is its id.
abbrev pub written : Row → Chunk
written r = record r.chunk { base_url = r.chunk.id }

-- A block range as a row of the other formats, whose lemmas serve here.
abbrev pub as_row : Row → Rows.Row
as_row r = record {
  chunk = record {
    top = 0;
    range_start = r.chunk.first_block;
    range_end = r.range_end;
    hash = [];
    version = 0;
    timestamp = 0;
  };
  workers = [];
}

abbrev pub IsRange : Row → Type 0
IsRange r = (r.chunk.first_block ≤ r.range_end) × (r.range_end + 1 < u64_mod)

module _ {P : Type 0} where
  -- Chunks staged one after another; `none` once one is refused.
  unfoldable pub stage_all : Builder P → List Row → Option (Builder P)
  stage_all b [] = some b
  stage_all b (r ∷ rows) =
      let next = finish_chunk b (builder_of r) in
      let rest = stage_all next.0 rows in elim next.1 [ ok _ ↦ rest | err _ ↦ none | panic ↦ none ]

  -- The builder with a chunk that it took.
  abbrev taken : Builder P → Row → Builder P
  taken b r = record b {
    all_chunks = push b.all_chunks (written r);
    last_block = some r.range_end;
    current_chunks = push b.current_chunks (written r);
    current_dataset_id_offset = some r.chunk.dataset_id;
  }

  finish_chunk_takes :
      (b : Builder P) (r : Row)
      → (finish_chunk b (builder_of r)).1 ≡ ok tt
      → (continuity b.last_block r.chunk.first_block ≡ ok tt)
        × ((finish_chunk b (builder_of r)).0 ≡ taken b r)
  unfolding finish_chunk create_chunk expect add_chunk
  finish_chunk_takes b r h = from (continuity b.last_block r.chunk.first_block) refl
    where
      from :
          (c : Res)
          → continuity b.last_block r.chunk.first_block ≡ c
          → (continuity b.last_block r.chunk.first_block ≡ ok tt)
            × ((finish_chunk b (builder_of r)).0 ≡ taken b r)
      from (ok tt) e = (e, ground (arith, e))
      from (err x) e = absurd (ground (arith, e))
      from panic e = absurd (ground (arith, e))

  stage_all_step :
      (b b' : Builder P) (r : Row) (rows : List Row)
      → stage_all b (r ∷ rows) ≡ some b'
      → (continuity b.last_block r.chunk.first_block ≡ ok tt)
        × (stage_all (taken b r) rows ≡ some b')
  unfolding stage_all
  stage_all_step b b' r rows h = from (finish_chunk b (builder_of r)).1 refl
    where
      from :
          (c : Res)
          → (finish_chunk b (builder_of r)).1 ≡ c
          → (continuity b.last_block r.chunk.first_block ≡ ok tt)
            × (stage_all (taken b r) rows ≡ some b')
      from (ok tt) e =
          let (goes, same) = finish_chunk_takes b r e in
          (goes, ap (λ x. stage_all x rows) (sym same) ∙ ground (arith, e))
      from (err x) e = absurd (ground (arith, e))
      from panic e = absurd (ground (arith, e))

  pub record Staged (b b' : Builder P) (rows : List Row) : Type 0 where
    pub chunks : b'.current_chunks ≡ b.current_chunks ++ map written rows
    pub last : b'.last_block ≡ last_end b.last_block (map as_row rows)
    pub goes : Continues b.last_block (map as_row rows)
    pub datasets : b'.all_datasets ≡ b.all_datasets

  pub stage_all-Staged :
      (rows : List Row) (b b' : Builder P) → stage_all b rows ≡ some b' → Staged b b' rows
  unfolding stage_all last_end
  stage_all-Staged [] b b' h =
      let e : b ≡ b' = cc in
      rw (← e) record {
        chunks = sym (append-nil b.current_chunks);
        last = refl;
        goes = tt;
        datasets = refl;
      }
  stage_all-Staged (r ∷ rows) b b' h =
      let (go, more) = stage_all_step b b' r rows h in
      let rest = stage_all-Staged rows (taken b r) b' more in
      record {
        chunks = rest.chunks ∙ append_assoc b.current_chunks (written r ∷ []) (map written rows);
        last = rest.last;
        goes = (go, rest.goes);
        datasets = rest.datasets;
      }
