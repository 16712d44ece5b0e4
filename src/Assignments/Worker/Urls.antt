-- ===== src/Assignments/Worker/Urls.antt =====
-- `WorkerChunk::id` and `url`, with `get_generation` and `push_segment`
-- (crates/assignments/src/reader.rs and src/assignment_fb.rs). `lookup_by_key` of the flatbuffers
-- crate is a parameter. The outer option of a result is a panic where it is `none`, as in
-- `Reader`.
pub mod Naming
use sqd_network.Base.{
  ℕ, ◌≡◌, Bool, true, false, Option, none, some, List, [], ◌∷◌, ◌++◌, ◌==◌, if◌then◌else◌,
}
use sqd_network.Base.Text.{Text}
use sqd_network.Assignments.Ids.{push_chunk_id}
use sqd_network.Assignments.Worker.{Dataset}
use sqd_network.Assignments.Worker.Reader

-- `url.ends_with('/')`, where 47 is the slash.
unfoldable pub ends_with_slash : Text → Bool
ends_with_slash [] = false
ends_with_slash (c ∷ []) = c == 47
ends_with_slash (c ∷ d ∷ url) = ends_with_slash (d ∷ url)

-- `trim_start_matches('/')`.
unfoldable pub trim_slashes : Text → Text
trim_slashes [] = []
trim_slashes (c ∷ segment) = if c == 47 then trim_slashes segment else c ∷ segment

-- `if !url.ends_with('/') { url.push('/') }`.
unfoldable pub with_slash : Text → Text
with_slash url = if ends_with_slash url then url else url ++ 47 ∷ []

-- `push_segment`.
unfoldable pub push_segment : Text → Text → Text
push_segment url segment = with_slash url ++ trim_slashes segment

-- `id`.
unfoldable pub id : Dataset → ℕ → Option Text
id d i = elim (Reader.hash d i) [
  | none ↦ none
  | some hash ↦ elim (Reader.top d i) [
    | none ↦ none
    | some top ↦ elim (Reader.first_block d i) [
      | none ↦ none
      | some first_block ↦ elim (Reader.last_block d i) [
        | none ↦ none
        | some last_block ↦ push_chunk_id [] top first_block last_block hash
      ]
    ]
  ]
]

module _ (lookup_by_key : List (ℕ × Text) → ℕ → Option (ℕ × Text)) where
  -- `get_generation`.
  unfoldable pub get_generation : Dataset → ℕ → Option (ℕ × Text)
  get_generation d version = elim d.generations [
    | none ↦ none
    | some generations ↦ lookup_by_key generations version
  ]

  -- The part of `url` before the chunk's id.
  unfoldable pub url_prefix : Dataset → ℕ → Option Text
  url_prefix d version = if version == 0 then some d.base_url else elim (get_generation d version) [
    | none ↦ none
    | some generation ↦ some (push_segment d.base_url generation.1)
  ]

  -- `url`.
  unfoldable pub url : Dataset → ℕ → Option (Option Text)
  url d i = elim (Reader.hash d i) [
    | none ↦ none
    | some hash ↦ elim (Reader.version d i) [
      | none ↦ none
      | some version ↦ elim (url_prefix d version) [
        | none ↦ some none
        | some prefix ↦ elim (Reader.top d i) [
          | none ↦ none
          | some top ↦ elim (Reader.first_block d i) [
            | none ↦ none
            | some first_block ↦ elim (Reader.last_block d i) [
              | none ↦ none
              | some last_block ↦
                  elim (push_chunk_id (with_slash prefix) top first_block last_block hash) [
                    | none ↦ none
                    | some named ↦ some (some named)
                  ]
            ]
          ]
        ]
      ]
    ]
  ]
