-- ===== src/DataChunk.antt =====
-- crates/data-chunk: chunk identifiers `top/first_block-last_block-hash`.
pub mod Hash
pub mod RoundTrip
use sqd_network.Base.{
  ℕ, ◌-◌, Bool, true, false, ◌&&◌, ◌||◌, Option, none, some, [], ◌∷◌, ◌++◌, length, replicate, leb,
  ◌==◌, if◌then◌else◌,
}
use sqd_network.Base.Text.{Text}
use sqd_network.Base.Decimal.{padded, parse_u64}

pub record DataChunk : Type 0 where
  pub top : ℕ
  pub first_block : ℕ
  pub last_block : ℕ
  -- Eight bytes, NUL-padded.
  pub last_hash_bytes : Text

-- `b.is_ascii_alphanumeric() || b == b'_'`.
unfoldable pub is_word : ℕ → Bool
is_word b =
    (leb 48 b && leb b 57) || ((leb 65 b && leb b 90) || ((leb 97 b && leb b 122) || b == 95))

unfoldable pub all_word : Text → Bool
unfolding is_word
all_word [] = true
all_word (b ∷ s) = is_word b && all_word s

-- `hash[..len].copy_from_slice(..)` into eight zeros.
unfoldable pub pad_hash : Text → Text
pad_hash s = s ++ replicate (8 - length s) 0

-- `DataChunk::new`.
unfoldable pub new : ℕ → ℕ → ℕ → Text → Option DataChunk
new top first_block last_block last_hash =
    let valid_hash = (leb 5 (length last_hash) && leb (length last_hash) 8) && all_word last_hash in
    if valid_hash && (leb top first_block && leb first_block last_block)
    then some (record {
      top = top;
      first_block = first_block;
      last_block = last_block;
      last_hash_bytes = pad_hash last_hash;
    })
    else none

-- The bytes before the first NUL.
unfoldable pub trim_nul : Text → Text
trim_nul [] = []
trim_nul (b ∷ s) = if b == 0 then [] else b ∷ trim_nul s

-- `DataChunk::last_hash`.
unfoldable pub last_hash : DataChunk → Text
unfolding trim_nul
last_hash c = trim_nul c.last_hash_bytes

-- `Display`: `{:010}/{:010}-{:010}-{}`; 47 is `/` and 45 is `-`.
unfoldable pub display : DataChunk → Text
unfolding last_hash
display c =
    padded c.top ++ 47 ∷ (padded c.first_block ++ 45 ∷ (padded c.last_block ++ 45 ∷ last_hash c))

-- `split_once`: what stands before the first `sep`, and what stands after it.
unfoldable pub split_once : ℕ → Text → Option (Text × Text)
split_once sep [] = none
split_once sep (c ∷ s) =
    let rest : Option (Text × Text) = elim (split_once sep s) [
      | none ↦ none
      | some (a, b) ↦ some (c ∷ a, b)
    ] in
    if c == sep then some ([], s) else rest

-- `FromStr`. `splitn(3, '-')` with three parts present is two splits at the first `-`.
unfoldable pub from_str : Text → Option DataChunk
unfolding split_once new
from_str s = elim (split_once 47 s) [
  | none ↦ none
  | some (top, range) ↦ elim (split_once 45 range) [
    | none ↦ none
    | some (first, rest) ↦ elim (split_once 45 rest) [
      | none ↦ none
      | some (last, hash) ↦ elim (parse_u64 top) [
        | none ↦ none
        | some t ↦ elim (parse_u64 first) [
          | none ↦ none
          | some f ↦ elim (parse_u64 last) [ none ↦ none | some l ↦ new t f l hash ]
        ]
      ]
    ]
  ]
]
