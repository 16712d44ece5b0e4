-- ===== src/Assignments/Ids.antt =====
-- `push_padded` and `push_chunk_id` of crates/assignments/src/reader.rs, which rebuild a chunk's
-- id from its columns without the formatting machinery. `none` is a panic: an index below the
-- array of digits.
pub mod Digits
use sqd_network.Base.{
  ℕ, zero, suc, ◌+◌, ◌/◌, ◌%◌, ◌≡◌, Option, none, some, List, [], ◌∷◌, ◌++◌, replicate, ◌==◌, leb,
  ◌>>=◌, if◌then◌else◌,
}
use sqd_network.Base.Text.{Text}
use sqd_network.Base.Decimal.{decimal}

abbrev pub pad : ℕ
pad = 10000000000

-- `digits[at] = c`, in an array.
unfoldable pub set_digit : Text → ℕ → ℕ → Text
set_digit [] at c = []
set_digit (d ∷ digits) zero c = c ∷ digits
set_digit (d ∷ digits) (suc at) c = d ∷ set_digit digits at c

-- `while rest > 0`, from the right end of the array; it stops at the left end at the latest.
unfoldable pub fill_digits : ℕ → ℕ → Text → Option Text
fill_digits zero rest digits = if rest == 0 then some digits else none
fill_digits (suc at) rest digits =
    let more = fill_digits at (rest / 10) (set_digit digits at (48 + rest % 10)) in
    if rest == 0 then some digits else more

-- `push_padded`.
unfoldable pub push_padded : Text → ℕ → Option Text
push_padded out value =
    if leb pad value
    then some (out ++ decimal value)
    else elim (fill_digits 10 value (replicate 10 48)) [
      | none ↦ none
      | some digits ↦ some (out ++ digits)
    ]

-- `push_chunk_id`.
unfoldable pub push_chunk_id : Text → ℕ → ℕ → ℕ → Text → Option Text
push_chunk_id out top first_block last_block hash = elim (push_padded out top) [
  | none ↦ none
  | some out ↦ elim (push_padded (out ++ 47 ∷ []) first_block) [
    | none ↦ none
    | some out ↦ elim (push_padded (out ++ 45 ∷ []) last_block) [
      | none ↦ none
      | some out ↦ some ((out ++ 45 ∷ []) ++ hash)
    ]
  ]
]
