-- ===== src/Assignments/Worker/Tables.antt =====
-- Which tables a chunk holds: `tables_present` of the chunk builder (crates/assignments/src/builder.rs)
-- encodes them as a bitmap over the roster of its write schema, and `chunk_tables` of the reader
-- (crates/assignments/src/reader.rs) lists them again.
pub mod Selection
use sqd_network.Base.{
  ℕ, zero, suc, ◌+◌, ◌*◌, ◌/◌, ◌≤◌, ◌<◌, ◌≡◌, ◌≢◌, refl, sym, ap, ◌∙◌, Bool, true, false, ◌&&◌,
  ◌||◌, not, Option, none, some, List, [], ◌∷◌, length, length-replicate, replicate, Outcome, ok,
  err, panic, ◌==◌, ltb, if◌then◌else◌, arith, inl, inr, Bool-cases, Option-cases,
}
use sqd_network.Base.Text.{Text, text_eq, text_lt, text_eq_iff}
use sqd_network.Base.Bits.{
  bit_at, set_bit, AreBytes, bit_at-set_bit, set_bit-AreBytes, length-set_bit, replicate-AreBytes,
  bit_at-replicate,
}
use sqd_network.Assignments.Columns.{AssignError}
use sqd_network.Assignments.Worker.{Builder, Res, btree_get}
use sqd_network.Assignments.Worker.Staging.{ChunkBuilder, is_ascending}

-- The roster from `index` on; the cursor only ever moves forward.
abbrev pub Cursor : Type 0
Cursor = ℕ × List Text

-- `while index < roster.len() && roster[index] < name { index += 1 }`.
unfoldable pub skip_to : Text → ℕ → List Text → Cursor
skip_to name index [] = (index, [])
skip_to name index (t ∷ roster) =
    let later = skip_to name (suc index) roster in
    if text_lt t name then later else (index, t ∷ roster)

-- The loop over the tables; a table that is not in the roster ends it, with the bits set so far.
unfoldable pub mark_tables : List Text → ℕ → List Text → List ℕ → List ℕ × Res
unfolding skip_to
mark_tables [] index roster bits = (bits, ok tt)
mark_tables (name ∷ tables) index roster bits =
    let (at, rest) = skip_to name index roster in
    elim rest [
      | [] ↦ (bits, err AssignError.table_absent)
      | t ∷ rest' ↦
          let next = mark_tables tables (suc at) rest' (set_bit bits at) in
          if text_eq t name then next else (bits, err AssignError.table_absent)
    ]

-- `roster.len().div_ceil(8)` zeros.
unfoldable pub no_tables : List Text → List ℕ
no_tables roster = replicate ((length roster + 7) / 8) 0

module _ {P E : Type 0} where
  -- `tables_present`, where the `debug_assert!` on the order is on as `checked`.
  unfoldable pub tables_present :
      Bool → Builder P E → ChunkBuilder → List Text → Builder P E × Outcome AssignError ChunkBuilder
  unfolding mark_tables no_tables
  tables_present checked b c tables =
      if checked && not (is_ascending tables) then (b, panic) else elim c.write_schema_id [
        | none ↦ (b, err AssignError.schema_unset)
        | some schema ↦ elim (btree_get schema b.write_schemas) [
          | none ↦ (b, err AssignError.schema_unregistered)
          | some roster ↦
              let (bits, result) = mark_tables tables 0 roster (no_tables roster) in
              (
                record b { staged_tables_present = bits },
                elim result [
                  | ok _ ↦ ok (record c { tables_present = some schema })
                  | err e ↦ err e
                  | panic ↦ panic
                ],
              )
        ]
      ]

-- `chunk_tables`: the roster without a bitmap, else the tables its bits select.
unfoldable pub select_from : ℕ → List Text → List ℕ → List Text
select_from index [] bits = []
select_from index (t ∷ roster) bits =
    let rest = select_from (suc index) roster bits in if bit_at bits index then t ∷ rest else rest

unfoldable pub chunk_tables : Option (List Text) → Option (List ℕ) → Option (List Text)
unfolding select_from
chunk_tables none bits = none
chunk_tables (some roster) none = some roster
chunk_tables (some roster) (some bits) = some (select_from 0 roster bits)
