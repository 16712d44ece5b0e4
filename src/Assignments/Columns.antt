-- ===== src/Assignments/Columns.antt =====
-- What the worker and the portal format share (crates/assignments/src/builder.rs and reader.rs): top
-- runs, slices cut by their ends, and the checks on them.
pub mod Runs
pub mod Slices
pub mod Checks
use sqd_network.Base.{
  ℕ, zero, suc, ◌+◌, ◌-◌, ◌%◌, Bool, true, false, Option, none, some, List, [], ◌∷◌, ◌++◌, length,
  get_elem?, take, drop, Outcome, ok, err, ltb, leb, ◌==◌, if◌then◌else◌, min, u64_mod,
}
use sqd_network.Assignments.Search.{partition_point}

-- `assignment_fb::TopRun`.
pub record TopRun : Type 0 where
  pub first_chunk_index : ℕ
  pub top : ℕ

-- Why a builder refuses; `InvalidAssignment::Columns` is `columns`.
pub data AssignError : Type 0 where
  not_contiguous too_many_chunks chunk_too_long too_many_worker_refs : AssignError
  no_chunks no_top_run first_run_not_at_zero runs_not_ascending : AssignError
  id_unset id_mismatch schema_unset schema_unregistered generation_unregistered : AssignError
  bitmap_schema_mismatch roster_not_sorted roster_changed : AssignError
  version_zero generation_changed table_absent : AssignError

-- `Vec::push`.
abbrev pub push {ℓ} : {A : Type ℓ} → List A → A → List A
push xs x = xs ++ x ∷ []

-- The bounds test of a run against its successor, over `runs.windows(2)`.
unfoldable pub ascend_from : ℕ → List TopRun → Bool
ascend_from i [] = true
ascend_from i (r ∷ runs) =
    let rest = ascend_from r.first_chunk_index runs in
    if ltb i r.first_chunk_index then rest else false

-- `check_top_runs`.
unfoldable pub check_top_runs : List TopRun → Outcome AssignError (Unit {0})
unfolding ascend_from
check_top_runs [] = err AssignError.no_top_run
check_top_runs (first ∷ runs) =
    if first.first_chunk_index == 0
    then (if ascend_from first.first_chunk_index runs
        then ok tt
        else err AssignError.runs_not_ascending)
    else err AssignError.first_run_not_at_zero

-- `tops.last()`.
unfoldable pub last_run : List TopRun → Option TopRun
last_run [] = none
last_run (r ∷ []) = some r
last_run (r ∷ s ∷ runs) = last_run (s ∷ runs)

-- Appends a run only when the top differs from the previous chunk's.
unfoldable pub push_top : List TopRun → ℕ → ℕ → List TopRun
unfolding last_run
push_top tops index top = elim (last_run tops) [
  | none ↦ push tops (record { first_chunk_index = index; top = top })
  | some run ↦
      if run.top == top then tops else push tops (record { first_chunk_index = index; top = top })
]

-- `tops.get(i).first_chunk_index() <= index`; the search stays below the length.
unfoldable pub starts_by : List TopRun → ℕ → ℕ → Bool
starts_by tops index i = elim (get_elem? tops i) [
  | none ↦ false
  | some run ↦ leb run.first_chunk_index index
]

-- `top_at`: the last run starting at or before `index`.
unfoldable pub top_at : List TopRun → ℕ → Option ℕ
unfolding starts_by partition_point
top_at tops index = elim (partition_point (length tops) (starts_by tops index)) [
  | zero ↦ none
  | suc i ↦ elim (get_elem? tops i) [ none ↦ none | some run ↦ some run.top ]
]

-- The entries of `values` from `start` up to `end`, where both are in range.
abbrev pub slice {ℓ} : {A : Type ℓ} → List A → ℕ → ℕ → List A
slice values start end = take (end - start) (drop start values)

-- `end - start` on `u64`.
abbrev pub sub_u64 : ℕ → ℕ → ℕ
sub_u64 a b = (a + u64_mod - b) % u64_mod
