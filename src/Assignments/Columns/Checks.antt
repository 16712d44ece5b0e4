-- ===== src/Assignments/Columns/Checks.antt =====
-- `check_columns` (crates/assignments/src/reader.rs): what a reader verifies of a dataset on load. Its
-- error, `InvalidAssignment::Columns`, is without its text.
use sqd_network.Base.{
  ℕ, ◌≡◌, ◌↔◌, refl, Option, none, some, List, [], ◌∷◌, Outcome, ok, err, All, ◌==◌, if◌then◌else◌,
  arith,
}
use sqd_network.Base.Text.{Text}

-- The loop over `runs`.
unfoldable pub check_runs : List (Text × Option ℕ) → Outcome (Unit {0}) (Unit {0})
check_runs [] = ok tt
check_runs ((name, first) ∷ runs) =
    let rest = check_runs runs in
    elim first [ none ↦ err tt | some i ↦ if i == 0 then rest else err tt ]

-- The loop over `dense`, and then the runs.
unfoldable pub check_columns :
    ℕ → List (Text × ℕ) → List (Text × Option ℕ) → Outcome (Unit {0}) (Unit {0})
unfolding check_runs
check_columns chunks [] runs = check_runs runs
check_columns chunks ((name, len) ∷ dense) runs =
    let rest = check_columns chunks dense runs in if len == chunks then rest else err tt

check_runs_iff :
    (runs : List (Text × Option ℕ))
    → (check_runs runs ≡ ok tt) ↔ All (λ (r : Text × Option ℕ). r.1 ≡ some 0) runs
unfolding check_runs
check_runs_iff [] = (λ h. tt, λ a. refl)
check_runs_iff ((name, none) ∷ runs) = (λ h. absurd (cc), λ a. absurd (cc (a.0)))
check_runs_iff ((name, some i) ∷ runs) = (
  λ h. (ground arith, (check_runs_iff runs).0 (ground arith)),
  λ a. ground (arith, a.0, (check_runs_iff runs).1 a.1),
)

-- The check passes exactly if every dense column holds one value for each chunk and every run column
-- begins at chunk 0.
pub check_columns_iff :
    (chunks : ℕ) (dense : List (Text × ℕ)) (runs : List (Text × Option ℕ))
    → (check_columns chunks dense runs ≡ ok tt) ↔ (
        All (λ (c : Text × ℕ). c.1 ≡ chunks) dense
        × All (λ (r : Text × Option ℕ). r.1 ≡ some 0) runs)
unfolding check_columns
check_columns_iff chunks [] runs =
    (λ h. (tt, (check_runs_iff runs).0 h), λ a. (check_runs_iff runs).1 a.1)
check_columns_iff chunks ((name, len) ∷ dense) runs = (
  λ h.
      let (a, b) = (check_columns_iff chunks dense runs).0 (ground arith) in ((ground arith, a), b),
  λ a. ground (arith, a.0.0, (check_columns_iff chunks dense runs).1 (a.0.1, a.1)),
)
