-- ===== src/Tests/Loading.antt =====
-- The columns of a dataset of two chunks, checked on load.
use sqd_network.Base.{ℕ, ◌≡◌, refl, Option, none, some, List, [], ◌∷◌, ok, err}
use sqd_network.Base.Text.{Text}
use sqd_network.Assignments.Columns.Checks.{check_columns}

abbrev dense : List (Text × ℕ)
dense = ([], 2) ∷ (1 ∷ [], 2) ∷ []

abbrev runs : List (Text × Option ℕ)
runs = (2 ∷ [], some 0) ∷ []

loading_runs :
    (check_columns 2 dense runs ≡ ok tt) × (check_columns 2 dense ((2 ∷ [], none) ∷ []) ≡ err tt)
unfolding check_columns
loading_runs = (refl, refl)
