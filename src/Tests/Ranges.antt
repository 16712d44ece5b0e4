-- ===== src/Tests/Ranges.antt =====
-- Range sets of crates/messages/src/range.rs on small inputs.
use sqd_network.Base.{ℕ, ◌≤◌, ◌≡◌, ◌↔◌, refl, true, ◌||◌, List, [], ◌∷◌, ok, arith}
use sqd_network.Assignments.Search.{lookup_index_by_key}
use sqd_network.Assignments.Search.Keyed.{lookup_index_by_key-Answers}
use sqd_network.Messages.Range.{Range, range_le, covered, extend, has, includes}
use sqd_network.Messages.Range.Merging.{IsSeparated, extend-IsSeparated}
use sqd_network.Messages.Range.Lookup.{Searches, has-eq-covered}
use sqd_network.Messages.Range.Inclusion.{includes_iff}

abbrev set : List Range
set = record { begin = 2; end = 4 } ∷ record { begin = 7; end = 9 } ∷ []

abbrev added : List Range
added =
    record { begin = 5; end = 5 }
    ∷ record { begin = 20; end = 30 }
    ∷ record { begin = 22; end = 23 }
    ∷ []

extend-IsSeparated_example :
    (rs : List Range) × (extend set added ≡ ok rs)
    × IsSeparated rs
    × ((x : ℕ) → covered rs x ≡ covered set x || covered added x)
extend-IsSeparated_example = extend-IsSeparated set added (omega arith) (omega arith)

-- Touching ranges become one.
extend_runs :
    extend set added
    ≡ ok (
        record { begin = 2; end = 5 }
        ∷ record { begin = 7; end = 9 }
        ∷ record { begin = 20; end = 30 }
        ∷ [])
unfolding extend range_le
extend_runs = refl

separated : IsSeparated set
separated = omega arith

searches : Searches lookup_index_by_key
searches = lookup_index_by_key-Answers

has-eq-covered_example : has lookup_index_by_key set 8 ≡ covered set 8
has-eq-covered_example = has-eq-covered lookup_index_by_key searches set 8 separated

abbrev asked : Range
asked = record { begin = 7; end = 8 }

includes_iff_example :
    (includes lookup_index_by_key set asked ≡ true)
    ↔ ((x : ℕ) → 7 ≤ x → x ≤ 8 → covered set x ≡ true)
includes_iff_example = includes_iff lookup_index_by_key searches set asked separated (omega arith)
