-- ===== src/Messages/Range.antt =====
-- crates/messages/src/range.rs: sets of block ranges.
pub mod Merging
pub mod Lookup
pub mod Inclusion
use sqd_network.Base.{
  ℕ, ◌+◌, ◌%◌, max, Bool, true, false, ◌&&◌, ◌||◌, Option, none, some, Ordering, List, [], ◌∷◌,
  ◌++◌, length, get_elem?, Outcome, ok, err, panic, ◌>>=◌, ltb, leb, ◌==◌, if◌then◌else◌, u64_mod,
}

pub record Range : Type 0 where
  pub begin : ℕ
  pub end : ℕ

-- `Range::new`, whose `assert!` is the panic.
unfoldable pub new : ℕ → ℕ → Outcome (Unit {0}) Range
new begin end = if leb begin end then ok (record { begin = begin; end = end }) else panic

-- The derived order: by begin, then by end.
unfoldable pub range_le : Range → Range → Bool
range_le a b = ltb a.begin b.begin || (a.begin == b.begin && leb a.end b.end)

-- `sort`.
unfoldable pub insert_sorted : Range → List Range → List Range
insert_sorted r [] = r ∷ []
insert_sorted r (s ∷ rs) = if range_le r s then r ∷ s ∷ rs else s ∷ insert_sorted r rs

unfoldable pub sort : List Range → List Range
unfolding insert_sorted
sort [] = []
sort (r ∷ rs) = insert_sorted r (sort rs)

-- The loop of `extend`. It writes at `pi` and reads at a later `i`, so what is left to read is a list
-- of its own; `p` is `ranges[pi]`, and the written prefix is the result. `p.end + 1` wraps at 64 bits.
unfoldable pub merge_from : Range → List Range → Outcome (Unit {0}) (List Range)
unfolding new
merge_from p [] = ok (p ∷ [])
merge_from p (c ∷ cs) =
    if ltb ((p.end + 1) % u64_mod) c.begin
    then (do rest ← merge_from c cs; ok (p ∷ rest))
    else elim (new p.begin (max c.end p.end)) [
      | ok q ↦ merge_from q cs
      | err e ↦ err e
      | panic ↦ panic
    ]

unfoldable pub merge_sorted : List Range → Outcome (Unit {0}) (List Range)
unfolding merge_from
merge_sorted [] = ok []
merge_sorted (p ∷ cs) = merge_from p cs

-- `Extend::extend`, and with it `From`, which extends the empty set.
unfoldable pub extend : List Range → List Range → Outcome (Unit {0}) (List Range)
unfolding sort merge_sorted
extend ranges iter = merge_sorted (sort (ranges ++ iter))

unfoldable pub contains : Range → ℕ → Bool
contains r point = leb r.begin point && leb point r.end

-- Some range holds the point.
unfoldable pub covered : List Range → ℕ → Bool
unfolding contains
covered [] point = false
covered (r ∷ rs) point = contains r point || covered rs point

-- What the closure of `containing_range` answers at an index.
unfoldable pub compare_at : List Range → ℕ → ℕ → Ordering
compare_at ranges point i = elim (get_elem? ranges i) [
  | none ↦ Ordering.gt
  | some r ↦
      if ltb point r.begin
      then Ordering.gt
      else if ltb r.end point
      then Ordering.lt
      else Ordering.eq
]

-- `binary_search_by` is the standard library's: `search len cmp` is its `ok()`.
module _ (search : ℕ → (ℕ → Ordering) → Option ℕ) where
  unfoldable pub containing_range : List Range → ℕ → Option ℕ
  containing_range ranges point = search (length ranges) (compare_at ranges point)

  unfoldable pub has : List Range → ℕ → Bool
  has ranges point = elim (containing_range ranges point) [ none ↦ false | some _ ↦ true ]

  unfoldable pub find_containing_range : List Range → ℕ → Option Range
  find_containing_range ranges point = elim (containing_range ranges point) [
    | none ↦ none
    | some i ↦ get_elem? ranges i
  ]

  unfoldable pub includes : List Range → Range → Bool
  includes ranges range = elim (find_containing_range ranges range.begin) [
    | none ↦ false
    | some c ↦ leb range.end c.end
  ]
