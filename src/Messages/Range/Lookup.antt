-- ===== src/Messages/Range/Lookup.antt =====
-- Point and range lookup in a separated set.
use sqd_network.Base.{
  ℕ, zero, suc, ◌+◌, ◌≤◌, ◌<◌, ◌≡◌, ◌≢◌, ◌⊎◌, refl, sym, ◌∙◌, true, false, Option, none, some,
  Ordering, List, [], ◌∷◌, length, get_elem?, arith, inl, inr, lt_or_le, Bool-cases,
}
use sqd_network.Assignments.Search.Keyed.{IsAscending, Answers}
use sqd_network.Messages.Range.{
  Range, contains, covered, compare_at, containing_range, has, find_containing_range,
}
use sqd_network.Messages.Range.Merging.{IsSeparated, SeparatedFrom}

-- A point at or after a range's begin is not in an earlier one, and so on: the closure's answers go
-- from `lt` through `eq` to `gt`.
before_begin :
    (rs : List Range) (lo x : ℕ)
    → SeparatedFrom lo rs
    → x < lo
    → (i : ℕ) → compare_at rs x i ≡ Ordering.gt
unfolding compare_at
before_begin [] lo x s h i = refl
before_begin (r ∷ rs) lo x s h zero = ground arith
before_begin (r ∷ rs) lo x s h (suc i) = before_begin rs (r.end + 2) x s.2 (omega arith) i

compare_at-lt_below :
    (rs : List Range) (lo x : ℕ)
    → SeparatedFrom lo rs
    → (i j : ℕ) → i ≤ j
    → compare_at rs x j ≡ Ordering.lt
    → compare_at rs x i ≡ Ordering.lt
unfolding compare_at
compare_at-lt_below [] lo x s i j le h = h
compare_at-lt_below (r ∷ rs) lo x s zero zero le h = h
compare_at-lt_below (r ∷ rs) lo x s zero (suc j) le h = elim (lt_or_le x (r.end + 2)) [
  | inl low ↦ absurd (cc (before_begin rs (r.end + 2) x s.2 low j, h))
  | inr high ↦ ground arith
]
compare_at-lt_below (r ∷ rs) lo x s (suc i) zero le h = absurd (omega arith)
compare_at-lt_below (r ∷ rs) lo x s (suc i) (suc j) le h =
    compare_at-lt_below rs (r.end + 2) x s.2 i j (omega arith) h

compare_at-gt_above :
    (rs : List Range) (lo x : ℕ)
    → SeparatedFrom lo rs
    → (i j : ℕ) → i ≤ j
    → compare_at rs x i ≡ Ordering.gt
    → compare_at rs x j ≡ Ordering.gt
unfolding compare_at
compare_at-gt_above [] lo x s i j le h = h
compare_at-gt_above (r ∷ rs) lo x s zero zero le h = h
compare_at-gt_above (r ∷ rs) lo x s zero (suc j) le h =
    before_begin rs (r.end + 2) x s.2 (ground arith) j
compare_at-gt_above (r ∷ rs) lo x s (suc i) zero le h = absurd (omega arith)
compare_at-gt_above (r ∷ rs) lo x s (suc i) (suc j) le h =
    compare_at-gt_above rs (r.end + 2) x s.2 i j (omega arith) h

compare_at-IsAscending : (rs : List Range) (x : ℕ) → IsSeparated rs → IsAscending (compare_at rs x)
compare_at-IsAscending rs x s = record {
  lt_below = compare_at-lt_below rs 0 x s;
  gt_above = compare_at-gt_above rs 0 x s;
}

-- An index that compares equal is a range with the point.
compare_at-eq :
    (rs : List Range) (x i : ℕ)
    → compare_at rs x i ≡ Ordering.eq
    → (r : Range) × (get_elem? rs i ≡ some r) × (r.begin ≤ x) × (x ≤ r.end) × (covered rs x ≡ true)
unfolding compare_at covered contains
compare_at-eq [] x i h = absurd (cc)
compare_at-eq (r ∷ rs) x zero h = (r, refl, ground arith, ground arith, ground arith)
compare_at-eq (r ∷ rs) x (suc i) h =
    let (s, at, lo, hi, c) = compare_at-eq rs x i h in (s, at, lo, hi, ground arith)

covered-compare_at :
    (rs : List Range) (x : ℕ)
    → covered rs x ≡ true
    → (i : ℕ) × (i < length rs) × (compare_at rs x i ≡ Ordering.eq)
unfolding compare_at covered
covered-compare_at [] x h = absurd (cc)
covered-compare_at (r ∷ rs) x h = elim (Bool-cases (contains r x)) [
  | inl here ↦ (0, omega arith, unfold contains in ground arith)
  | inr later ↦ let (i, l, e) = covered-compare_at rs x (rw later at h) in (suc i, omega arith, e)
]

-- The standard library's `binary_search_by` on a sorted slice: an index that compares equal, or
-- nothing where none does.
abbrev pub Searches : (ℕ → (ℕ → Ordering) → Option ℕ) → Type 0
Searches search =
    (len : ℕ) (cmp : ℕ → Ordering) → IsAscending cmp → Answers len cmp (search len cmp)

module _ (search : ℕ → (ℕ → Ordering) → Option ℕ) (searches : Searches search) where
  containing_range-Answers :
      (rs : List Range) (x : ℕ)
      → IsSeparated rs
      → Answers (length rs) (compare_at rs x) (containing_range search rs x)
  unfolding containing_range
  containing_range-Answers rs x s =
      searches (length rs) (compare_at rs x) (compare_at-IsAscending rs x s)

  -- In a separated set `has` tells exactly whether some range covers the point.
  pub has-eq-covered : (rs : List Range) (x : ℕ) → IsSeparated rs → has search rs x ≡ covered rs x
  unfolding has
  has-eq-covered rs x s = answer (containing_range search rs x) refl
    where
      answer : (o : Option ℕ) → containing_range search rs x ≡ o → has search rs x ≡ covered rs x
      answer none e =
          let no : (i : ℕ) → i < length rs → compare_at rs x i ≢ Ordering.eq =
            rw e at (containing_range-Answers rs x s) in
          elim (Bool-cases (covered rs x)) [
            | inl c ↦ let (i, l, q) = covered-compare_at rs x c in absurd (no i l q)
            | inr c ↦ rw (e, has, c)
          ]
      answer (some i) e =
          let found : (i < length rs) × (compare_at rs x i ≡ Ordering.eq) =
            rw e at (containing_range-Answers rs x s) in
          let (r, at, lo, hi, c) = compare_at-eq rs x i found.1 in rw (e, has, c)

  -- In a separated set `find_containing_range` returns a range of the set that holds the point, or
  -- nothing exactly where no range covers it.
  pub find_containing_range_lem :
      (rs : List Range) (x : ℕ)
      → IsSeparated rs
      → ((find_containing_range search rs x ≡ none) × (covered rs x ≡ false))
        ⊎ ((r : Range) × (i : ℕ) × (find_containing_range search rs x ≡ some r)
            × (get_elem? rs i ≡ some r)
            × (r.begin ≤ x)
            × (x ≤ r.end))
  unfolding find_containing_range
  find_containing_range_lem rs x s = answer (containing_range search rs x) refl
    where
      answer :
          (o : Option ℕ)
          → containing_range search rs x ≡ o
          → ((find_containing_range search rs x ≡ none) × (covered rs x ≡ false))
            ⊎ ((r : Range) × (i : ℕ) × (find_containing_range search rs x ≡ some r)
                × (get_elem? rs i ≡ some r)
                × (r.begin ≤ x)
                × (x ≤ r.end))
      answer none e =
          inl (
            rw (e, find_containing_range),
            sym (has-eq-covered rs x s) ∙ (unfold has in rw (e, has)),
          )
      answer (some i) e =
          let found : (i < length rs) × (compare_at rs x i ≡ Ordering.eq) =
            rw e at (containing_range-Answers rs x s) in
          let (r, at, lo, hi, c) = compare_at-eq rs x i found.1 in
          inr (r, i, rw (e, find_containing_range) at, at, lo, hi)
