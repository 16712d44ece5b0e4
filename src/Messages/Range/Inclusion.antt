-- ===== src/Messages/Range/Inclusion.antt =====
-- `includes`: whether a separated set covers a whole range.
use sqd_network.Base.{
  ℕ, zero, suc, ◌+◌, ◌≤◌, ◌<◌, ◌≡◌, ◌↔◌, refl, true, false, Option, some, Ordering, List, [], ◌∷◌,
  get_elem?, arith, inl, inr, lt_or_le, leb-true,
}
use sqd_network.Messages.Range.{Range, contains, covered, includes}
use sqd_network.Messages.Range.Merging.{IsSeparated, SeparatedFrom}
use sqd_network.Messages.Range.Lookup.{Searches, find_containing_range_lem}

covered-get_elem? :
    (rs : List Range) (i : ℕ) (c : Range) (x : ℕ)
    → get_elem? rs i ≡ some c
    → c.begin ≤ x
    → x ≤ c.end
    → covered rs x ≡ true
unfolding covered contains
covered-get_elem? [] i c x h lo hi = absurd (cc)
covered-get_elem? (r ∷ rs) zero c x h lo hi = let e : r ≡ c = cc in rw e (ground arith)
covered-get_elem? (r ∷ rs) (suc i) c x h lo hi = ground (arith, covered-get_elem? rs i c x h lo hi)

covered_low : (rs : List Range) (lo x : ℕ) → SeparatedFrom lo rs → x < lo → covered rs x ≡ false
unfolding covered contains
covered_low [] lo x s h = refl
covered_low (r ∷ rs) lo x s h = ground (arith, covered_low rs (r.end + 2) x s.2)

-- The number after a range's end is not covered.
gap_after :
    (rs : List Range) (lo i : ℕ) (c : Range)
    → SeparatedFrom lo rs
    → get_elem? rs i ≡ some c
    → (lo ≤ c.begin) × (c.begin ≤ c.end) × (covered rs (c.end + 1) ≡ false)
unfolding covered contains
gap_after [] lo i c s h = absurd (cc)
gap_after (r ∷ rs) lo zero c s h =
    let e : r ≡ c = cc in
    let low = covered_low rs (r.end + 2) (r.end + 1) s.2 (omega arith) in
    rw (← e) (s.0, s.1.0, ground (arith, low))
gap_after (r ∷ rs) lo (suc i) c s h =
    let (a, b, d) = gap_after rs (r.end + 2) i c s.2 h in
    (omega (arith, s.1.0), b, ground (arith, d))

-- In a separated set `includes` holds exactly when every point of the range is covered.
pub includes_iff :
    (search : ℕ → (ℕ → Ordering) → Option ℕ)
    → Searches search
    → (rs : List Range) (r : Range) → IsSeparated rs
    → r.begin ≤ r.end
    → (includes search rs r ≡ true) ↔ ((x : ℕ) → r.begin ≤ x → x ≤ r.end → covered rs x ≡ true)
unfolding includes
includes_iff search searches rs r s order =
    elim (find_containing_range_lem search searches rs r.begin s) [
      | inl (miss, out) ↦
          (λ h. absurd (ground arith), λ all. absurd (cc (all r.begin (omega arith) order)))
      | inr (c, i, hit, at, lo, hi) ↦
          let (_, _, gap) = gap_after rs 0 i c s at in
          (
            λ h x a b. covered-get_elem? rs i c x at (omega arith) (ground arith),
            λ all. elim (lt_or_le c.end r.end) [
              | inl short ↦ absurd (cc (all (c.end + 1) (omega arith) (omega arith)))
              | inr long ↦ rw (hit, includes) (leb-true r.end c.end long)
            ],
          )
    ]
