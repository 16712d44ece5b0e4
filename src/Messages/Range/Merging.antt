-- ===== src/Messages/Range/Merging.antt =====
-- `extend` leaves a sorted set of separated ranges that covers the same points.
use sqd_network.Base.{
  ℕ, ◌+◌, ◌%◌, ◌≤◌, ◌<◌, ◌≡◌, ◌⊎◌, refl, sym, ap, ◌∙◌, max, Bool, true, false, ◌||◌, List, [], ◌∷◌,
  ◌++◌, ok, ltb, leb, u64_mod, arith, All, All-append, inl, inr, Bool-cases, ltb-false, leb-true,
}
use sqd_network.Messages.Range.{
  Range, new, range_le, insert_sorted, sort, merge_from, merge_sorted, extend, contains, covered,
}

-- A range that ends before the last 64-bit number, and not before it begins.
abbrev pub IsRange : Range → Type 0
IsRange r = (r.begin ≤ r.end) × (r.end + 1 < u64_mod)

-- Ranges in order with a gap between neighbours, all beginning at `lo` or later.
abbrev pub SeparatedFrom : ℕ → List Range → Type 0
SeparatedFrom lo [] = Unit
SeparatedFrom lo (r ∷ rs) = (lo ≤ r.begin) × IsRange r × SeparatedFrom (r.end + 2) rs

abbrev pub IsSeparated : List Range → Type 0
IsSeparated = SeparatedFrom 0

-- Ranges ordered by begin, all beginning at `lo` or later.
abbrev BeginsFrom : ℕ → List Range → Type 0
BeginsFrom lo [] = Unit
BeginsFrom lo (r ∷ rs) = (lo ≤ r.begin) × IsRange r × BeginsFrom r.begin rs

insert_sorted-BeginsFrom :
    (lo : ℕ) (r : Range) (rs : List Range)
    → lo ≤ r.begin
    → IsRange r
    → BeginsFrom lo rs
    → BeginsFrom lo (insert_sorted r rs)
unfolding insert_sorted range_le
insert_sorted-BeginsFrom lo r [] l w b = (l, w, tt)
insert_sorted-BeginsFrom lo r (s ∷ rs) l w b = ground (arith, insert_sorted-BeginsFrom s.begin r rs)

sort-BeginsFrom : (rs : List Range) → All IsRange rs → BeginsFrom 0 (sort rs)
unfolding sort
sort-BeginsFrom [] w = tt
sort-BeginsFrom (r ∷ rs) w =
    insert_sorted-BeginsFrom 0 r (sort rs) (omega arith) w.0 (sort-BeginsFrom rs w.1)

covered-insert_sorted :
    (r : Range) (rs : List Range) (x : ℕ)
    → covered (insert_sorted r rs) x ≡ contains r x || covered rs x
unfolding insert_sorted covered
covered-insert_sorted r [] x = refl
covered-insert_sorted r (s ∷ rs) x = ground (arith, covered-insert_sorted r rs x)

covered-sort : (rs : List Range) (x : ℕ) → covered (sort rs) x ≡ covered rs x
unfolding sort covered
covered-sort [] x = refl
covered-sort (r ∷ rs) x =
    covered-insert_sorted r (sort rs) x ∙ ap (λ b. contains r x || b) (covered-sort rs x)

BeginsFrom-lower : (a b : ℕ) (rs : List Range) → a ≤ b → BeginsFrom b rs → BeginsFrom a rs
BeginsFrom-lower a b [] h w = tt
BeginsFrom-lower a b (r ∷ rs) h w = (omega arith, w.1, w.2)

-- Two ranges that touch cover what their union covers.
contains_union :
    (p c : Range) (m x : ℕ)
    → m ≡ max c.end p.end
    → p.begin ≤ c.begin
    → c.begin ≤ p.end + 1
    → contains (record { begin = p.begin; end = m }) x ≡ contains p x || contains c x
unfolding contains
contains_union p c m x e h k =
    let a : c.end ≤ m = omega arith in
    let b : p.end ≤ m = omega arith in
    let d : (m ≡ p.end) ⊎ (m ≡ c.end) = omega arith in ground arith

or_assoc : (a b c : Bool) → (a || b) || c ≡ a || (b || c)
or_assoc true b c = refl
or_assoc false b c = refl

-- From `p` on: what the loop returns is separated, begins with `p`'s begin, and covers the same.
merge_from_lem :
    (p : Range) (cs : List Range) (lo : ℕ)
    → lo ≤ p.begin
    → IsRange p
    → BeginsFrom p.begin cs
    → (rs : List Range) × (merge_from p cs ≡ ok rs)
      × SeparatedFrom lo rs
      × ((x : ℕ) → covered rs x ≡ covered (p ∷ cs) x)
unfolding merge_from covered
merge_from_lem p [] lo l w b = (p ∷ [], refl, (l, w, tt), λ x. refl)
merge_from_lem p (c ∷ cs) lo l w b = elim (Bool-cases (ltb ((p.end + 1) % u64_mod) c.begin)) [
  | inl apart ↦
      let (rs, e, s, same) = merge_from_lem c cs (p.end + 2) (ground arith) b.1 b.2 in
      (p ∷ rs, rw (apart, e), (l, w, s), λ x. ap (λ t. contains p x || t) (same x))
  | inr close ↦
      let q : Range = record { begin = p.begin; end = max c.end p.end } in
      let (rs, e, s, same) =
        merge_from_lem q cs lo l (omega arith) (BeginsFrom-lower p.begin c.begin cs b.0 b.2) in
      let valid : leb p.begin (max c.end p.end) ≡ true =
        leb-true p.begin (max c.end p.end) (omega arith) in
      (
        rs,
        rw (close, new, valid) e,
        s,
        λ x.
            same x
            ∙ ap (λ t. t || covered cs x)
                (contains_union p c (max c.end p.end) x refl b.0
                  (ground (arith, ltb-false _ _ close)))
            ∙ or_assoc (contains p x) (contains c x) (covered cs x),
      )
]

merge_sorted_lem :
    (cs : List Range)
    → BeginsFrom 0 cs
    → (rs : List Range) × (merge_sorted cs ≡ ok rs)
      × IsSeparated rs
      × ((x : ℕ) → covered rs x ≡ covered cs x)
unfolding merge_sorted
merge_sorted_lem [] b = ([], refl, tt, λ x. refl)
merge_sorted_lem (p ∷ cs) b = merge_from_lem p cs 0 b.0 b.1 b.2

covered-append : (rs ss : List Range) (x : ℕ) → covered (rs ++ ss) x ≡ covered rs x || covered ss x
unfolding covered
covered-append [] ss x = refl
covered-append (r ∷ rs) ss x =
    ap (λ b. contains r x || b) (covered-append rs ss x)
    ∙ sym (or_assoc (contains r x) (covered rs x) (covered ss x))

-- Extending a set by well-formed ranges never panics: the result is sorted, its ranges are well
-- formed with a gap between neighbours, and it covers exactly the points that the set or one of the
-- added ranges covered. (Well formed: begin at most end, and end below the last 64-bit number.)
pub extend-IsSeparated :
    (ranges iter : List Range)
    → All IsRange ranges
    → All IsRange iter
    → (rs : List Range) × (extend ranges iter ≡ ok rs)
      × IsSeparated rs
      × ((x : ℕ) → covered rs x ≡ covered ranges x || covered iter x)
unfolding extend
extend-IsSeparated ranges iter w v =
    let (rs, e, s, same) =
      merge_sorted_lem (sort (ranges ++ iter))
        (sort-BeginsFrom (ranges ++ iter) (All-append IsRange ranges iter w v)) in
    (rs, e, s, λ x. same x ∙ covered-sort (ranges ++ iter) x ∙ covered-append ranges iter x)
