-- ===== src/Assignments/Columns/Slices.antt =====
-- Slices cut out of one column by a column of ends, with a leading 0.
use sqd_network.Base.{
  sym, map, map-append, get_elem?-map, ap₂, ◌-◌, ℕ, zero, suc, ◌+◌, ◌≤◌, ◌≡◌, refl, ap, ◌∙◌, some,
  List, [], ◌∷◌, ◌++◌, length, get_elem?, take, drop, arith, length-append, take-length_append,
  append_assoc, append-nil, drop-append_right,
}
use sqd_network.Assignments.Columns.{push, slice}

module _ {ℓ κ} {A : Type ℓ} {R : Type κ} (f : R → List A) where
  -- All rows' values, one after another.
  unfoldable pub flat : List R → List A
  flat [] = []
  flat (r ∷ rs) = f r ++ flat rs

  -- Where each row's values end, counted from `acc`.
  unfoldable pub ends : ℕ → List R → List ℕ
  ends acc [] = []
  ends acc (r ∷ rs) = (acc + length (f r)) ∷ ends (acc + length (f r)) rs

  pub flat-push : (rs : List R) (r : R) → flat (push rs r) ≡ flat rs ++ f r
  unfolding flat
  flat-push [] r = append-nil (f r)
  flat-push (x ∷ rs) r = simp (flat-push rs r, append_assoc)

  pub ends-push :
      (acc : ℕ) (rs : List R) (r : R)
      → ends acc (push rs r) ≡ push (ends acc rs) (acc + length (flat rs ++ f r))
  unfolding ends flat
  ends-push acc [] r = refl
  ends-push acc (x ∷ rs) r =
      let e : acc + length (f x) + length (flat rs ++ f r)
          ≡ acc + length ((f x ++ flat rs) ++ f r) =
        omega (
          arith,
          length-append {ℓ} (flat rs) (f r),
          length-append {ℓ} (f x ++ flat rs) (f r),
          length-append {ℓ} (f x) (flat rs),
        ) in
      ap (◌∷◌ (acc + length (f x)))
        (ends-push (acc + length (f x)) rs r ∙ ap (λ n. push (ends (acc + length (f x)) rs) n) e)

  -- Row `i`: the place where its slice starts, its end, and what stands between them.
  pub row_slice :
      (acc : ℕ) (rs : List R) (i : ℕ) (r : R)
      → get_elem? rs i ≡ some r
      → (k : ℕ) × (get_elem? (acc ∷ ends acc rs) i ≡ some (acc + k))
        × (get_elem? (acc ∷ ends acc rs) (suc i) ≡ some (acc + k + length (f r)))
        × (take (length (f r)) (drop k (flat rs)) ≡ f r)
        × (k + length (f r) ≤ length (flat rs))
  unfolding ends flat
  row_slice acc [] i r h = absurd (cc)
  row_slice acc (x ∷ rs) zero r h =
      let e : x ≡ r = cc in
      (
        0,
        ap some (omega arith),
        ap some (rw (← e) (omega arith)),
        rw (← e) (take-length_append (f x) (flat rs)),
        rw (← e) (omega (arith, length-append {ℓ} (f x) (flat rs))),
      )
  row_slice acc (x ∷ rs) (suc i) r h =
      let (k, starts, stops, cut, fits) = row_slice (acc + length (f x)) rs i r h in
      (
        length (f x) + k,
        starts ∙ ap some (omega arith),
        stops ∙ ap some (omega arith),
        ap (take (length (f r))) (drop-append_right (f x) (flat rs) k) ∙ cut,
        omega (arith, length-append {ℓ} (f x) (flat rs)),
      )

  pub length-ends : (acc : ℕ) (rs : List R) → length (ends acc rs) ≡ length rs
  unfolding ends
  length-ends acc [] = refl
  length-ends acc (x ∷ rs) = ap suc (length-ends (acc + length (f x)) rs)

pub map-push {ℓ κ} :
    {A : Type ℓ} {B : Type κ} (f : A → B) (xs : List A) (x : A) {ys : List B}
    → ys ≡ map f xs
    → push ys (f x) ≡ map f (push xs x)
map-push f xs x {ys} e = ap (λ l. push l (f x)) e ∙ sym (map-append f xs (x ∷ []))

pub ends_column :
    {R : Type 0} (f : R → List ℕ) (rows : List R) (r : R) {es vs : List ℕ}
    → es ≡ ends f 0 rows
    → vs ≡ flat f rows
    → push es (length (vs ++ f r)) ≡ ends f 0 (push rows r)
ends_column f rows r {es} {vs} e v =
    ap₂ (λ l m. push l (length (m ++ f r))) e v
    ∙ ap (push (ends f 0 rows)) (omega arith)
    ∙ sym (ends-push f 0 rows r)

-- Read through an equation for the column.
pub column {ℓ κ} :
    {A : Type ℓ} {B : Type κ} (f : A → B) (rows : List A) (i : ℕ) (r : A) {xs : List B}
    → xs ≡ map f rows
    → get_elem? rows i ≡ some r
    → get_elem? xs i ≡ some (f r)
column f rows i r e h = ap (λ l. get_elem? l i) e ∙ get_elem?-map f rows i r h

-- Row `i`'s slice of a column with ends.
pub slice_of_row :
    {R : Type 0} (f : R → List ℕ) (rows : List R) (i : ℕ) (r : R)
    → get_elem? rows i ≡ some r
    → (k : ℕ) × (get_elem? (0 ∷ ends f 0 rows) i ≡ some k)
      × (get_elem? (0 ∷ ends f 0 rows) (suc i) ≡ some (k + length (f r)))
      × (slice (flat f rows) k (k + length (f r)) ≡ f r)
      × (k + length (f r) ≤ length (flat f rows))
slice_of_row f rows i r h =
    let (k, starts, stops, cut, fits) = row_slice f 0 rows i r h in
    let e : k + length (f r) - k ≡ length (f r) = omega arith in
    (
      k,
      starts ∙ ap some (omega arith),
      stops ∙ ap some (omega arith),
      ap (λ n. take n (drop k (flat f rows))) e ∙ cut,
      fits,
    )
