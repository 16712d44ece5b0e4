-- ===== src/Base/Sets.antt =====
-- Hash sets as lists of their members: what the standard library's `HashSet` promises, order aside.
use Prim.Native.Nat.{ℕ, ◌+◌}
use mathlib.Core.Path.{◌≡◌, refl, sym, ◌∙◌}
use mathlib.Core.Logic.{inl, inr}
use mathlib.Core.Bool.{Bool, true, false, ◌&&◌, ◌||◌, not}
use mathlib.Core.List.{List, [], ◌∷◌, ◌++◌}
use native.Mathlib.Omega.{arith}
use sqd_network.Base.Tests.{Eq, Bool-cases, if◌then◌else◌}

module _ {K : Type 0} ⦃e : Eq K⦄ where
  -- `contains`.
  unfoldable pub elem : K → List K → Bool
  elem k [] = false
  elem k (x ∷ xs) = e.beq k x || elem k xs

  -- `insert`, whose result is whether the member is new.
  unfoldable pub insert : K → List K → Bool × List K
  insert k xs = if elem k xs then (false, xs) else (true, k ∷ xs)

  -- `remove`.
  unfoldable pub remove : K → List K → List K
  remove k [] = []
  remove k (x ∷ xs) = let rest = remove k xs in if e.beq k x then rest else x ∷ rest

  -- `extend`.
  unfoldable pub extend : List K → List K → List K
  extend xs [] = xs
  extend xs (y ∷ ys) = extend (insert y xs).1 ys

  -- `difference`.
  unfoldable pub difference : List K → List K → List K
  difference [] ys = []
  difference (x ∷ xs) ys = let rest = difference xs ys in if elem x ys then rest else x ∷ rest

  unfoldable pub includes_all : List K → List K → Bool
  includes_all [] ys = true
  includes_all (x ∷ xs) ys = elem x ys && includes_all xs ys

  -- `==`.
  unfoldable pub same_set : List K → List K → Bool
  same_set xs ys = includes_all xs ys && includes_all ys xs

  -- How often a member stands in a list.
  unfoldable pub count : K → List K → ℕ
  count k [] = 0
  count k (x ∷ xs) = (if e.beq k x then 1 else 0) + count k xs

  pub beq_self : (k : K) → e.beq k k ≡ true
  beq_self k = (e.beq_iff k k).1 refl

  pub beq_sym : (a b : K) → e.beq a b ≡ e.beq b a
  beq_sym a b = elim (Bool-cases (e.beq a b)) [
    | inl h ↦ let k : a ≡ b = (e.beq_iff a b).0 h in rw k refl
    | inr h ↦ elim (Bool-cases (e.beq b a)) [
      | inl g ↦ let k : b ≡ a = (e.beq_iff b a).0 g in rw k refl
      | inr g ↦ h ∙ sym g
    ]
  ]

  -- A member equal to `a` is one equal to `b`, where these are equal.
  pub beq_trans : (a b : K) → e.beq a b ≡ true → (c : K) → e.beq a c ≡ e.beq b c
  beq_trans a b h c = let k : a ≡ b = (e.beq_iff a b).0 h in rw k refl

  pub elem-congr : (a b : K) (xs : List K) → e.beq a b ≡ true → elem a xs ≡ elem b xs
  elem-congr a b xs h = let k : a ≡ b = (e.beq_iff a b).0 h in rw k refl

  pub elem-insert : (k j : K) (xs : List K) → elem k (insert j xs).1 ≡ e.beq k j || elem k xs
  unfolding insert elem
  elem-insert k j xs = elim (Bool-cases (elem j xs)) [
    | inr new ↦ rw new refl
    | inl old ↦ elim (Bool-cases (e.beq k j)) [
      | inl same ↦ ground (arith, old, same, elem-congr k j xs same)
      | inr other ↦ ground (arith, old, other)
    ]
  ]

  pub elem-remove : (k j : K) (xs : List K) → elem k (remove j xs) ≡ not (e.beq k j) && elem k xs
  unfolding remove elem
  elem-remove k j [] = ground arith
  elem-remove k j (x ∷ xs) = elim (Bool-cases (e.beq j x)) [
    | inr other ↦ elim (Bool-cases (e.beq k x)) [
      | inr h ↦ ground (arith, other, h, elem-remove k j xs)
      | inl h ↦ ground (arith, other, h, elem-remove k j xs, beq_trans k x h j, beq_sym x j)
    ]
    | inl same ↦
        ground (arith, same, elem-remove k j xs, beq_trans j x same k, beq_sym j k, beq_sym x k)
  ]

  pub elem-extend : (k : K) (xs ys : List K) → elem k (extend xs ys) ≡ elem k xs || elem k ys
  unfolding extend elem
  elem-extend k xs [] = ground arith
  elem-extend k xs (y ∷ ys) = ground (arith, elem-extend k (insert y xs).1 ys, elem-insert k y xs)

  pub elem-difference :
      (k : K) (xs ys : List K) → elem k (difference xs ys) ≡ elem k xs && not (elem k ys)
  unfolding difference elem
  elem-difference k [] ys = refl
  elem-difference k (x ∷ xs) ys = elim (Bool-cases (e.beq k x)) [
    | inl same ↦ ground (arith, same, elem-difference k xs ys, elem-congr k x ys same)
    | inr other ↦ ground (arith, other, elem-difference k xs ys)
  ]

  pub includes_all-elem :
      (k : K) (xs ys : List K) → includes_all xs ys ≡ true → elem k xs ≡ true → elem k ys ≡ true
  unfolding includes_all elem
  includes_all-elem k [] ys h m = absurd (cc)
  includes_all-elem k (x ∷ xs) ys h m = elim (Bool-cases (e.beq k x)) [
    | inl same ↦ ground (arith, same, elem-congr k x ys same)
    | inr other ↦ includes_all-elem k xs ys (ground arith) (ground (arith, other))
  ]

  pub same_set-elem : (k : K) (xs ys : List K) → same_set xs ys ≡ true → elem k xs ≡ elem k ys
  unfolding same_set
  same_set-elem k xs ys h = elim (Bool-cases (elem k xs)) [
    | inl m ↦ m ∙ sym (includes_all-elem k xs ys (ground arith) m)
    | inr n ↦ elim (Bool-cases (elem k ys)) [
      | inl m ↦ includes_all-elem k ys xs (ground arith) m ∙ sym m
      | inr m ↦ n ∙ sym m
    ]
  ]

  pub count-append : (k : K) (xs ys : List K) → count k (xs ++ ys) ≡ count k xs + count k ys
  unfolding count
  count-append k [] ys = omega arith
  count-append k (x ∷ xs) ys = omega (arith, count-append k xs ys)

  -- A set that another one does not include has a member that is not in that one.
  pub includes_all-missing :
      (xs ys : List K)
      → includes_all xs ys ≡ false
      → (k : K) × (elem k xs ≡ true) × (elem k ys ≡ false)
  unfolding includes_all elem
  includes_all-missing [] ys h = absurd (cc)
  includes_all-missing (x ∷ xs) ys h = elim (Bool-cases (elem x ys)) [
    | inr out ↦ (x, ground (arith, beq_self x), out)
    | inl here ↦
        let (k, m, n) = includes_all-missing xs ys (ground (arith, here)) in
        (k, ground (arith, m), n)
  ]

  pub same_set-differs :
      (xs ys : List K) → same_set xs ys ≡ false → (k : K) × (elem k xs ≡ not (elem k ys))
  unfolding same_set
  same_set-differs xs ys h = elim (Bool-cases (includes_all xs ys)) [
    | inr out ↦ let (k, m, n) = includes_all-missing xs ys out in (k, rw (m, n) refl)
    | inl all ↦
        let (k, m, n) = includes_all-missing ys xs (ground (arith, all)) in (k, rw (m, n) refl)
  ]
