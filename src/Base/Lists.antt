-- ===== src/Base/Lists.antt =====
-- Lists measured and indexed by native numbers, under the library's names, and predicates on them.
use Prim.Native.Nat.{ℕ, zero, suc, ◌+◌, ◌<◌}
use mathlib.Core.Path.{◌≡◌, refl, ap, ◌∙◌}
use mathlib.Core.Logic.{◌⊎◌, inl, inr}
use mathlib.Core.List.{List, [], ◌∷◌, ◌++◌, map}
use mathlib.Core.Option.{Option, none, some}
use native.Mathlib.Omega.{arith}

module _ {ℓ} {A : Type ℓ} where
  abbrev pub length : List A → ℕ
  length [] = 0
  length (x ∷ xs) = suc (length xs)

  abbrev pub get_elem? : List A → ℕ → Option A
  get_elem? [] i = none
  get_elem? (x ∷ xs) zero = some x
  get_elem? (x ∷ xs) (suc i) = get_elem? xs i

  abbrev pub take : ℕ → List A → List A
  take zero xs = []
  take (suc n) [] = []
  take (suc n) (x ∷ xs) = x ∷ take n xs

  abbrev pub drop : ℕ → List A → List A
  drop zero xs = xs
  drop (suc n) [] = []
  drop (suc n) (x ∷ xs) = drop n xs

  abbrev pub replicate : ℕ → A → List A
  replicate zero a = []
  replicate (suc n) a = a ∷ replicate n a

  abbrev pub All {κ} : (A → Type κ) → List A → Type κ
  All P [] = Unit
  All P (x ∷ xs) = P x × All P xs

module _ {ℓ} {A : Type ℓ} where
  pub length-append : (xs ys : List A) → length (xs ++ ys) ≡ length xs + length ys
  length-append [] ys = omega arith
  length-append (x ∷ xs) ys = omega (arith, length-append xs ys)

  pub length-replicate : (n : ℕ) (a : A) → length (replicate n a) ≡ n
  length-replicate zero a = refl
  length-replicate (suc n) a = ap suc (length-replicate n a)

  pub get_elem?-append_left :
      (xs ys : List A) (i : ℕ) → i < length xs → get_elem? (xs ++ ys) i ≡ get_elem? xs i
  get_elem?-append_left [] ys i h = absurd (omega arith)
  get_elem?-append_left (x ∷ xs) ys zero h = refl
  get_elem?-append_left (x ∷ xs) ys (suc i) h = get_elem?-append_left xs ys i (omega arith)

  pub get_elem?-append_right :
      (xs ys : List A) (i : ℕ) → get_elem? (xs ++ ys) (length xs + i) ≡ get_elem? ys i
  get_elem?-append_right [] ys i =
      let e : length {A = A} [] + i ≡ i = omega arith in ap (get_elem? ys) e
  get_elem?-append_right (x ∷ xs) ys i =
      let e : length (x ∷ xs) + i ≡ suc (length xs + i) = omega arith in
      ap (get_elem? (x ∷ xs ++ ys)) e ∙ get_elem?-append_right xs ys i

  pub take-length_append : (xs ys : List A) → take (length xs) (xs ++ ys) ≡ xs
  take-length_append [] ys = refl
  take-length_append (x ∷ xs) ys = ap (◌∷◌ x) (take-length_append xs ys)

  pub drop-length_append : (xs ys : List A) → drop (length xs) (xs ++ ys) ≡ ys
  drop-length_append [] ys = refl
  drop-length_append (x ∷ xs) ys = drop-length_append xs ys

  pub drop-append_right : (xs ys : List A) (k : ℕ) → drop (length xs + k) (xs ++ ys) ≡ drop k ys
  drop-append_right [] ys k =
      let e : length {A = A} [] + k ≡ k = omega arith in ap (λ n. drop n ys) e
  drop-append_right (x ∷ xs) ys k =
      let e : length (x ∷ xs) + k ≡ suc (length xs + k) = omega arith in
      ap (λ n. drop n (x ∷ xs ++ ys)) e ∙ drop-append_right xs ys k

  pub take-length : (xs : List A) → take (length xs) xs ≡ xs
  take-length [] = refl
  take-length (x ∷ xs) = ap (◌∷◌ x) (take-length xs)

  pub get_elem?-bound : (xs : List A) (i : ℕ) (x : A) → get_elem? xs i ≡ some x → i < length xs
  get_elem?-bound [] i x h = absurd (cc)
  get_elem?-bound (y ∷ xs) zero x h = omega arith
  get_elem?-bound (y ∷ xs) (suc i) x h = omega (arith, get_elem?-bound xs i x h)

  pub get_elem?-below : (xs : List A) (i : ℕ) → i < length xs → (x : A) × (get_elem? xs i ≡ some x)
  get_elem?-below [] i h = absurd (omega arith)
  get_elem?-below (y ∷ xs) zero h = (y, refl)
  get_elem?-below (y ∷ xs) (suc i) h = get_elem?-below xs i (omega arith)

  pub All-append {κ} : (P : A → Type κ) (xs ys : List A) → All P xs → All P ys → All P (xs ++ ys)
  All-append P [] ys a b = b
  All-append P (x ∷ xs) ys a b = (a.0, All-append P xs ys a.1 b)

  pub All-imp {κ μ} :
      {P : A → Type κ} {Q : A → Type μ}
      → ((a : A) → P a → Q a)
      → (xs : List A) → All P xs
      → All Q xs
  All-imp f [] h = tt
  All-imp f (x ∷ xs) h = (f x h.0, All-imp f xs h.1)

module _ {ℓ κ} {A : Type ℓ} {B : Type κ} where
  pub length-map : (f : A → B) (xs : List A) → length (map f xs) ≡ length xs
  length-map f [] = refl
  length-map f (x ∷ xs) = ap suc (length-map f xs)

  pub get_elem?-map :
      (f : A → B) (xs : List A) (i : ℕ) (a : A)
      → get_elem? xs i ≡ some a
      → get_elem? (map f xs) i ≡ some (f a)
  get_elem?-map f [] i a h = absurd (cc)
  get_elem?-map f (x ∷ xs) zero a h = ap (λ o. elim o [ none ↦ some (f x) | some y ↦ some (f y) ]) h
  get_elem?-map f (x ∷ xs) (suc i) a h = get_elem?-map f xs i a h

-- Membership with its place, so that it can be taken apart into any type.
abbrev pub Mem : {A : Type 0} → A → List A → Type 0
Mem a [] = ⊥
Mem a (x ∷ xs) = (a ≡ x) ⊎ Mem a xs

module _ {A : Type 0} where
  pub All-mem {κ} : (P : A → Type κ) (xs : List A) (a : A) → All P xs → Mem a xs → P a
  All-mem P [] a h m = absurd m
  All-mem P (x ∷ xs) a h (inl e) = rw e h.0
  All-mem P (x ∷ xs) a h (inr m) = All-mem P xs a h.1 m

  pub Mem-append_left : (a : A) (xs ys : List A) → Mem a xs → Mem a (xs ++ ys)
  Mem-append_left a [] ys m = absurd m
  Mem-append_left a (x ∷ xs) ys (inl e) = inl e
  Mem-append_left a (x ∷ xs) ys (inr m) = inr (Mem-append_left a xs ys m)

  pub Mem-append_right : (a : A) (xs ys : List A) → Mem a ys → Mem a (xs ++ ys)
  Mem-append_right a [] ys m = m
  Mem-append_right a (x ∷ xs) ys m = inr (Mem-append_right a xs ys m)

  pub Mem-append_cases : (a : A) (xs ys : List A) → Mem a (xs ++ ys) → Mem a xs ⊎ Mem a ys
  Mem-append_cases a [] ys m = inr m
  Mem-append_cases a (x ∷ xs) ys (inl e) = inl (inl e)
  Mem-append_cases a (x ∷ xs) ys (inr m) = elim (Mem-append_cases a xs ys m) [
    | inl l ↦ inl (inr l)
    | inr r ↦ inr r
  ]
