-- ===== src/Base/Bits.antt =====
-- Bytes as bit sets: `bit_or` and `bit_and` with a single bit, and a bitmap as a list of bytes.
use Prim.Native.Nat.{ℕ, zero, suc, ◌*◌, ◌/◌, ◌%◌, ◌^◌, ◌<◌, bit_and, bit_or}
use mathlib.Core.Path.{◌≡◌, refl, sym, ap}
use mathlib.Core.Logic.{inl, inr}
use mathlib.Core.Bool.{Bool, true, false, ◌&&◌, ◌||◌, not}
use mathlib.Core.Option.{none, some}
use mathlib.Core.List.{List, [], ◌∷◌}
use native.Mathlib.Omega.{arith}
use sqd_network.Base.Tests.{◌==◌, ==_iff, ltb, if◌then◌else◌, Bool-cases}
use sqd_network.Base.Lists.{length, get_elem?, get_elem?-below, replicate, All}

-- `byte & (1 << k) != 0`, and `byte | (1 << k)`.
unfoldable pub has_bit : ℕ → ℕ → Bool
has_bit byte k = not (bit_and byte (2 ^ k) == 0)

unfoldable pub with_bit : ℕ → ℕ → ℕ
with_bit byte k = bit_or byte (2 ^ k)

-- A test that holds of every number under a bound.
holds_under : (ℕ → Bool) → ℕ → Bool
holds_under test zero = true
holds_under test (suc bound) = if test bound then holds_under test bound else false

holds_under_at :
    (test : ℕ → Bool) (bound k : ℕ) → k < bound → holds_under test bound ≡ true → test k ≡ true
unfolding holds_under
holds_under_at test zero k under all = absurd (omega arith)
holds_under_at test (suc bound) k under all = elim (Bool-cases (k == bound)) [
  | inl top ↦ let e : k ≡ bound = (==_iff k bound).0 top in rw e (ground arith)
  | inr lower ↦ holds_under_at test bound k (ground arith) (ground arith)
]

same_bool : Bool → Bool → Bool
same_bool true b = b
same_bool false b = not b

same_bool_sound : (a b : Bool) → same_bool a b ≡ true → a ≡ b
unfolding same_bool
same_bool_sound true true h = refl
same_bool_sound true false h = sym h
same_bool_sound false true h = cc
same_bool_sound false false h = refl

-- Every byte and every pair of places, by evaluation.
check_bits : ℕ → ℕ → ℕ → Bool
unfolding same_bool has_bit with_bit
check_bits b k m =
    ltb (with_bit b k) 256 && same_bool (has_bit (with_bit b k) m) ((k == m) || has_bit b m)

check_all : Bool
unfolding holds_under check_bits
check_all = holds_under (λ b. holds_under (λ k. holds_under (check_bits b k) 8) 8) 256

checked : check_all ≡ true
unfolding check_all
checked = refl

bits_checked : (b k m : ℕ) → b < 256 → k < 8 → m < 8 → check_bits b k m ≡ true
unfolding check_all
bits_checked b k m p q r =
    let row =
      holds_under_at (λ b. holds_under (λ k. holds_under (check_bits b k) 8) 8) 256 b p checked in
    let cell = holds_under_at (λ k. holds_under (check_bits b k) 8) 8 k q row in
    holds_under_at (check_bits b k) 8 m r cell

pub with_bit-lt : (b k : ℕ) → b < 256 → k < 8 → with_bit b k < 256
unfolding check_bits
with_bit-lt b k p q = ground (arith, bits_checked b k 0 p q (omega arith))

pub has_bit-with_bit :
    (b k m : ℕ) → b < 256 → k < 8 → m < 8 → has_bit (with_bit b k) m ≡ (k == m) || has_bit b m
unfolding check_bits
has_bit-with_bit b k m p q r =
    same_bool_sound (has_bit (with_bit b k) m) ((k == m) || has_bit b m)
      (ground (arith, bits_checked b k m p q r))

-- `bits.get(i / 8).is_some_and(|byte| byte & (1 << (i % 8)) != 0)`.
unfoldable pub bit_at : List ℕ → ℕ → Bool
bit_at bits i = elim (get_elem? bits (i / 8)) [ none ↦ false | some byte ↦ has_bit byte (i % 8) ]

-- `bits[i] = byte`, within the bounds.
unfoldable pub set_elem : List ℕ → ℕ → (ℕ → ℕ) → List ℕ
set_elem [] i f = []
set_elem (b ∷ bits) zero f = f b ∷ bits
set_elem (b ∷ bits) (suc i) f = b ∷ set_elem bits i f

-- `bits[i / 8] |= 1 << (i % 8)`.
unfoldable pub set_bit : List ℕ → ℕ → List ℕ
unfolding set_elem with_bit
set_bit bits i = set_elem bits (i / 8) (λ byte. with_bit byte (i % 8))

abbrev pub AreBytes : List ℕ → Type 0
AreBytes = All (λ b. b < 256)

get_elem?-set_elem :
    (bits : List ℕ) (i j : ℕ) (f : ℕ → ℕ)
    → get_elem? (set_elem bits i f) j ≡ (
        if i == j
        then elim (get_elem? bits j) [ none ↦ none | some b ↦ some (f b) ]
        else get_elem? bits j)
unfolding set_elem
get_elem?-set_elem [] i j f = ground arith
get_elem?-set_elem (b ∷ bits) zero zero f = refl
get_elem?-set_elem (b ∷ bits) zero (suc j) f = ground arith
get_elem?-set_elem (b ∷ bits) (suc i) zero f = ground arith
get_elem?-set_elem (b ∷ bits) (suc i) (suc j) f = ground (arith, get_elem?-set_elem bits i j f)

pub length-set_bit : (bits : List ℕ) (i : ℕ) → length (set_bit bits i) ≡ length bits
unfolding set_bit
length-set_bit bits i = same bits (i / 8) (λ byte. with_bit byte (i % 8))
  where
    same : (bits : List ℕ) (i : ℕ) (f : ℕ → ℕ) → length (set_elem bits i f) ≡ length bits
    same [] i f = unfold set_elem in refl
    same (b ∷ bits) zero f = unfold set_elem in refl
    same (b ∷ bits) (suc i) f = unfold set_elem in ap suc (same bits i f)

pub set_bit-AreBytes : (bits : List ℕ) (i : ℕ) → AreBytes bits → AreBytes (set_bit bits i)
unfolding set_bit
set_bit-AreBytes bits i a =
    keep bits (i / 8) (λ byte. with_bit byte (i % 8)) (λ b p. with_bit-lt b (i % 8) p (omega arith))
      a
  where
    keep :
        (bits : List ℕ) (i : ℕ) (f : ℕ → ℕ)
        → ((b : ℕ) → b < 256 → f b < 256)
        → AreBytes bits
        → AreBytes (set_elem bits i f)
    keep [] i f h a = unfold set_elem in tt
    keep (b ∷ bits) zero f h a = unfold set_elem in (h b a.0, a.1)
    keep (b ∷ bits) (suc i) f h a = unfold set_elem in (a.0, keep bits i f h a.1)

byte_at : (bits : List ℕ) (i b : ℕ) → AreBytes bits → get_elem? bits i ≡ some b → b < 256
byte_at [] i b a h = absurd (cc)
byte_at (x ∷ bits) zero b a h = let e : x ≡ b = cc in rw (← e) a.0
byte_at (x ∷ bits) (suc i) b a h = byte_at bits i b a.1 h

-- Setting a bit in range sets that bit and no other.
pub bit_at-set_bit :
    (bits : List ℕ) (i j : ℕ)
    → AreBytes bits
    → i < length bits * 8
    → bit_at (set_bit bits i) j ≡ (i == j) || bit_at bits j
unfolding bit_at set_bit
bit_at-set_bit bits i j a lt =
    let f : ℕ → ℕ = λ byte. with_bit byte (i % 8) in
    let got = get_elem?-set_elem bits (i / 8) (j / 8) f in
    elim (Bool-cases (i / 8 == j / 8)) [
      | inl same ↦
          let q : i / 8 ≡ j / 8 = (==_iff (i / 8) (j / 8)).0 same in
          let (b, at) = get_elem?-below bits (j / 8) (omega arith) in
          let bits_eq =
            has_bit-with_bit b (i % 8) (j % 8) (byte_at bits (j / 8) b a at) (omega arith)
              (omega arith) in
          let places : (i % 8 == j % 8) ≡ (i == j) = ground arith in
          ground (arith, got, at, bits_eq, places)
      | inr other ↦ let apart : (i == j) ≡ false = ground arith in ground (arith, got, apart)
    ]

pub replicate-AreBytes : (n : ℕ) → AreBytes (replicate n 0)
replicate-AreBytes zero = tt
replicate-AreBytes (suc n) = (omega arith, replicate-AreBytes n)

no_bits : holds_under (λ k. not (has_bit 0 k)) 8 ≡ true
unfolding holds_under has_bit
no_bits = refl

has_bit-zero : (k : ℕ) → k < 8 → has_bit 0 k ≡ false
has_bit-zero k h = ground (arith, holds_under_at (λ k. not (has_bit 0 k)) 8 k h no_bits)

pub bit_at-replicate : (n i : ℕ) → bit_at (replicate n 0) i ≡ false
unfolding bit_at
bit_at-replicate n i = zeros n (i / 8)
  where
    zeros :
        (n j : ℕ)
        → elim (get_elem? {A = ℕ} (replicate n 0) j) [
          | none ↦ false
          | some byte ↦ has_bit byte (i % 8)
        ]
          ≡ false
    zeros zero j = refl
    zeros (suc n) zero = has_bit-zero (i % 8) (omega arith)
    zeros (suc n) (suc j) = zeros n j
