-- ===== src/Base/Decimal.antt =====
-- Decimal text, as the standard library prints and parses `u64`: `{}`, `{:010}` and `parse`.
use Prim.Native.Nat.{ℕ, zero, suc, ◌+◌, ◌-◌, ◌*◌, ◌/◌, ◌%◌, ◌≤◌, ◌<◌}
use mathlib.Core.Path.{◌≡◌, refl, ap, ◌∙◌}
use mathlib.Core.Logic.{inl, inr}
use mathlib.Core.Bool.{Bool, false, ◌&&◌}
use mathlib.Core.Option.{Option, none, some}
use mathlib.Core.List.{[], ◌∷◌, ◌++◌}
use native.Mathlib.Omega.{arith}
use sqd_network.Base.Tests.{ltb, leb, ◌==◌, if◌then◌else◌, u64_mod, Bool-cases, ltb→lt, ltb-false}
use sqd_network.Base.Lists.{length, length-append, replicate, All, All-append}
use sqd_network.Base.Text.{Text}

-- The digits of `n`, at most `fuel` of them.
unfoldable pub digits : ℕ → ℕ → Text
digits zero n = []
digits (suc fuel) n =
    let rest = digits fuel (n / 10) in
    if ltb n 10 then (48 + n) ∷ [] else rest ++ (48 + n % 10) ∷ []

-- `{}`: `n` has at most `n + 1` digits.
unfoldable pub decimal : ℕ → Text
unfolding digits
decimal n = digits (suc n) n

-- `{:010}`: zeros on the left, up to ten characters.
unfoldable pub padded : ℕ → Text
unfolding decimal
padded n = replicate (10 - length (decimal n)) 48 ++ decimal n

abbrev pub is_digit : ℕ → Bool
is_digit c = leb 48 c && leb c 57

-- The digit loop of `u64::from_str`: a character that is no digit and an overflow are errors.
unfoldable pub parse_digits : ℕ → Text → Option ℕ
parse_digits acc [] = some acc
parse_digits acc (c ∷ s) =
    let acc' = acc * 10 + (c - 48) in
    let rest = parse_digits acc' s in
    if is_digit c then (if ltb acc' u64_mod then rest else none) else none

-- `u64::from_str`: not empty, and a leading `+` (43) is dropped unless it stands alone.
unfoldable pub parse_u64 : Text → Option ℕ
unfolding parse_digits
parse_u64 [] = none
parse_u64 (c ∷ []) = parse_digits 0 (c ∷ [])
parse_u64 (c ∷ d ∷ s) = if c == 43 then parse_digits 0 (d ∷ s) else parse_digits 0 (c ∷ d ∷ s)

-- The value of digits read after `acc`.
abbrev pub value : ℕ → Text → ℕ
value acc [] = acc
value acc (c ∷ s) = value (acc * 10 + (c - 48)) s

abbrev pub IsDigit : ℕ → Type 0
IsDigit c = (48 ≤ c) × (c ≤ 57)

pub value-append : (acc : ℕ) (s t : Text) → value acc (s ++ t) ≡ value (value acc s) t
value-append acc [] t = refl
value-append acc (c ∷ s) t = value-append (acc * 10 + (c - 48)) s t

value-replicate : (k : ℕ) → value 0 (replicate k 48) ≡ 0
value-replicate zero = refl
value-replicate (suc k) = value-replicate k

All-replicate : (k : ℕ) → All IsDigit (replicate k 48)
All-replicate zero = tt
All-replicate (suc k) = (omega arith, All-replicate k)

pub digits-IsDigit : (fuel n : ℕ) → All IsDigit (digits fuel n)
unfolding digits
digits-IsDigit zero n = tt
digits-IsDigit (suc fuel) n = elim (Bool-cases (ltb n 10)) [
  | inl t ↦ rw t (omega (arith, ltb→lt n 10 t))
  | inr f ↦
      rw f
        (All-append IsDigit (digits fuel (n / 10)) _ (digits-IsDigit fuel (n / 10)) (omega arith))
]

value-digits : (fuel n : ℕ) → n < fuel → value 0 (digits fuel n) ≡ n
unfolding digits
value-digits zero n h = absurd (omega arith)
value-digits (suc fuel) n h = elim (Bool-cases (ltb n 10)) [
  | inl t ↦ rw t (omega arith)
  | inr f ↦ rw f (
      value-append 0 (digits fuel (n / 10)) _
      ∙ omega
          (arith, value-digits fuel (n / 10) (omega (arith, ltb-false n 10 f)), ltb-false n 10 f))
]

pub padded-IsDigit : (n : ℕ) → All IsDigit (padded n)
unfolding padded
padded-IsDigit n =
    All-append IsDigit (replicate _ 48) _ (All-replicate _) (digits-IsDigit (suc n) n)

pub value-padded : (n : ℕ) → value 0 (padded n) ≡ n
unfolding padded
value-padded n =
    value-append 0 (replicate (10 - length (decimal n)) 48) (decimal n)
    ∙ ap (λ k. value k (decimal n)) (value-replicate (10 - length (decimal n)))
    ∙ value-digits (suc n) n (omega arith)

-- Reading digits never decreases the value.
value-ge : (acc : ℕ) (s : Text) → acc ≤ value acc s
value-ge acc [] = omega arith
value-ge acc (c ∷ s) = omega (arith, value-ge (acc * 10 + (c - 48)) s)

pub parse_digits-value :
    (acc : ℕ) (s : Text)
    → All IsDigit s
    → value acc s < u64_mod
    → parse_digits acc s ≡ some (value acc s)
unfolding parse_digits
parse_digits-value acc [] d h = refl
parse_digits-value acc (c ∷ s) d h =
    ground
      (arith, parse_digits-value (acc * 10 + (c - 48)) s d.1 h, value-ge (acc * 10 + (c - 48)) s)

pub parse_u64-value :
    (s : Text) → 0 < length s → All IsDigit s → value 0 s < u64_mod → parse_u64 s ≡ some (value 0 s)
unfolding parse_u64
parse_u64-value [] l d h = absurd (omega arith)
parse_u64-value (c ∷ []) l d h = parse_digits-value 0 (c ∷ []) d h
parse_u64-value (c ∷ e ∷ s) l d h =
    let n : (c == 43) ≡ false = ground arith in rw n (parse_digits-value 0 (c ∷ e ∷ s) d h)

length-digits_pos : (fuel n : ℕ) → 0 < length (digits (suc fuel) n)
unfolding digits
length-digits_pos fuel n = elim (Bool-cases (ltb n 10)) [
  | inl t ↦ rw t (omega arith)
  | inr f ↦ rw f (omega (arith, length-append {0} (digits fuel (n / 10)) ((48 + n % 10) ∷ [])))
]

-- What `{:010}` prints, `parse` reads back.
pub parse_u64-padded : (n : ℕ) → n < u64_mod → parse_u64 (padded n) ≡ some n
unfolding padded
parse_u64-padded n h =
    parse_u64-value (padded n)
      (omega (
        arith,
        length-append {0} (replicate (10 - length (decimal n)) 48) (decimal n),
        length-digits_pos n n,
      ))
      (padded-IsDigit n) (omega (arith, value-padded n))
    ∙ ap some (value-padded n)
