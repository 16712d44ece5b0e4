-- ===== src/Assignments/Ids/Digits.antt =====
-- The digits that `push_padded` fills in are those of `{:010}`, and the id is the one that
-- `Display` prints.
use sqd_network.Base.{
  ℕ, zero, suc, ◌+◌, ◌-◌, ◌/◌, ◌%◌, ◌^◌, ◌≤◌, ◌<◌, ◌≡◌, refl, sym, ap, ◌∙◌, true, false, some, [],
  ◌∷◌, ◌++◌, replicate, length, length-append, append_assoc, append-nil, ◌==◌, leb, ltb, arith, inl,
  inr, Bool-cases,
}
use sqd_network.Base.Text.{Text}
use sqd_network.Base.Decimal.{digits, decimal, padded}
use sqd_network.DataChunk.{DataChunk, display, last_hash}
use sqd_network.Assignments.Ids.{pad, set_digit, fill_digits, push_padded, push_chunk_id}

abbrev zeros : ℕ → Text
zeros k = replicate k 48

abbrev one : ℕ → Text
one c = c ∷ []

-- The last `k` digits of a number.
unfoldable wide : ℕ → ℕ → Text
wide zero n = []
wide (suc k) n = wide k (n / 10) ++ one (48 + n % 10)

zeros-end : (k : ℕ) → zeros k ++ one 48 ≡ 48 ∷ zeros k
zeros-end zero = refl
zeros-end (suc k) = ap (λ (l : Text). 48 ∷ l) (zeros-end k)

wide-zero : (k : ℕ) → wide k 0 ≡ zeros k
unfolding wide
wide-zero zero = refl
wide-zero (suc k) = ap (λ l. l ++ one 48) (wide-zero k) ∙ zeros-end k

set_digit_last : (k c : ℕ) (t : Text) → set_digit (zeros (suc k) ++ t) k c ≡ zeros k ++ c ∷ t
unfolding set_digit
set_digit_last zero c t = refl
set_digit_last (suc k) c t = ap (λ (l : Text). 48 ∷ l) (set_digit_last k c t)

fill_digits-zero : (k : ℕ) (t : Text) → fill_digits k 0 t ≡ some t
unfolding fill_digits
fill_digits-zero zero t = refl
fill_digits-zero (suc k) t = refl

fill_digits-step :
    (k n : ℕ) (t : Text)
    → (n == 0) ≡ false
    → fill_digits (suc k) n t ≡ fill_digits k (n / 10) (set_digit t k (48 + n % 10))
unfolding fill_digits
fill_digits-step k n t h = rw h refl

-- The loop fills in exactly these digits, and stops within the array.
fill_digits-wide :
    (k n : ℕ) (t : Text) → n < 10 ^ k → fill_digits k n (zeros k ++ t) ≡ some (wide k n ++ t)
unfolding wide
fill_digits-wide zero n t h = let e : n ≡ 0 = omega (arith, h) in rw e (fill_digits-zero 0 t)
fill_digits-wide (suc k) n t h = elim (Bool-cases (n == 0)) [
  | inl z ↦
      let e : n ≡ 0 = ground arith in
      ap (λ n. fill_digits (suc k) n (zeros (suc k) ++ t)) e
      ∙ fill_digits-zero (suc k) (zeros (suc k) ++ t)
      ∙ ap (λ l. some (l ++ t)) (sym (wide-zero (suc k)))
      ∙ ap (λ n. some (wide (suc k) n ++ t)) (sym e)
  | inr z ↦
      fill_digits-step k n (zeros (suc k) ++ t) z
      ∙ ap (fill_digits k (n / 10)) (set_digit_last k (48 + n % 10) t)
      ∙ fill_digits-wide k (n / 10) ((48 + n % 10) ∷ t) (omega (arith, h))
      ∙ ap some (sym (append_assoc (wide k (n / 10)) (one (48 + n % 10)) t))
]

digits_small : (f n : ℕ) → ltb n 10 ≡ true → digits (suc f) n ≡ one (48 + n)
unfolding digits
digits_small f n h = rw h refl

digits_large :
    (f n : ℕ) → ltb n 10 ≡ false → digits (suc f) n ≡ digits f (n / 10) ++ one (48 + n % 10)
unfolding digits
digits_large f n h = rw h refl

abbrev filled : ℕ → Text → Text
filled k t = zeros (k - length t) ++ t

-- Zeros before the digits of a number that has at most `k` of them.
filled-wide : (f k n : ℕ) → n < f → n < 10 ^ k → 0 < k → filled k (digits f n) ≡ wide k n
unfolding wide
filled-wide zero k n h b p = absurd (omega (arith, h))
filled-wide (suc f) zero n h b p = absurd (omega (arith, p))
filled-wide (suc f) (suc k) n h b p = elim (Bool-cases (ltb n 10)) [
  | inl t ↦
      let small : n / 10 ≡ 0 = ground arith in
      let same : n % 10 ≡ n = ground arith in
      let room : suc k - 1 ≡ k = omega arith in
      ap (filled (suc k)) (digits_small f n t)
      ∙ ap (λ m. zeros m ++ one (48 + n)) room
      ∙ ap (λ l. l ++ one (48 + n)) (sym (wide-zero k))
      ∙ ap (λ m. wide k m ++ one (48 + n)) (sym small)
      ∙ ap (λ m. wide k (n / 10) ++ one (48 + m)) (sym same)
  | inr t ↦
      let rest = digits f (n / 10) in
      let more : 0 < k = positive k n b t in
      let count : suc k - length (rest ++ one (48 + n % 10)) ≡ k - length rest =
        omega (arith, length-append {0} rest (one (48 + n % 10))) in
      ap (filled (suc k)) (digits_large f n t)
      ∙ ap (λ m. zeros m ++ (rest ++ one (48 + n % 10))) count
      ∙ sym (append_assoc (zeros (k - length rest)) rest (one (48 + n % 10)))
      ∙ ap (λ l. l ++ one (48 + n % 10))
          (filled-wide f k (n / 10) (ground (arith, h)) (omega (arith, b)) more)
]
  where
    positive : (k n : ℕ) → n < 10 ^ suc k → ltb n 10 ≡ false → 0 < k
    positive zero n b t = absurd (ground (arith, b))
    positive (suc k) n b t = omega arith

power_pos : (k : ℕ) → 0 < 10 ^ k
power_pos zero = omega arith
power_pos (suc k) = omega (arith, power_pos k)

-- A number of at least `10 ^ k` has more than `k` digits.
length-digits : (f k n : ℕ) → n < f → 10 ^ k ≤ n → k < length (digits f n)
length-digits zero k n h b = absurd (omega (arith, h))
length-digits (suc f) k n h b = elim (Bool-cases (ltb n 10)) [
  | inl t ↦ few k b t
  | inr t ↦ many k b t (λ k small. length-digits f k (n / 10) small)
]
  where
    few : (k : ℕ) → 10 ^ k ≤ n → ltb n 10 ≡ true → k < length (digits (suc f) n)
    few zero b t = rw (digits_small f n t) (omega arith)
    few (suc k) b t = absurd (ground (arith, b, power_pos k))

    many :
        (k : ℕ)
        → 10 ^ k ≤ n
        → ltb n 10 ≡ false
        → ((k : ℕ) → n / 10 < f → 10 ^ k ≤ n / 10 → k < length (digits f (n / 10)))
        → k < length (digits (suc f) n)
    many zero b t more = omega (
      arith,
      ap length (digits_large f n t),
      length-append {0} (digits f (n / 10)) (one (48 + n % 10)),
    )
    many (suc k) b t more = omega (
      arith,
      ap length (digits_large f n t),
      length-append {0} (digits f (n / 10)) (one (48 + n % 10)),
      more k (ground (arith, h)) (omega (arith, b)),
    )

push_padded_large :
    (out : Text) (n : ℕ) → leb pad n ≡ true → push_padded out n ≡ some (out ++ decimal n)
unfolding push_padded
push_padded_large out n h = rw h refl

push_padded_small :
    (out digits : Text) (n : ℕ)
    → leb pad n ≡ false
    → fill_digits 10 n (zeros 10) ≡ some digits
    → push_padded out n ≡ some (out ++ digits)
unfolding push_padded
push_padded_small out digits n h f = rw (h, push_padded, f) refl

-- Any number is appended as `{:010}` prints it.
push_padded_lem : (out : Text) (n : ℕ) → push_padded out n ≡ some (out ++ padded n)
unfolding padded decimal
push_padded_lem out n = elim (Bool-cases (leb pad n)) [
  | inl t ↦
      let none_added : 10 - length (decimal n) ≡ 0 =
        omega (arith, length-digits (suc n) 10 n (omega arith) (ground arith)) in
      push_padded_large out n t ∙ ap (λ k. some (out ++ (zeros k ++ decimal n))) (sym none_added)
  | inr t ↦
      push_padded_small out (wide 10 n) n t
        (fill_digits-wide 10 n [] (ground arith) ∙ ap some (append-nil (wide 10 n)))
      ∙ ap (λ l. some (out ++ l))
          (sym (filled-wide (suc n) 10 n (omega arith) (ground arith) (omega arith)))
]

-- The id of any columns is appended without a panic, as `Display` prints the chunk of these columns.
pub push_chunk_id_lem :
    (out : Text) (c : DataChunk)
    → push_chunk_id out c.top c.first_block c.last_block (last_hash c) ≡ some (out ++ display c)
unfolding push_chunk_id display
push_chunk_id_lem out c =
    rw
      (
        push_padded_lem out c.top,
        push_chunk_id,
        push_padded_lem ((out ++ padded c.top) ++ one 47) c.first_block,
        push_padded_lem (((out ++ padded c.top) ++ one 47) ++ padded c.first_block ++ one 45)
            c.last_block,
      )
      (ap some (simp append_assoc refl))
