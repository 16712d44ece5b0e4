-- ===== src/Messages/Signatures/Bytes.antt =====
-- Byte strings that can be taken apart again.
use sqd_network.Base.{
  ℕ, zero, suc, ◌^◌, ◌%◌, ◌/◌, ◌<◌, ◌≡◌, refl, ap, [], ◌∷◌, ◌++◌, length, append_assoc, sym, ◌∙◌,
  u32_mod, arith,
}
use sqd_network.Base.Text.{Text}
use sqd_network.Messages.Signatures.{le_bytes, with_length}

pub length-le_bytes : (width n : ℕ) → length (le_bytes width n) ≡ width
unfolding le_bytes
length-le_bytes zero n = refl
length-le_bytes (suc width) n = ap suc (length-le_bytes width (n / 256))

-- Two strings that begin with parts of one length.
pub split_append : (a b s t : Text) → length a ≡ length b → a ++ s ≡ b ++ t → (a ≡ b) × (s ≡ t)
split_append [] [] s t l e = (refl, e)
split_append [] (y ∷ b) s t l e = absurd (omega arith)
split_append (x ∷ a) [] s t l e = absurd (omega arith)
split_append (x ∷ a) (y ∷ b) s t l e =
    let (p, q) = split_append a b s t (omega arith) (cc) in (cc p, q)

-- Little-endian bytes determine a number that fits them: `bound` is 256 to the width.
pub le_bytes-injective :
    (width m n : ℕ)
    → m < 256 ^ width
    → n < 256 ^ width
    → le_bytes width m ≡ le_bytes width n
    → m ≡ n
unfolding le_bytes
le_bytes-injective zero m n a b e = omega arith
le_bytes-injective (suc width) m n a b e =
    let low : m % 256 ≡ n % 256 = cc in
    let high = le_bytes-injective width (m / 256) (n / 256) (omega arith) (omega arith) (cc) in
    omega arith

-- A field behind its length, and what follows it.
pub split_with_length :
    (a b s t : Text)
    → length a < u32_mod
    → length b < u32_mod
    → with_length a ++ s ≡ with_length b ++ t
    → (a ≡ b) × (s ≡ t)
unfolding with_length
split_with_length a b s t p q e =
    let la = le_bytes 4 (length a) in
    let lb = le_bytes 4 (length b) in
    let (front, back) =
      split_append la lb (a ++ s) (b ++ t)
        (length-le_bytes 4 (length a) ∙ sym (length-le_bytes 4 (length b)))
        (sym (append_assoc la a s) ∙ e ∙ append_assoc lb b t) in
    split_append a b s t
      (le_bytes-injective 4 (length a) (length b) (omega arith) (omega arith) front) back

pub split_le_bytes :
    (width m n : ℕ) (s t : Text)
    → m < 256 ^ width
    → n < 256 ^ width
    → le_bytes width m ++ s ≡ le_bytes width n ++ t
    → (m ≡ n) × (s ≡ t)
split_le_bytes width m n s t p q e =
    let (front, back) =
      split_append (le_bytes width m) (le_bytes width n) s t
        (length-le_bytes width m ∙ sym (length-le_bytes width n)) e in
    (le_bytes-injective width m n p q front, back)
