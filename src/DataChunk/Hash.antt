-- ===== src/DataChunk/Hash.antt =====
-- The stored hash: padding and trimming.
use sqd_network.Base.{
  ℕ, zero, suc, ◌-◌, ◌≡◌, refl, true, some, [], ◌∷◌, ◌++◌, replicate, length, ◌≤◌, arith,
}
use sqd_network.Base.Text.{Text}
use sqd_network.DataChunk.{DataChunk, all_word, pad_hash, new, trim_nul, last_hash}

trim_nul-replicate : (k : ℕ) → trim_nul (replicate k 0) ≡ []
unfolding trim_nul
trim_nul-replicate zero = refl
trim_nul-replicate (suc k) = refl

pub trim_nul-pad : (s : Text) (k : ℕ) → all_word s ≡ true → trim_nul (s ++ replicate k 0) ≡ s
unfolding trim_nul all_word
trim_nul-pad [] k h = trim_nul-replicate k
trim_nul-pad (b ∷ s) k h = ground (arith, trim_nul-pad s k)

-- What `new` accepts, and what it stores.
pub new-eq-some :
    (t f l : ℕ) (h : Text) (c : DataChunk)
    → new t f l h ≡ some c
    → (t ≤ f)
      × (f ≤ l)
      × (5 ≤ length h)
      × (length h ≤ 8)
      × (all_word h ≡ true)
      × (c ≡ record { top = t; first_block = f; last_block = l; last_hash_bytes = pad_hash h })
unfolding new
new-eq-some t f l h c e = ground arith

-- The hash that `new` was given is read back.
pub last_hash-new : (t f l : ℕ) (h : Text) (c : DataChunk) → new t f l h ≡ some c → last_hash c ≡ h
unfolding last_hash pad_hash
last_hash-new t f l h c e =
    let facts = new-eq-some t f l h c e in rw facts.5 (trim_nul-pad h (8 - length h) facts.4)
