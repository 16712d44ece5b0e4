-- ===== src/DataChunk/RoundTrip.antt =====
-- Printing and parsing a chunk id.
use sqd_network.Base.{
  ℕ, ◌<◌, ◌≡◌, ◌≢◌, ap, ◌∙◌, some, [], ◌∷◌, ◌++◌, arith, All, All-imp, u64_mod, ◌==◌, false,
}
use sqd_network.Base.Text.{Text}
use sqd_network.Base.Decimal.{padded, padded-IsDigit, parse_u64, parse_u64-padded}
use sqd_network.DataChunk.{DataChunk, new, display, split_once, from_str}
use sqd_network.DataChunk.Hash.{new-eq-some, last_hash-new}

-- A text without the separator is what stands before it.
split_once-append :
    (sep : ℕ) (s t : Text) → All (λ c. c ≢ sep) s → split_once sep (s ++ sep ∷ t) ≡ some (s, t)
unfolding split_once
split_once-append sep [] t h = ground arith
split_once-append sep (c ∷ s) t h =
    let e : (c == sep) ≡ false = ground arith in rw (split_once-append sep s t h.1, e)

split_once-padded :
    (sep n : ℕ) (t : Text) → sep < 48 → split_once sep (padded n ++ sep ∷ t) ≡ some (padded n, t)
split_once-padded sep n t h =
    split_once-append sep (padded n) t
      (All-imp (λ c d. λ e. omega arith) (padded n) (padded-IsDigit n))

from_str_parts :
    (s top range first rest last hash : Text) (t f l : ℕ)
    → split_once 47 s ≡ some (top, range)
    → split_once 45 range ≡ some (first, rest)
    → split_once 45 rest ≡ some (last, hash)
    → parse_u64 top ≡ some t
    → parse_u64 first ≡ some f
    → parse_u64 last ≡ some l
    → from_str s ≡ new t f l hash
unfolding from_str
from_str_parts s top range first rest last hash t f l a b c p q r = rw (a, from_str, b, c, p, q, r)

-- Parsing what `Display` prints returns the chunk, for every chunk that `DataChunk::new` makes from
-- 64-bit block numbers.
pub from_str-display :
    (t f l : ℕ) (h : Text) (c : DataChunk)
    → new t f l h ≡ some c
    → l < u64_mod
    → from_str (display c) ≡ some c
unfolding display
from_str-display t f l h c e b =
    let facts = new-eq-some t f l h c e in
    let t_eq : c.top ≡ t = ap (λ (d : DataChunk). d.top) facts.5 in
    let f_eq : c.first_block ≡ f = ap (λ (d : DataChunk). d.first_block) facts.5 in
    let l_eq : c.last_block ≡ l = ap (λ (d : DataChunk). d.last_block) facts.5 in
    from_str_parts _ _ _ _ _ _ _ c.top c.first_block c.last_block
      (split_once-padded 47 c.top _ (omega arith))
      (split_once-padded 45 c.first_block _ (omega arith))
      (split_once-padded 45 c.last_block _ (omega arith)) (parse_u64-padded c.top (omega arith))
      (parse_u64-padded c.first_block (omega arith)) (parse_u64-padded c.last_block (omega arith))
    ∙ cc (t_eq, f_eq, l_eq, last_hash-new t f l h c e)
