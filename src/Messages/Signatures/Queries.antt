-- ===== src/Messages/Signatures/Queries.antt =====
-- `Query::msg_to_sign` is invertible: two queries that are signed as the same bytes agree.
use sqd_network.Base.{
  ℕ, ◌<◌, ◌≡◌, ◌⊎◌, refl, sym, ap, ◌∙◌, Option, none, some, [], ◌∷◌, ◌++◌, length, length-append,
  append_assoc, ok, ◌==◌, ◌&&◌, u32_mod, u64_mod, arith, inl, inr, Option-cases, Bool-cases,
}
use sqd_network.Base.Text.{Text}
use sqd_network.Messages.Range.{Range}
use sqd_network.Messages.Signatures.{
  Query, uuid_v4_size, le_bytes, range_bytes, engine_bytes, query_head, msg_to_sign_query,
}
use sqd_network.Messages.Signatures.Bytes.{
  length-le_bytes, split_append, split_le_bytes, split_with_length,
}

-- The numbers of a query fit their fields.
pub record IsQuery (q : Query) : Type 0 where
  pub timestamp_fits : q.timestamp_ms < u64_mod
  pub range_fits : (r : Range) → q.block_range ≡ some r → (r.begin < u64_mod) × (r.end < u64_mod)

-- What `msg_to_sign` took, where it returns bytes.
pub record Signed (q : Query) (w m : Text) : Type 0 where
  pub engine : Text
  pub id_length : length q.query_id ≡ uuid_v4_size
  pub dataset_fits : length q.dataset < u32_mod
  pub query_fits : length q.query < u32_mod
  pub chunk_id_fits : length q.chunk_id < u32_mod
  pub engine_part : engine_bytes q.block_range q.query_engine q.output_format ≡ some engine
  pub bytes : m ≡ query_head q w (range_bytes q.block_range ++ engine)

msg_to_sign_query-Signed : (q : Query) (w m : Text) → msg_to_sign_query q w ≡ ok m → Signed q w m
unfolding msg_to_sign_query
msg_to_sign_query-Signed q w m h =
    elim (Option-cases (engine_bytes q.block_range q.query_engine q.output_format)) [
      | inl n ↦ absurd (ground arith)
      | inr (engine, e) ↦ record {
        engine = engine;
        id_length = ground arith;
        dataset_fits = ground arith;
        query_fits = ground arith;
        chunk_id_fits = ground arith;
        engine_part = e;
        bytes = ground arith;
      }
    ]

-- The end of the bytes: the range and the engine fields.
length-range_bytes : (r : Range) → length (range_bytes (some r)) ≡ 16
unfolding range_bytes
length-range_bytes r =
    length-append (le_bytes 8 r.begin) (le_bytes 8 r.end)
    ∙ omega (arith, length-le_bytes 8 r.begin, length-le_bytes 8 r.end)

split_range :
    (r s : Range) (a b : Text)
    → (r.begin < u64_mod) × (r.end < u64_mod)
    → (s.begin < u64_mod) × (s.end < u64_mod)
    → range_bytes (some r) ++ a ≡ range_bytes (some s) ++ b
    → (r ≡ s) × (a ≡ b)
unfolding range_bytes
split_range r s a b f g e =
    let (begins, more) =
      split_le_bytes 8 r.begin s.begin (le_bytes 8 r.end ++ a) (le_bytes 8 s.end ++ b)
        (omega (arith, f.0)) (omega (arith, g.0))
        (sym (append_assoc (le_bytes 8 r.begin) (le_bytes 8 r.end) a)
          ∙ e
          ∙ append_assoc (le_bytes 8 s.begin) (le_bytes 8 s.end) b) in
    let (ends, rest) =
      split_le_bytes 8 r.end s.end a b (omega (arith, f.1)) (omega (arith, g.1)) more in
    (cc (begins, ends), rest)

-- The engine fields without a range are none or three bytes, and with one none or two.
engine_alone :
    (e f : ℕ) (a : Text) → engine_bytes none e f ≡ some a → (length a ≡ 0) ⊎ (length a ≡ 3)
unfolding engine_bytes
engine_alone e f a h = elim (Bool-cases (e == 0 && f == 0)) [
  | inl t ↦ let k : a ≡ [] = ground arith in inl (ap length k)
  | inr t ↦ let k : a ≡ 0 ∷ e ∷ f ∷ [] = ground arith in inr (ap length k)
]

engine_injective :
    (r s : Option Range) (e f e' f' : ℕ) (a : Text)
    → r ≡ s
    → engine_bytes r e f ≡ some a
    → engine_bytes s e' f' ≡ some a
    → (e ≡ e') × (f ≡ f')
unfolding engine_bytes
engine_injective none none e f e' f' a k h h' = (ground arith, ground arith)
engine_injective (some r) (some s) e f e' f' a k h h' = (ground arith, ground arith)
engine_injective none (some s) e f e' f' a k h h' = absurd (cc)
engine_injective (some r) none e f e' f' a k h h' = absurd (cc)

split_tail :
    (r s : Option Range) (e f e' f' : ℕ) (a b : Text)
    → ((x : Range) → r ≡ some x → (x.begin < u64_mod) × (x.end < u64_mod))
    → ((x : Range) → s ≡ some x → (x.begin < u64_mod) × (x.end < u64_mod))
    → engine_bytes r e f ≡ some a
    → engine_bytes s e' f' ≡ some b
    → range_bytes r ++ a ≡ range_bytes s ++ b
    → (r ≡ s) × (a ≡ b)
split_tail none none e f e' f' a b u v h k q = unfold range_bytes in (refl, q)
split_tail (some x) (some y) e f e' f' a b u v h k q =
    let (same, rest) = split_range x y a b (u x refl) (v y refl) q in (ap some same, rest)
split_tail none (some y) e f e' f' a b u v h k q =
    absurd (longer y a b (engine_alone e f a h) (none_first a q))
  where
    none_first : {t : Text} (a : Text) → range_bytes none ++ a ≡ t → a ≡ t
    none_first a q = unfold range_bytes in q

    longer :
        (y : Range) (a b : Text)
        → (length a ≡ 0) ⊎ (length a ≡ 3)
        → a ≡ range_bytes (some y) ++ b
        → ⊥
    longer y a b short q =
        let n = ap length q ∙ length-append (range_bytes (some y)) b in
        elim short [
          | inl z ↦ omega (arith, n, length-range_bytes y)
          | inr z ↦ omega (arith, n, length-range_bytes y)
        ]
split_tail (some x) none e f e' f' a b u v h k q =
    absurd (longer x a b (engine_alone e' f' b k) (none_last b q))
  where
    none_last : {t : Text} (b : Text) → t ≡ range_bytes none ++ b → b ≡ t
    none_last b q = unfold range_bytes in sym q

    longer :
        (x : Range) (a b : Text)
        → (length b ≡ 0) ⊎ (length b ≡ 3)
        → b ≡ range_bytes (some x) ++ a
        → ⊥
    longer x a b short q =
        let n = ap length q ∙ length-append (range_bytes (some x)) a in
        elim short [
          | inl z ↦ omega (arith, n, length-range_bytes x)
          | inr z ↦ omega (arith, n, length-range_bytes x)
        ]

-- Every field that the signature covers agrees.
pub record SameSigned (q p : Query) : Type 0 where
  pub query_id : q.query_id ≡ p.query_id
  pub timestamp_ms : q.timestamp_ms ≡ p.timestamp_ms
  pub dataset : q.dataset ≡ p.dataset
  pub query : q.query ≡ p.query
  pub chunk_id : q.chunk_id ≡ p.chunk_id
  pub block_range : q.block_range ≡ p.block_range
  pub query_engine : q.query_engine ≡ p.query_engine
  pub output_format : q.output_format ≡ p.output_format

-- The bytes of a peer id, a multihash with its own length, end by themselves.
abbrev pub EndsItself : {W : Type 0} → (W → Text) → Type 0
EndsItself {W} to_bytes =
    (v w : W) (s t : Text) → to_bytes v ++ s ≡ to_bytes w ++ t → (v ≡ w) × (s ≡ t)

-- Two queries that are signed as the same bytes, for workers whose ids' bytes end by themselves, are
-- for one worker and agree in every field that the signature covers: the query id, timestamp,
-- dataset, query, chunk id, block range, engine and output format.
pub msg_to_sign_query-injective :
    {W : Type 0} (to_bytes : W → Text)
    → EndsItself to_bytes
    → (q p : Query) (v w : W) (m : Text) → IsQuery q
    → IsQuery p
    → msg_to_sign_query q (to_bytes v) ≡ ok m
    → msg_to_sign_query p (to_bytes w) ≡ ok m
    → (v ≡ w) × SameSigned q p
unfolding query_head
msg_to_sign_query-injective to_bytes ends q p v w m fq fp hq hp =
    let a = msg_to_sign_query-Signed q (to_bytes v) m hq in
    let b = msg_to_sign_query-Signed p (to_bytes w) m hp in
    let tail_a = range_bytes q.block_range ++ a.engine in
    let tail_b = range_bytes p.block_range ++ b.engine in
    let (ids, e1) =
      split_append q.query_id p.query_id _ _ (a.id_length ∙ sym b.id_length)
        (sym a.bytes ∙ b.bytes) in
    let (workers, e2) = ends v w _ _ e1 in
    let (times, e3) =
      split_le_bytes 8 q.timestamp_ms p.timestamp_ms _ _ (omega (arith, fq.timestamp_fits))
        (omega (arith, fp.timestamp_fits)) e2 in
    let (sets, e4) = split_with_length q.dataset p.dataset _ _ a.dataset_fits b.dataset_fits e3 in
    let (queries, e5) = split_with_length q.query p.query _ _ a.query_fits b.query_fits e4 in
    let (chunks, e6) =
      split_with_length q.chunk_id p.chunk_id tail_a tail_b a.chunk_id_fits b.chunk_id_fits e5 in
    let (ranges, engines) =
      split_tail q.block_range p.block_range q.query_engine q.output_format p.query_engine
        p.output_format a.engine b.engine fq.range_fits fp.range_fits a.engine_part b.engine_part
        e6 in
    let (engine, format) =
      engine_injective q.block_range p.block_range q.query_engine q.output_format p.query_engine
        p.output_format a.engine ranges a.engine_part (b.engine_part ∙ ap some (sym engines)) in
    (
      workers,
      record {
        query_id = ids;
        timestamp_ms = times;
        dataset = sets;
        query = queries;
        chunk_id = chunks;
        block_range = ranges;
        query_engine = engine;
        output_format = format;
      },
    )
