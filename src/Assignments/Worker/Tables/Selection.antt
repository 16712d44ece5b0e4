-- ===== src/Assignments/Worker/Tables/Selection.antt =====
-- The tables that a bitmap was made of are the tables that it selects.
use sqd_network.Base.{
  ℕ, suc, ◌+◌, ◌*◌, ◌/◌, ◌≤◌, ◌<◌, ◌≡◌, refl, sym, ap, ◌∙◌, Bool, true, false, ◌&&◌, ◌||◌, not,
  some, List, [], ◌∷◌, length, length-replicate, replicate, ok, ◌==◌, arith, inl, inr, Bool-cases,
  Option-cases, All,
}
use sqd_network.Base.Text.{Text, text_eq, text_lt, text_eq_iff, text_lt_trans}
use sqd_network.Base.Bits.{
  bit_at, set_bit, AreBytes, bit_at-set_bit, set_bit-AreBytes, length-set_bit, replicate-AreBytes,
  bit_at-replicate,
}
use sqd_network.Assignments.Worker.{Builder, btree_get}
use sqd_network.Assignments.Worker.Staging.{ChunkBuilder, is_ascending}
use sqd_network.Assignments.Worker.Reader.{some_bits}
use sqd_network.Assignments.Worker.Tables.{
  skip_to, mark_tables, no_tables, tables_present, select_from, chunk_tables,
}

-- No bit from `i` on.
abbrev ClearFrom : ℕ → List ℕ → Type 0
ClearFrom i bits = (j : ℕ) → i ≤ j → bit_at bits j ≡ false

select_none :
    (i : ℕ) (roster : List Text) (bits : List ℕ) → ClearFrom i bits → select_from i roster bits ≡ []
unfolding select_from
select_none i [] bits c = refl
select_none i (t ∷ roster) bits c =
    ground (arith, c i (omega arith), select_none (suc i) roster bits (λ j le. c j (omega arith)))

-- The cursor passes over tables that are not selected.
record Skipped (name : Text) (i : ℕ) (roster : List Text) : Type 0 where
  forward : i ≤ (skip_to name i roster).0
  left : (skip_to name i roster).0 + length (skip_to name i roster).1 ≡ i + length roster
  passed :
      (bits : List ℕ)
      → ((j : ℕ) → i ≤ j → j < (skip_to name i roster).0 → bit_at bits j ≡ false)
      → select_from i roster bits
        ≡ select_from (skip_to name i roster).0 (skip_to name i roster).1 bits

select_past :
    (t : Text) (i : ℕ) (roster : List Text) (bits : List ℕ)
    → bit_at bits i ≡ false
    → select_from i (t ∷ roster) bits ≡ select_from (suc i) roster bits
unfolding select_from
select_past t i roster bits h = rw (h, select_from) refl

select_here :
    (t : Text) (i : ℕ) (roster : List Text) (bits : List ℕ)
    → bit_at bits i ≡ true
    → select_from i (t ∷ roster) bits ≡ t ∷ select_from (suc i) roster bits
unfolding select_from
select_here t i roster bits h = rw (h, select_from) refl

moves_on :
    (name t : Text) (i : ℕ) (roster : List Text)
    → skip_to name i (t ∷ roster) ≡ skip_to name (suc i) roster
    → Skipped name (suc i) roster
    → Skipped name i (t ∷ roster)
moves_on name t i roster e more = record {
  forward = rw e (omega (arith, more.forward));
  left = rw e (omega (arith, more.left));
  passed = rw e (λ bits h.
      select_past t i roster bits (h i (omega arith) (omega (arith, more.forward)))
      ∙ more.passed bits (λ j a b. h j (omega arith) b));
}

stops_here :
    (name t : Text) (i : ℕ) (roster : List Text)
    → skip_to name i (t ∷ roster) ≡ (i, t ∷ roster)
    → Skipped name i (t ∷ roster)
stops_here name t i roster e = record {
  forward = rw e (omega arith);
  left = rw e refl;
  passed = rw e (λ bits h. refl);
}

skip_past :
    (name t : Text) (i : ℕ) (roster : List Text)
    → text_lt t name ≡ true
    → skip_to name i (t ∷ roster) ≡ skip_to name (suc i) roster
unfolding skip_to
skip_past name t i roster h = rw (h, skip_to) refl

skip_stop :
    (name t : Text) (i : ℕ) (roster : List Text)
    → text_lt t name ≡ false
    → skip_to name i (t ∷ roster) ≡ (i, t ∷ roster)
unfolding skip_to
skip_stop name t i roster h = rw (h, skip_to) refl

skip_to-Skipped : (name : Text) (i : ℕ) (roster : List Text) → Skipped name i roster
skip_to-Skipped name i [] =
    unfold skip_to in record { forward = omega arith; left = refl; passed = λ bits h. refl }
skip_to-Skipped name i (t ∷ roster) = elim (Bool-cases (text_lt t name)) [
  | inl lt ↦
      moves_on name t i roster (skip_past name t i roster lt) (skip_to-Skipped name (suc i) roster)
  | inr ge ↦ stops_here name t i roster (skip_stop name t i roster ge)
]

-- What the loop does with a table: it is found where the cursor stops, and its bit is set.
mark_step :
    (name : Text) (tables : List Text) (i : ℕ) (roster : List Text) (bits : List ℕ)
    → (mark_tables (name ∷ tables) i roster bits).1 ≡ ok tt
    → (rest : List Text) × ((skip_to name i roster).1 ≡ name ∷ rest)
      × (mark_tables (name ∷ tables) i roster bits
          ≡ mark_tables tables
              (suc (skip_to name i roster).0)
              rest
              (set_bit bits (skip_to name i roster).0))
unfolding mark_tables
mark_step name tables i roster bits h = found (skip_to name i roster).1 refl
  where
    found :
        (rest : List Text)
        → (skip_to name i roster).1 ≡ rest
        → (rest : List Text) × ((skip_to name i roster).1 ≡ name ∷ rest)
          × (mark_tables (name ∷ tables) i roster bits
              ≡ mark_tables tables
                  (suc (skip_to name i roster).0)
                  rest
                  (set_bit bits (skip_to name i roster).0))
    found [] e = absurd (ground (arith, e))
    found (t ∷ rest) e = elim (Bool-cases (text_eq t name)) [
      | inl q ↦
          let k : t ≡ name = (text_eq_iff t name).0 q in
          (rest, e ∙ ap (λ x. x ∷ rest) k, rw (e, mark_tables, q) refl)
      | inr q ↦ absurd (ground (arith, e, q))
    ]

-- Where every table is found, the bits from the cursor on select just these, and the earlier bits stay.
mark_tables_lem :
    (tables : List Text) (i : ℕ) (roster : List Text) (bits : List ℕ)
    → (mark_tables tables i roster bits).1 ≡ ok tt
    → AreBytes bits
    → i + length roster ≤ length bits * 8
    → ClearFrom i bits
    → (select_from i roster (mark_tables tables i roster bits).0 ≡ tables)
      × ((j : ℕ) → j < i → bit_at (mark_tables tables i roster bits).0 j ≡ bit_at bits j)
mark_tables_lem [] i roster bits h a fits c =
    unfold mark_tables in (select_none i roster bits c, λ j lt. refl)
mark_tables_lem (name ∷ tables) i roster bits h a fits c =
    let k = (skip_to name i roster).0 in
    let s = skip_to-Skipped name i roster in
    let (rest, found, same) = mark_step name tables i roster bits h in
    let set = set_bit bits k in
    let place : k + suc (length rest) ≡ i + length roster =
      sym (ap (λ l. k + length l) found) ∙ s.left in
    let in_range : k < length bits * 8 = omega arith in
    let sets : (j : ℕ) → bit_at set j ≡ (k == j) || bit_at bits j =
      λ j. bit_at-set_bit bits k j a in_range in
    let (chosen, kept) =
      mark_tables_lem tables (suc k) rest set (ap (λ p. p.1) (sym same) ∙ h)
        (set_bit-AreBytes bits k a) (omega (arith, length-set_bit bits k))
        (λ j le. ground (arith, sets j, c j (omega (arith, s.forward)))) in
    let before : (j : ℕ)
        → j < k
        → bit_at (mark_tables tables (suc k) rest set).0 j ≡ bit_at bits j =
      λ j lt. ground (arith, kept j (omega arith), sets j) in
    let here : bit_at (mark_tables tables (suc k) rest set).0 k ≡ true =
      ground (arith, kept k (omega arith), sets k) in
    rw same (
      s.passed _ (λ j le lt. before j lt ∙ c j le)
          ∙ ap (λ l. select_from k l (mark_tables tables (suc k) rest set).0) found
          ∙ select_here name k rest _ here
          ∙ ap (λ l. name ∷ l) chosen,
      λ j lt. before j (omega (arith, s.forward)),
    )

-- An empty bitmap stands for the whole roster, and is staged only for an empty one.
chunk_tables_empty :
    (roster tables : List Text) (bits : List ℕ)
    → length bits ≡ (length roster + 7) / 8
    → select_from 0 roster bits ≡ tables
    → chunk_tables (some roster) (some_bits bits) ≡ some tables
unfolding chunk_tables some_bits
chunk_tables_empty [] tables [] l s = ap some s
chunk_tables_empty (t ∷ roster) tables [] l s = absurd (omega arith)
chunk_tables_empty roster tables (x ∷ bits) l s = ap some s

length-mark_tables :
    (tables : List Text) (i : ℕ) (roster : List Text) (bits : List ℕ)
    → length (mark_tables tables i roster bits).0 ≡ length bits
unfolding mark_tables
length-mark_tables [] i roster bits = refl
length-mark_tables (name ∷ tables) i roster bits = found (skip_to name i roster).1 refl (λ rest.
    length-mark_tables tables (suc (skip_to name i roster).0) rest
      (set_bit bits (skip_to name i roster).0))
  where
    found :
        (rest : List Text)
        → (skip_to name i roster).1 ≡ rest
        → ((rest : List Text)
            → length
                (mark_tables tables
                  (suc (skip_to name i roster).0)
                  rest
                  (set_bit bits (skip_to name i roster).0)).0
              ≡ length (set_bit bits (skip_to name i roster).0))
        → length (mark_tables (name ∷ tables) i roster bits).0 ≡ length bits
    found [] e more = ground (arith, e)
    found (t ∷ rest) e more =
        ground (arith, e, more rest, length-set_bit bits (skip_to name i roster).0)

-- The bitmap made over a whole roster selects the tables that it was made of.
mark_all :
    (roster tables : List Text)
    → (mark_tables tables 0 roster (no_tables roster)).1 ≡ ok tt
    → chunk_tables (some roster) (some_bits (mark_tables tables 0 roster (no_tables roster)).0)
      ≡ some tables
unfolding no_tables
mark_all roster tables h =
    let n = (length roster + 7) / 8 in
    let bits : List ℕ = replicate n 0 in
    let (chosen, _) =
      mark_tables_lem tables 0 roster bits h (replicate-AreBytes n)
        (omega (arith, length-replicate {A = ℕ} n 0)) (λ j le. bit_at-replicate n j) in
    chunk_tables_empty roster tables (mark_tables tables 0 roster bits).0
      (length-mark_tables tables 0 roster bits ∙ length-replicate {A = ℕ} n 0) chosen

module _ {P E : Type 0} where
  -- Where `tables_present` succeeds, the chunk's write schema is registered and is the one that the
  -- bitmap is recorded against, and `chunk_tables` over its roster returns from the staged bitmap just
  -- the tables that were given.
  pub tables_present_reads_back :
      (checked : Bool) (b : Builder P E) (c c' : ChunkBuilder) (tables : List Text)
      → (tables_present checked b c tables).1 ≡ ok c'
      → (schema : ℕ) × (roster : List Text) × (c.write_schema_id ≡ some schema)
        × (btree_get schema b.write_schemas ≡ some roster)
        × (c'.tables_present ≡ some schema)
        × (chunk_tables
              (some roster)
              (some_bits (tables_present checked b c tables).0.staged_tables_present)
            ≡ some tables)
  unfolding tables_present
  tables_present_reads_back checked b c c' tables h =
      elim (Bool-cases (checked && not (is_ascending tables))) [
        | inl bad ↦ absurd (ground (arith, bad))
        | inr good ↦ elim (Option-cases c.write_schema_id) [
          | inl n ↦ absurd (ground (arith, good, n))
          | inr (schema, e) ↦ elim (Option-cases (btree_get schema b.write_schemas)) [
            | inl n ↦ absurd (ground (arith, good, e, n))
            | inr (roster, g) ↦
                let marked : (mark_tables tables 0 roster (no_tables roster)).1 ≡ ok tt =
                  ground (arith, good, e, g) in
                let staged : (tables_present checked b c tables).0.staged_tables_present
                    ≡ (mark_tables tables 0 roster (no_tables roster)).0 =
                  ground (arith, good, e, g) in
                (
                  schema,
                  roster,
                  e,
                  g,
                  ground (arith, good, e, g),
                  ap (λ l. chunk_tables (some roster) (some_bits l)) staged
                      ∙ mark_all roster tables marked,
                )
          ]
        ]
      ]

-- Every table that a bitmap selects from a roster above `t` is above `t`.
AllAbove : Text → List Text → Type 0
AllAbove t = All (λ s. text_lt t s ≡ true)

roster_above :
    (t : Text) (roster : List Text) → is_ascending (t ∷ roster) ≡ true → AllAbove t roster
unfolding is_ascending AllAbove
roster_above t [] h = tt
roster_above t (s ∷ roster) h =
    let lt : text_lt t s ≡ true = ground arith in
    let more : is_ascending (s ∷ roster) ≡ true = ground arith in
    (lt, raise s roster lt (roster_above s roster more))
  where
    raise : (s : Text) (rs : List Text) → text_lt t s ≡ true → AllAbove s rs → AllAbove t rs
    raise s [] lt a = unfold AllAbove in tt
    raise s (r ∷ rs) lt a = unfold AllAbove in (text_lt_trans t s r lt a.0, raise s rs lt a.1)

select_above :
    (t : Text) (i : ℕ) (roster : List Text) (bits : List ℕ)
    → AllAbove t roster
    → AllAbove t (select_from i roster bits)
unfolding AllAbove select_from
select_above t i [] bits a = tt
select_above t i (s ∷ roster) bits a = ground (arith, a.0, select_above t (suc i) roster bits a.1)
