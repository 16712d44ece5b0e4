-- ===== src/Tests/Fleets.antt =====
-- A worker assignment's fleet, sealed headers, and the tables of a chunk.
use sqd_network.Base.{
  get_elem?, ◌≤◌, length, ap, ◌∙◌, append_assoc, ℕ, suc, ◌≡◌, refl, true, false, Option, none, some,
  List, [], ◌∷◌, ◌++◌, drop, replicate, ok, err, panic, ◌==◌, if◌then◌else◌, arith, All,
}
use sqd_network.Base.Order.{nat_ord}
use sqd_network.Base.Text.{Text, text_eq, text_lt}
use sqd_network.Base.Bits.{set_bit, bit_at}
use sqd_network.Assignments.Entries
use sqd_network.Assignments.Entries.{AssignedWorker, PeerText, worker_id_from, u16_mod}
use sqd_network.Assignments.Worker.{no_columns, btree_get}
use sqd_network.Assignments.Worker.Staging.{ChunkBuilder, is_ascending}
use sqd_network.Assignments.Worker.Reader.{some_bits}
use sqd_network.Assignments.Worker.Tables.{tables_present, chunk_tables, mark_tables}
use sqd_network.Assignments.Worker.Tables.Selection.{tables_present_reads_back}
use sqd_network.Assignments.Worker.Fleet.{
  WorkerStatus, EncryptedHeaders, Sealer, Crypto, Fleet, timed_hmac, generate_encrypted_headers,
  finish, get_worker, headers_json, add_worker_with_timestamp, add_worker_with_sealed_headers,
  encrypt_with_rng,
}
use sqd_network.Assignments.Worker.Fleet.Adding.{Addition, add_all, HaveRoom}
use sqd_network.Assignments.Worker.Fleet.Lookup.{FindsAll, add_all-FindsAll}
use sqd_network.Assignments.Worker.Fleet.Headers.{
  Opener, Agrees, object_text, IsPlain, IsWritten, decrypt_headers, worker_id_key,
  worker_signature_key, sealed_headers_open,
}

-- A library that seals nothing and whose tokens are "t".
abbrev crypto : Crypto ℕ
crypto = record {
  montgomery = λ bytes. some bytes;
  generate_nonce = λ r. (replicate 24 r, suc r);
  encrypt = λ pk sk nonce m. some m;
  public_key = λ sk. sk;
  token = λ secret message. 116 ∷ [];
}

-- A peer id is 38 bytes of one kind, and prints as "w".
abbrev peers : PeerText ℕ
peers = record {
  to_bytes = λ id. replicate 38 id;
  from_bytes = λ s. get_elem? s 0;
  to_string = λ id. 119 ∷ [];
  from_bytes-to_bytes = λ id. refl;
}

-- What stands before the first quote, and what is from there on.
until : Text → Text × Text
until [] = ([], [])
until (c ∷ s) = let (a, b) = until s in if c == 34 then ([], c ∷ s) else (c ∷ a, b)

until-append : (a s : Text) → All IsPlain a → until (a ++ 34 ∷ s) ≡ (a, 34 ∷ s)
unfolding until
until-append [] s p = refl
until-append (c ∷ a) s p =
    let other : (c == 34) ≡ false = ground (arith, p.0.2) in
    ground (arith, other, until-append a s p.1)

parse : Text → Option (Option (List (Text × Option Text)))
unfolding until
parse m =
    let (k, r) = until (drop 2 m) in
    let (a, r1) = until (drop 3 r) in
    let (l, r2) = until (drop 3 r1) in
    let (b, _) = until (drop 3 r2) in some (some ((k, some a) ∷ (l, some b) ∷ []))

-- The object with its texts one after another.
flat_text : Text × Text → Text × Text → Text
flat_text a b =
    123
    ∷ 34
    ∷ (a.0 ++ 34 ∷ 58 ∷ 34 ∷ (a.1 ++ 34 ∷ 44 ∷ 34 ∷ (b.0 ++ 34 ∷ 58 ∷ 34 ∷ (b.1 ++ 34 ∷ 125 ∷ []))))

object_text-flat : (a b : Text × Text) → object_text a b ≡ flat_text a b
unfolding flat_text
object_text-flat a b = simp append_assoc refl

parse-flat :
    (a b : Text × Text)
    → All IsPlain a.0
    → All IsPlain a.1
    → All IsPlain b.0
    → All IsPlain b.1
    → parse (flat_text a b) ≡ some (some ((a.0, some a.1) ∷ (b.0, some b.1) ∷ []))
unfolding parse flat_text
parse-flat a b p q r s =
    rw
      (
        until-append a.0
            (58 ∷ 34 ∷ (a.1 ++ 34 ∷ 44 ∷ 34 ∷ (b.0 ++ 34 ∷ 58 ∷ 34 ∷ (b.1 ++ 34 ∷ 125 ∷ [])))) p,
        until-append a.1 (44 ∷ 34 ∷ (b.0 ++ 34 ∷ 58 ∷ 34 ∷ (b.1 ++ 34 ∷ 125 ∷ []))) q,
        until-append b.0 (58 ∷ 34 ∷ (b.1 ++ 34 ∷ 125 ∷ [])) r,
        until-append b.1 (125 ∷ []) s,
      )
      refl

parse-object :
    (a b : Text × Text)
    → All IsPlain a.0
    → All IsPlain a.1
    → All IsPlain b.0
    → All IsPlain b.1
    → text_lt a.0 b.0 ≡ true
    → parse (object_text a b) ≡ some (some ((a.0, some a.1) ∷ (b.0, some b.1) ∷ []))
parse-object a b p q r s o = ap parse (object_text-flat a b) ∙ parse-flat a b p q r s

abbrev opener : Opener ℕ
opener = record {
  ed25519_secret = λ k. some (k ∷ []);
  sha512 = λ s. s;
  public_from_slice = λ s. some s;
  secret_from_slice = λ s. some s;
  decrypt = λ pk sk nonce c. some c;
  is_utf8 = λ m. true;
  parse_json = parse;
}

abbrev sealer : Sealer ℕ
sealer = record {
  rng = 0;
  cloudflare_storage_secret = 115 ∷ [];
  common_identity = none;
  common_secret_key = 107 ∷ [];
}

agrees : Agrees crypto peers opener 3 3 (107 ∷ [])
agrees = record {
  length_bytes = refl;
  worker_public = replicate 32 3;
  montgomery = refl;
  secret = 3 ∷ [];
  ed25519_secret = refl;
  worker_secret = 3 ∷ [];
  secret_from_slice = refl;
  opens = λ nonce m. (m, refl, refl);
  public_from_slice = refl;
  length_nonce = λ r. refl;
  plain_id = ((ground arith, ground arith, λ e. omega arith, λ e. omega arith), tt);
  plain_token = λ secret m. ((ground arith, ground arith, λ e. omega arith, λ e. omega arith), tt);
  ascii_utf8 = λ m a. refl;
  parses = parse-object;
}

sealed_headers_open_example :
    (h : EncryptedHeaders) × ((generate_encrypted_headers crypto peers sealer 3 17).1 ≡ some h)
    × (decrypt_headers opener (some h) 3
        ≡ ok (
            (worker_id_key, 119 ∷ [])
            ∷ (worker_signature_key, timed_hmac crypto (119 ∷ []) (115 ∷ []) 17)
            ∷ []))
    × IsWritten crypto (generate_encrypted_headers crypto peers sealer 3 17).0
    × ((generate_encrypted_headers crypto peers sealer 3 17).0.common_secret_key ≡ 107 ∷ [])
sealed_headers_open_example =
    sealed_headers_open crypto peers opener 3 3 sealer agrees 17 (λ k e. cc)

abbrev start : Fleet ℕ
start = record {
  last_block = none;
  all_datasets = [];
  worker_entries = [];
  last_peer_id = none;
  check_continuity = true;
  write_schemas = (1, (97 ∷ []) ∷ (98 ∷ []) ∷ (99 ∷ []) ∷ []) ∷ [];
  current_generations = [];
  columns = no_columns;
  staged_worker_indexes = [];
  staged_tables_present = [];
}

abbrev additions : List (Addition ℕ)
additions =
    Addition.timed 3 WorkerStatus.reliable 17
    ∷ Addition.presealed 5 WorkerStatus.unreliable
        (record { identity = 1 ∷ []; nonce = 2 ∷ []; ciphertext = 3 ∷ [] })
    ∷ []

program : Unit {0}
unfolding add_all add_worker_with_timestamp generate_encrypted_headers encrypt_with_rng timed_hmac
    headers_json add_worker_with_sealed_headers finish get_worker Entries.get_worker worker_id_from
    text_eq text_lt btree_get tables_present chunk_tables mark_tables set_bit bit_at is_ascending
program = tt

grown : Fleet ℕ × Sealer ℕ
unfolding program
grown = elim (add_all crypto peers true start sealer additions) [
  | ok r ↦ r
  | err e ↦ (start, sealer)
  | panic ↦ (start, sealer)
]

grown_runs : add_all crypto peers true start sealer additions ≡ ok (grown.0, grown.1)
unfolding program grown
grown_runs = refl

has_room : (p : ℕ) → length (peers.to_bytes p) ≤ 38
has_room p = omega arith

have_room : HaveRoom crypto peers true additions
have_room i (Addition.timed p _ _) at = has_room p
have_room i (Addition.presealed p _ _) at = has_room p

add_all-FindsAll_example : FindsAll crypto peers true sealer additions (finish grown.0)
add_all-FindsAll_example =
    add_all-FindsAll crypto peers true additions start grown.0 sealer grown.1 have_room refl refl
      grown_runs

abbrev staged : ChunkBuilder
staged = record {
  block_range = none;
  id = none;
  size = none;
  version = 0;
  write_schema_id = some 1;
  tables_present = none;
}

-- The tables "a" and "c" of "a", "b" and "c".
abbrev tables : List Text
tables = (97 ∷ []) ∷ (99 ∷ []) ∷ []

tables_present_runs : (tables_present true start staged tables).0.staged_tables_present ≡ 5 ∷ []
unfolding program
tables_present_runs = refl

tables_accepted :
    (tables_present true start staged tables).1 ≡ ok (record staged { tables_present = some 1 })
unfolding program
tables_accepted = refl

tables_present_reads_back_example :
    (schema : ℕ) × (roster : List Text) × (staged.write_schema_id ≡ some schema)
    × (btree_get schema start.write_schemas ≡ some roster)
    × ((record staged { tables_present = some 1 }).tables_present ≡ some schema)
    × (chunk_tables
          (some roster)
          (some_bits (tables_present true start staged tables).0.staged_tables_present)
        ≡ some tables)
tables_present_reads_back_example =
    tables_present_reads_back true start staged (record staged { tables_present = some 1 }) tables
      tables_accepted
