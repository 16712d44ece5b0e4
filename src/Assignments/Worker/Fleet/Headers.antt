-- ===== src/Assignments/Worker/Fleet/Headers.antt =====
-- `decrypt_headers` (crates/assignments/src/reader.rs), which a worker calls on its entry, and the
-- headers that `generate_encrypted_headers` sealed for it.
use sqd_network.Base.{
  sym, ◌∙◌, append_assoc, ◌++◌, ℕ, ◌<◌, ◌≡◌, ◌≢◌, refl, ap, Option, none, some, List, [], ◌∷◌,
  length, take, drop, Outcome, ok, err, panic, ◌>>=◌, if◌then◌else◌, true, arith, inl, inr, ◌==◌,
  Option-cases, Bool, ◌≤◌, suc, All, All-append, All-imp,
}
use sqd_network.Base.Decimal.{decimal, IsDigit, digits-IsDigit}
use sqd_network.Base.Text.{Text, text_lt}
use sqd_network.Assignments.Entries.{PeerText}
use sqd_network.Assignments.Worker.Fleet.{
  EncryptedHeaders, Sealer, Crypto, timed_hmac, encrypt_with_rng, headers_json,
  generate_encrypted_headers, head, middle, tail,
}

-- Why headers cannot be read.
pub data HeadersError : Type 0 where
  not_ed25519 headers_missing identity_invalid secret_invalid : HeadersError
  not_opened not_utf8 not_json not_an_object : HeadersError

-- The libraries that a worker opens its headers with: key pairs `K`, SHA-512, the sealed boxes, and a
-- JSON parser, whose objects are lists of keys with the strings among their values.
pub record Opener (K : Type 0) : Type 0 where
  pub ed25519_secret : K → Option Text
  pub sha512 : Text → Text
  pub public_from_slice : Text → Option Text
  pub secret_from_slice : Text → Option Text
  pub decrypt : Text → Text → Text → Text → Option Text
  pub is_utf8 : Text → Bool
  pub parse_json : Text → Option (Option (List (Text × Option Text)))

unfoldable pub ok_or {ℓ} : {A : Type ℓ} → Option A → HeadersError → Outcome HeadersError A
ok_or none e = err e
ok_or (some a) e = ok a

-- The `filter_map` over the object's entries.
unfoldable pub string_values : List (Text × Option Text) → List (Text × Text)
string_values [] = []
string_values ((k, none) ∷ more) = string_values more
string_values ((k, some v) ∷ more) = (k, v) ∷ string_values more

-- `GenericArray::from_slice` panics unless the slice has the nonce's length.
unfoldable pub nonce_from_slice : Text → Outcome HeadersError Text
nonce_from_slice nonce = if length nonce == 24 then ok nonce else panic

module _ {K : Type 0} (z : Opener K) where
  -- `decrypt_headers`, up to the map that the entries are collected into.
  unfoldable pub decrypt_headers :
      Option EncryptedHeaders → K → Outcome HeadersError (List (Text × Text))
  unfolding ok_or string_values nonce_from_slice
  decrypt_headers headers key = do
    secret_key ← ok_or (z.ed25519_secret key) HeadersError.not_ed25519
    h ← ok_or headers HeadersError.headers_missing
    common_public_key ← ok_or (z.public_from_slice h.identity) HeadersError.identity_invalid
    worker_secret_key ←
        ok_or (z.secret_from_slice (take 32 (z.sha512 secret_key))) HeadersError.secret_invalid
    nonce ← nonce_from_slice h.nonce
    plaintext ←
        ok_or (z.decrypt common_public_key worker_secret_key nonce h.ciphertext)
          HeadersError.not_opened
    text ← if z.is_utf8 plaintext then ok plaintext else err HeadersError.not_utf8
    json ← ok_or (z.parse_json text) HeadersError.not_json
    object ← ok_or json HeadersError.not_an_object
    ok (string_values object)

abbrev pub worker_id_key : Text
worker_id_key = 119 ∷ 111 ∷ 114 ∷ 107 ∷ 101 ∷ 114 ∷ 45 ∷ 105 ∷ 100 ∷ []

abbrev pub worker_signature_key : Text
worker_signature_key =
    119 ∷ 111 ∷ 114 ∷ 107 ∷ 101 ∷ 114 ∷ 45 ∷ 115 ∷ 105 ∷ 103 ∷ 110 ∷ 97 ∷ 116 ∷ 117 ∷ 114 ∷ 101 ∷ []

-- A printable ASCII character that a JSON string holds as it is.
abbrev pub IsPlain : ℕ → Type 0
IsPlain c = (32 ≤ c) × (c < 127) × (c ≢ 34) × (c ≢ 92)

IsAscii : ℕ → Type 0
IsAscii c = c < 128

plain-IsAscii : (s : Text) → All IsPlain s → All IsAscii s
unfolding IsAscii
plain-IsAscii = All-imp (λ c p. omega (arith, p.1))

digit-IsPlain : (s : Text) → All IsDigit s → All IsPlain s
digit-IsPlain = All-imp (λ c p.
    (omega (arith, p.0), omega (arith, p.1), λ e. omega (arith, p.0), λ e. omega (arith, p.1)))

-- A JSON object of two string members, as RFC 8259 writes it without spaces: 123 and 125 are the
-- braces, 44 is the comma, 58 the colon and 34 the quote.
abbrev pub string_text : Text → Text
string_text s = 34 ∷ (s ++ 34 ∷ [])

abbrev pub member_text : Text × Text → Text
member_text (key, value) = string_text key ++ 58 ∷ string_text value

abbrev pub object_text : Text × Text → Text × Text → Text
object_text a b = 123 ∷ (member_text a ++ 44 ∷ (member_text b ++ 125 ∷ []))

-- What the libraries promise for a worker's peer id, its key pair and the builder's secret key.
pub record Agrees {P R K : Type 0} (y : Crypto R) (t : PeerText P) (z : Opener K) (id : P) (key : K)
    (common : Text) : Type 0 where
  -- The key pair is the one that the peer id is made of.
  pub length_bytes : length (t.to_bytes id) ≡ 38
  pub worker_public : Text
  pub montgomery : y.montgomery (drop 6 (t.to_bytes id)) ≡ some worker_public
  pub secret : Text
  pub ed25519_secret : z.ed25519_secret key ≡ some secret
  pub worker_secret : Text
  pub secret_from_slice : z.secret_from_slice (take 32 (z.sha512 secret)) ≡ some worker_secret
  -- A sealed box opens with the other two keys.
  pub opens :
      (nonce plaintext : Text)
      → (ciphertext : Text) × (y.encrypt worker_public common nonce plaintext ≡ some ciphertext)
        × (z.decrypt (y.public_key common) worker_secret nonce ciphertext ≡ some plaintext)
  pub public_from_slice : z.public_from_slice (y.public_key common) ≡ some (y.public_key common)
  pub length_nonce : (r : R) → length (y.generate_nonce r).0 ≡ 24
  -- Texts: base58 and URL-encoded tokens are plain, ASCII is UTF-8, and the parser reads an object.
  pub plain_id : All IsPlain (t.to_string id)
  pub plain_token : (secret message : Text) → All IsPlain (y.token secret message)
  pub ascii_utf8 : (m : Text) → All (λ c. c < 128) m → z.is_utf8 m ≡ true
  -- An object's members come in the order of their keys.
  pub parses :
      (a b : Text × Text)
      → All IsPlain a.0
      → All IsPlain a.1
      → All IsPlain b.0
      → All IsPlain b.1
      → text_lt a.0 b.0 ≡ true
      → z.parse_json (object_text a b) ≡ some (some ((a.0, some a.1) ∷ (b.0, some b.1) ∷ []))

-- The headers are written as such an object.
headers_json-object :
    (id signature : Text)
    → headers_json id signature ≡ object_text (worker_id_key, id) (worker_signature_key, signature)
unfolding headers_json
headers_json-object id signature =
    ap (λ t. head ++ t)
      (sym (append_assoc id (34 ∷ []) (drop 1 middle ++ (signature ++ tail)))
        ∙ ap (λ t. (id ++ 34 ∷ []) ++ (drop 1 middle ++ t))
            (sym (append_assoc signature (34 ∷ []) (125 ∷ []))))

-- The identity, where it is written, is the public key of the builder's secret key.
abbrev pub IsWritten : {R : Type 0} → Crypto R → Sealer R → Type 0
IsWritten y s = (k : Text) → s.common_identity ≡ some k → k ≡ y.public_key s.common_secret_key

module _ {P R K : Type 0} (y : Crypto R) (t : PeerText P) (z : Opener K) (id : P) (key : K)
    (s : Sealer R) (law : Agrees y t z id key s.common_secret_key) where
  hmac-IsPlain :
      (timestamp : ℕ)
      → All IsPlain (timed_hmac y (t.to_string id) s.cloudflare_storage_secret timestamp)
  unfolding timed_hmac decimal
  hmac-IsPlain timestamp =
      All-append IsPlain (decimal timestamp) _
        (digit-IsPlain (decimal timestamp) (digits-IsDigit (suc timestamp) timestamp))
        ((omega arith, omega arith, λ e. omega arith, λ e. omega arith), law.plain_token _ _)

  json-IsAscii : (a b : Text) → All IsPlain a → All IsPlain b → All IsAscii (headers_json a b)
  unfolding headers_json IsAscii
  json-IsAscii a b p q = All-append IsAscii head _ (ground arith) (
      All-append IsAscii a _ (plain-IsAscii a p) (
        All-append IsAscii middle _ (ground arith)
          (All-append IsAscii b _ (plain-IsAscii b q) (ground arith))))

  -- What sealing makes of a text for the worker.
  sealed_text :
      (plaintext : Text)
      → (ciphertext : Text) × (encrypt_with_rng y
            (t.to_bytes id)
            s.common_secret_key
            plaintext
            s.rng
          ≡ (some (ciphertext, (y.generate_nonce s.rng).0), (y.generate_nonce s.rng).1))
        × (z.decrypt
              (y.public_key s.common_secret_key)
              law.worker_secret
              (y.generate_nonce s.rng).0
              ciphertext
            ≡ some plaintext)
  unfolding encrypt_with_rng
  sealed_text plaintext =
      let (c, sealed, opened) = law.opens (y.generate_nonce s.rng).0 plaintext in
      (c, ground (arith, law.length_bytes, law.montgomery, sealed), opened)

  -- Opening sealed headers whose identity is the builder's public key.
  decrypt_headers_lem :
      (timestamp : ℕ) (nonce ciphertext : Text)
      → length nonce ≡ 24
      → z.decrypt (y.public_key s.common_secret_key) law.worker_secret nonce ciphertext
        ≡ some (
            headers_json
              (t.to_string id)
              (timed_hmac y (t.to_string id) s.cloudflare_storage_secret timestamp))
      → decrypt_headers z
          (some (record {
            identity = y.public_key s.common_secret_key;
            nonce = nonce;
            ciphertext = ciphertext;
          }))
          key
        ≡ ok (
            (worker_id_key, t.to_string id)
            ∷ (
              worker_signature_key,
              timed_hmac y (t.to_string id) s.cloudflare_storage_secret timestamp,
            )
            ∷ [])
  unfolding decrypt_headers IsAscii
  decrypt_headers_lem timestamp nonce ciphertext l opened =
      let signature = timed_hmac y (t.to_string id) s.cloudflare_storage_secret timestamp in
      let plain = hmac-IsPlain timestamp in
      let l' : (length nonce == 24) ≡ true = ground arith in
      let utf8 =
        law.ascii_utf8 (headers_json (t.to_string id) signature)
          (json-IsAscii (t.to_string id) signature law.plain_id plain) in
      let parsed : z.parse_json (headers_json (t.to_string id) signature)
          ≡ some (
              some (
                (worker_id_key, some (t.to_string id))
                ∷ (worker_signature_key, some signature)
                ∷ [])) =
        ap z.parse_json (headers_json-object (t.to_string id) signature)
        ∙ law.parses (worker_id_key, t.to_string id) (worker_signature_key, signature)
            (ground arith) law.plain_id (ground arith) plain (unfold text_lt in refl) in
      rw
        (
          law.ed25519_secret, ok_or, law.public_from_slice, law.secret_from_slice, nonce_from_slice,
          l', opened, utf8, parsed, string_values,
        )
        refl

  -- Once a text is sealed, the identity is the public key, written before or now.
  sealed-generates :
      (timestamp : ℕ) (nonce ciphertext : Text) (rng : R)
      → IsWritten y s
      → encrypt_with_rng y
          (t.to_bytes id)
          s.common_secret_key
          (headers_json
            (t.to_string id)
            (timed_hmac y (t.to_string id) s.cloudflare_storage_secret timestamp))
          s.rng
        ≡ (some (ciphertext, nonce), rng)
      → generate_encrypted_headers y t s id timestamp ≡ (
        record s { rng = rng; common_identity = some (y.public_key s.common_secret_key) },
        some (record {
          identity = y.public_key s.common_secret_key;
          nonce = nonce;
          ciphertext = ciphertext;
        }),
      )
  unfolding generate_encrypted_headers
  sealed-generates timestamp nonce ciphertext rng w sealed = elim (Option-cases s.common_identity) [
    | inl n ↦ ground (arith, sealed, n)
    | inr (k, e) ↦ ground (arith, sealed, e, w k e)
  ]

  -- Where the libraries keep their promises for a worker's peer id and key pair, headers are sealed for
  -- it, and `decrypt_headers` with that key pair returns from them exactly the two entries: the
  -- worker's peer id, and its timed HMAC under the storage secret. The identity stays what it
  -- was written as first, and the secret key stays.
  pub sealed_headers_open :
      (timestamp : ℕ)
      → IsWritten y s
      → (h : EncryptedHeaders) × ((generate_encrypted_headers y t s id timestamp).1 ≡ some h)
        × (decrypt_headers z (some h) key
            ≡ ok (
                (worker_id_key, t.to_string id)
                ∷ (
                  worker_signature_key,
                  timed_hmac y (t.to_string id) s.cloudflare_storage_secret timestamp,
                )
                ∷ []))
        × IsWritten y (generate_encrypted_headers y t s id timestamp).0
        × ((generate_encrypted_headers y t s id timestamp).0.common_secret_key
            ≡ s.common_secret_key)
  sealed_headers_open timestamp w =
      let nonce = (y.generate_nonce s.rng).0 in
      let (c, sealed, opened) = sealed_text (
        headers_json (t.to_string id)
          (timed_hmac y (t.to_string id) s.cloudflare_storage_secret timestamp)) in
      let made = sealed-generates timestamp nonce c (y.generate_nonce s.rng).1 w sealed in
      (
        record { identity = y.public_key s.common_secret_key; nonce = nonce; ciphertext = c },
        ap (λ p. p.1) made,
        decrypt_headers_lem timestamp nonce c (law.length_nonce s.rng) opened,
        rw made (λ k e. cc),
        ap (λ p. p.0.common_secret_key) made,
      )
