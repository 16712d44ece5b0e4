-- ===== src/Messages/Signatures/Results.antt =====
-- What a worker's signature on a result fixes.
use sqd_network.Base.{
  ℕ, ◌<◌, Bool, ◌≡◌, sym, ap, ◌∙◌, Option, none, some, [], ◌∷◌, ◌++◌, length, length-append,
  u64_mod, arith,
}
use sqd_network.Base.Text.{Text}
use sqd_network.Messages.Signatures.{
  QueryErr, bad_request, not_found, server_error, too_many_requests, server_overloaded,
  QueryOutcome, query_ok, query_err, error_code, msg_to_sign_query_ok, msg_to_sign_query_err,
  msg_to_sign_result, QueryFinished, verify_finished, uuid_v4_size, sha3_256_size, le_bytes,
}
use sqd_network.Messages.Signatures.Bytes.{length-le_bytes, split_append, le_bytes-injective}

-- Errors of one kind, their texts apart.
abbrev pub SameKind : QueryErr → QueryErr → Type 0
SameKind (bad_request s) (bad_request t) = Unit
SameKind (not_found s) (not_found t) = Unit
SameKind (server_error s) (server_error t) = Unit
SameKind (too_many_requests s) (too_many_requests t) = Unit
SameKind (server_overloaded s) (server_overloaded t) = Unit
SameKind _ _ = ⊥

error_code-SameKind : (e f : QueryErr) → error_code e ≡ error_code f → SameKind e f
unfolding error_code
error_code-SameKind (bad_request s) (bad_request t) h = tt
error_code-SameKind (bad_request s) (not_found t) h = absurd (omega (arith, h))
error_code-SameKind (bad_request s) (server_error t) h = absurd (omega (arith, h))
error_code-SameKind (bad_request s) (too_many_requests t) h = absurd (omega (arith, h))
error_code-SameKind (bad_request s) (server_overloaded t) h = absurd (omega (arith, h))
error_code-SameKind (not_found s) (bad_request t) h = absurd (omega (arith, h))
error_code-SameKind (not_found s) (not_found t) h = tt
error_code-SameKind (not_found s) (server_error t) h = absurd (omega (arith, h))
error_code-SameKind (not_found s) (too_many_requests t) h = absurd (omega (arith, h))
error_code-SameKind (not_found s) (server_overloaded t) h = absurd (omega (arith, h))
error_code-SameKind (server_error s) (bad_request t) h = absurd (omega (arith, h))
error_code-SameKind (server_error s) (not_found t) h = absurd (omega (arith, h))
error_code-SameKind (server_error s) (server_error t) h = tt
error_code-SameKind (server_error s) (too_many_requests t) h = absurd (omega (arith, h))
error_code-SameKind (server_error s) (server_overloaded t) h = absurd (omega (arith, h))
error_code-SameKind (too_many_requests s) (bad_request t) h = absurd (omega (arith, h))
error_code-SameKind (too_many_requests s) (not_found t) h = absurd (omega (arith, h))
error_code-SameKind (too_many_requests s) (server_error t) h = absurd (omega (arith, h))
error_code-SameKind (too_many_requests s) (too_many_requests t) h = tt
error_code-SameKind (too_many_requests s) (server_overloaded t) h = absurd (omega (arith, h))
error_code-SameKind (server_overloaded s) (bad_request t) h = absurd (omega (arith, h))
error_code-SameKind (server_overloaded s) (not_found t) h = absurd (omega (arith, h))
error_code-SameKind (server_overloaded s) (server_error t) h = absurd (omega (arith, h))
error_code-SameKind (server_overloaded s) (too_many_requests t) h = absurd (omega (arith, h))
error_code-SameKind (server_overloaded s) (server_overloaded t) h = tt

-- What the bytes of a result say: the data's hash and the last block, or the kind of the error.
abbrev pub SameResult : (Text → Text) → QueryOutcome → QueryOutcome → Type 0
SameResult sha3_256 (query_ok a m) (query_ok b n) = (sha3_256 a ≡ sha3_256 b) × (m ≡ n)
SameResult sha3_256 (query_err (some e)) (query_err (some f)) = SameKind e f
SameResult sha3_256 _ _ = ⊥

-- The last block of an ok result fits 64 bits.
abbrev pub LastBlockFits : QueryOutcome → Type 0
LastBlockFits (query_ok a m) = m < u64_mod
LastBlockFits (query_err e) = Unit

ok_parts :
    (id hash m : Text) (last : ℕ)
    → msg_to_sign_query_ok id hash last ≡ some m
    → (length hash ≡ sha3_256_size)
      × (length id ≡ uuid_v4_size)
      × (m ≡ id ++ (hash ++ le_bytes 8 last))
unfolding msg_to_sign_query_ok
ok_parts id hash m last h = (ground arith, ground arith, ground arith)

err_parts :
    (id m : Text) (e : QueryErr)
    → msg_to_sign_query_err id e ≡ some m
    → (length id ≡ uuid_v4_size) × (m ≡ id ++ error_code e ∷ [])
unfolding msg_to_sign_query_err
err_parts id m e h = (ground arith, ground arith)

longer :
    (id id' hash m : Text) (last : ℕ) (e : QueryErr)
    → msg_to_sign_query_ok id hash last ≡ some m
    → msg_to_sign_query_err id' e ≡ some m
    → ⊥
longer id id' hash m last e h k =
    let (a, b, c) = ok_parts id hash m last h in
    let (d, f) = err_parts id' m e k in
    omega (
      arith,
      ap length c,
      ap length f,
      length-append id (hash ++ le_bytes 8 last),
      length-append hash (le_bytes 8 last),
      length-le_bytes 8 last,
      length-append id' (error_code e ∷ []),
    )

-- Two results that are signed as the same bytes have one query id, and both are ok with the same data
-- hash and last block, or both are errors of one kind.
pub msg_to_sign_result-injective :
    (sha3_256 : Text → Text) (id id' : Text) (r s : QueryOutcome) (m : Text)
    → LastBlockFits r
    → LastBlockFits s
    → msg_to_sign_result sha3_256 id (some r) ≡ some m
    → msg_to_sign_result sha3_256 id' (some s) ≡ some m
    → (id ≡ id') × SameResult sha3_256 r s
unfolding msg_to_sign_result
msg_to_sign_result-injective sha3_256 id id' (query_ok x m) (query_ok y n) t fm fn h k =
    let (a, b, c) = ok_parts id (sha3_256 x) t m h in
    let (d, f, g) = ok_parts id' (sha3_256 y) t n k in
    let (ids, e) = split_append id id' _ _ (b ∙ sym f) (sym c ∙ g) in
    let (hashes, e') = split_append (sha3_256 x) (sha3_256 y) _ _ (a ∙ sym d) e in
    (ids, (hashes, le_bytes-injective 8 m n (omega (arith, fm)) (omega (arith, fn)) e'))
msg_to_sign_result-injective sha3_256 id id' (query_err (some e)) (query_err (some f)) t fm fn h k =
    let (a, b) = err_parts id t e h in
    let (c, d) = err_parts id' t f k in
    let (ids, q) = split_append id id' _ _ (a ∙ sym c) (sym b ∙ d) in
    (ids, error_code-SameKind e f (cc q))
msg_to_sign_result-injective sha3_256 id id' (query_ok x m) (query_err (some e)) t fm fn h k =
    absurd (longer id id' (sha3_256 x) t m e h k)
msg_to_sign_result-injective sha3_256 id id' (query_err (some e)) (query_ok y n) t fm fn h k =
    absurd (longer id' id (sha3_256 y) t n e k h)
msg_to_sign_result-injective sha3_256 id id' (query_err none) s t fm fn h k = absurd (cc h)
msg_to_sign_result-injective sha3_256 id id' (query_ok x m) (query_err none) t fm fn h k =
    absurd (cc k)
msg_to_sign_result-injective sha3_256 id id' (query_err (some e)) (query_err none) t fm fn h k =
    absurd (cc k)

module _ {P K : Type 0} (sha3_256 : Text → Text) (parse : Text → Option P) (sign : Text → K → Text)
    (verify : P → Text → Text → Bool) where
  verified : QueryFinished → Bool
  verified f = verify_finished sha3_256 parse sign verify f
