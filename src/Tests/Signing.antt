-- ===== src/Tests/Signing.antt =====
-- Signed queries and results with small parameters: a peer id is one byte, and a hash is 32 times the
-- length.
use sqd_network.Base.{
  ℕ, ◌≡◌, Bool, Option, none, refl, some, [], ◌∷◌, length, replicate, ok, arith, u64_mod, ◌<◌, ◌++◌,
}
use sqd_network.Base.Text.{Text, text_eq}
use sqd_network.Messages.Range.{Range}
use sqd_network.Messages.Signatures.{
  Query, query_ok, query_head, msg_to_sign_query, msg_to_sign_result, range_bytes, QueryResult,
  le_bytes, with_length,
}
use sqd_network.Messages.Signatures.Queries.{
  IsQuery, SameSigned, EndsItself, msg_to_sign_query-injective,
}
use sqd_network.Messages.Signatures.Results.{SameResult, msg_to_sign_result-injective}

abbrev to_bytes : ℕ → Text
to_bytes w = w ∷ []

ends_itself : EndsItself to_bytes
ends_itself v w s t e = (cc, cc)

abbrev worker : ℕ
worker = 7

abbrev query_id : Text
query_id = replicate 36 97

abbrev query : Query
query = record {
  query_id = replicate 36 97;
  dataset = 100 ∷ [];
  request_id = 1 ∷ [];
  query = 123 ∷ 125 ∷ [];
  block_range = some (record { begin = 5; end = 9 });
  chunk_id = [];
  timestamp_ms = 1700;
  signature = [];
  compression = 0;
  query_engine = 1;
  output_format = 0;
  chunk_version = 0;
}

-- The same query under another request id.
abbrev renamed : Query
renamed = record query { request_id = 2 ∷ [] }

query-IsQuery : IsQuery query
query-IsQuery = record { timestamp_fits = omega arith; range_fits = λ r e. fits r e }
  where
    fits :
        (r : Range)
        → some (record { begin = 5; end = 9 }) ≡ some r
        → (r.begin < u64_mod) × (r.end < u64_mod)
    fits r e = ground arith

renamed-IsQuery : IsQuery renamed
renamed-IsQuery = record { timestamp_fits = omega arith; range_fits = query-IsQuery.range_fits }

signed : Text
unfolding query_head with_length le_bytes
signed = query_head query (7 ∷ []) (range_bytes query.block_range ++ 1 ∷ 0 ∷ [])

query_runs : msg_to_sign_query query (to_bytes worker) ≡ ok signed
unfolding msg_to_sign_query signed
query_runs = refl

renamed_runs : msg_to_sign_query renamed (to_bytes worker) ≡ ok signed
unfolding msg_to_sign_query signed
renamed_runs = refl

msg_to_sign_query-injective_example : (worker ≡ worker) × SameSigned query renamed
msg_to_sign_query-injective_example =
    msg_to_sign_query-injective to_bytes ends_itself query renamed worker worker signed
      query-IsQuery renamed-IsQuery query_runs renamed_runs

abbrev sha3_256 : Text → Text
sha3_256 s = replicate 32 (length s)

abbrev result : Text
result = replicate 36 97 ++ (replicate 32 2 ++ 9 ∷ replicate 7 0)

result_runs : msg_to_sign_result sha3_256 query_id (some (query_ok (1 ∷ 2 ∷ []) 9)) ≡ some result
unfolding msg_to_sign_result
result_runs = refl

result_runs' : msg_to_sign_result sha3_256 query_id (some (query_ok (3 ∷ 4 ∷ []) 9)) ≡ some result
unfolding msg_to_sign_result
result_runs' = refl

msg_to_sign_result-injective_example :
    (query_id ≡ query_id) × SameResult sha3_256 (query_ok (1 ∷ 2 ∷ []) 9) (query_ok (3 ∷ 4 ∷ []) 9)
msg_to_sign_result-injective_example =
    msg_to_sign_result-injective sha3_256 query_id query_id (query_ok (1 ∷ 2 ∷ []) 9)
      (query_ok (3 ∷ 4 ∷ []) 9) result (omega arith) (omega arith) result_runs result_runs'

abbrev query_result : QueryResult
query_result = record { query_id = query_id; result = some (query_ok (1 ∷ []) 9); signature = [] }

-- A worker is its number, and a signature is the message behind the signer's key.
verified_of : Text → Text → Bool
unfolding text_eq
verified_of m s = text_eq s (4 ∷ m)

abbrev parse_worker : Text → Option ℕ
parse_worker [] = none
parse_worker (c ∷ s) = some c

abbrev sign_with : Text → Text → Text
sign_with m key = key ++ m

abbrev verify_with : ℕ → Text → Text → Bool
verify_with p m s = verified_of m s
