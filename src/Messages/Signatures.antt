-- ===== src/Messages/Signatures.antt =====
-- crates/messages/src/signatures.rs: the byte strings that queries and results are signed as. Signing
-- itself, SHA3 and the bytes of a peer id are parameters. An enum field is its 32 bits as a number.
pub mod Bytes
pub mod Queries
pub mod Results
use sqd_network.Base.{
  ℕ, zero, suc, ◌%◌, ◌/◌, Bool, true, false, ◌||◌, Option, none, some, List, [], ◌∷◌, ◌++◌, length,
  Outcome, ok, err, panic, ltb, leb, ◌==◌, not, if◌then◌else◌, u32_mod,
}
use sqd_network.Base.Text.{Text}
use sqd_network.Messages.Range.{Range}

-- `to_le_bytes` of a number of that many bytes.
unfoldable pub le_bytes : ℕ → ℕ → Text
le_bytes zero n = []
le_bytes (suc width) n = (n % 256) ∷ le_bytes width (n / 256)

-- `Query`.
pub record Query : Type 0 where
  pub query_id : Text
  pub dataset : Text
  pub request_id : Text
  pub query : Text
  pub block_range : Option Range
  pub chunk_id : Text
  pub timestamp_ms : ℕ
  pub signature : Text
  pub compression : ℕ
  pub query_engine : ℕ
  pub output_format : ℕ
  pub chunk_version : ℕ

abbrev pub uuid_v4_size : ℕ
uuid_v4_size = 36

abbrev pub sha3_256_size : ℕ
sha3_256_size = 32

-- A field behind its length.
unfoldable pub with_length : Text → Text
unfolding le_bytes
with_length s = le_bytes 4 (length s) ++ s

unfoldable pub range_bytes : Option Range → Text
unfolding le_bytes
range_bytes none = []
range_bytes (some r) = le_bytes 8 r.begin ++ le_bytes 8 r.end

-- What follows the range: nothing where both fields are 0.
unfoldable pub engine_bytes : Option Range → ℕ → ℕ → Option Text
engine_bytes range engine format =
    let marker : Text = elim range [ none ↦ 0 ∷ [] | some _ ↦ [] ] in
    if engine == 0
    then (if format == 0
        then some []
        else if ltb format 256
        then some (marker ++ engine ∷ format ∷ [])
        else none)
    else (if ltb engine 256
        then (if ltb format 256 then some (marker ++ engine ∷ format ∷ []) else none)
        else none)

-- The fields up to the range.
unfoldable pub query_head : Query → Text → Text → Text
unfolding with_length le_bytes
query_head q worker_id_bytes tail =
    q.query_id
    ++ (worker_id_bytes
        ++ (le_bytes 8 q.timestamp_ms
            ++ (with_length q.dataset
                ++ (with_length q.query ++ (with_length q.chunk_id ++ tail)))))

-- `Query::msg_to_sign`: `err` is `None`, and a length past 32 bits panics.
unfoldable pub msg_to_sign_query : Query → Text → Outcome (Unit {0}) Text
unfolding query_head range_bytes engine_bytes
msg_to_sign_query q worker_id_bytes =
    if length q.query_id == uuid_v4_size
    then (if (leb u32_mod (length q.dataset) || leb u32_mod (length q.query))
          || leb u32_mod (length q.chunk_id)
        then panic
        else elim (engine_bytes q.block_range q.query_engine q.output_format) [
          | none ↦ err tt
          | some engine ↦ ok (query_head q worker_id_bytes (range_bytes q.block_range ++ engine))
        ])
    else err tt

-- `query_error::Err`, and its code in `msg_to_sign_query_err`.
pub data QueryErr : Type 0 where
  bad_request not_found server_error : Text → QueryErr
  too_many_requests : Unit {0} → QueryErr
  server_overloaded : Unit {0} → QueryErr

unfoldable pub error_code : QueryErr → ℕ
error_code (bad_request s) = 1
error_code (not_found s) = 2
error_code (server_error s) = 3
error_code (too_many_requests u) = 4
error_code (server_overloaded u) = 5

unfoldable pub msg_to_sign_query_ok : Text → Text → ℕ → Option Text
unfolding le_bytes
msg_to_sign_query_ok query_id data_hash last_block =
    if length data_hash == sha3_256_size
    then (if length query_id == uuid_v4_size
        then some (query_id ++ (data_hash ++ le_bytes 8 last_block))
        else none)
    else none

unfoldable pub msg_to_sign_query_err : Text → QueryErr → Option Text
unfolding error_code
msg_to_sign_query_err query_id e =
    if length query_id == uuid_v4_size then some (query_id ++ error_code e ∷ []) else none

-- `query_result::Result`, what of it is signed; an error without its kind has none.
pub data QueryOutcome : Type 0 where
  query_ok : Text → ℕ → QueryOutcome
  query_err : Option QueryErr → QueryOutcome

-- `QueryResult::msg_to_sign`.
unfoldable pub msg_to_sign_result : (Text → Text) → Text → Option QueryOutcome → Option Text
unfolding msg_to_sign_query_ok msg_to_sign_query_err
msg_to_sign_result sha3_256 query_id none = none
msg_to_sign_result sha3_256 query_id (some (query_ok bytes last_block)) =
    msg_to_sign_query_ok query_id (sha3_256 bytes) last_block
msg_to_sign_result sha3_256 query_id (some (query_err none)) = none
msg_to_sign_result sha3_256 query_id (some (query_err (some e))) = msg_to_sign_query_err query_id e

-- `query_finished::Result`: the summary of an ok result, or the error.
pub data FinishedOutcome : Type 0 where
  finished_ok : ℕ → Text → ℕ → FinishedOutcome
  finished_err : Option QueryErr → FinishedOutcome

-- `QueryResult`, what of it is signed and copied.
pub record QueryResult : Type 0 where
  pub query_id : Text
  pub result : Option QueryOutcome
  pub signature : Text

-- `QueryFinished`.
pub record QueryFinished : Type 0 where
  pub worker_id : Text
  pub query_id : Text
  pub total_time_micros : ℕ
  pub worker_signature : Text
  pub result : Option FinishedOutcome

-- The match on the result in `QueryFinished::new`.
unfoldable pub finished_outcome : (Text → Text) → Option QueryOutcome → Option FinishedOutcome
finished_outcome sha3_256 none = none
finished_outcome sha3_256 (some (query_ok bytes last_block)) =
    some (finished_ok (length bytes) (sha3_256 bytes) last_block)
finished_outcome sha3_256 (some (query_err e)) = some (finished_err e)

-- `QueryFinished::new`.
unfoldable pub finished : (Text → Text) → QueryResult → Text → ℕ → QueryFinished
finished sha3_256 r worker_id total_time_micros = record {
  worker_id = worker_id;
  query_id = r.query_id;
  total_time_micros = total_time_micros;
  worker_signature = r.signature;
  result = finished_outcome sha3_256 r.result;
}

-- The message that `QueryFinished::verify_signature` checks.
unfoldable pub msg_to_verify : QueryFinished → Option Text
msg_to_verify f = elim f.result [
  | none ↦ none
  | some (finished_ok size data_hash last_block) ↦
      msg_to_sign_query_ok f.query_id data_hash last_block
  | some (finished_err none) ↦ none
  | some (finished_err (some e)) ↦ msg_to_sign_query_err f.query_id e
]

-- `parse` is `PeerId::from_str`; `sign` and `verify` are `sign` and `verify_signature` of the same
-- file, which call a key pair and a public key.
module _ {P K : Type 0} (sha3_256 : Text → Text) (parse : Text → Option P) (sign : Text → K → Text)
    (verify : P → Text → Text → Bool) where
  -- `QueryResult::sign`; `none` is the error.
  unfoldable pub sign_result : QueryResult → K → Option QueryResult
  sign_result r keypair = elim (msg_to_sign_result sha3_256 r.query_id r.result) [
    | none ↦ none
    | some msg ↦ some (record r { signature = sign msg keypair })
  ]

  -- `QueryResult::verify_signature`.
  unfoldable pub verify_result : QueryResult → P → Bool
  verify_result r signer_id = elim (msg_to_sign_result sha3_256 r.query_id r.result) [
    | none ↦ false
    | some msg ↦ verify signer_id msg r.signature
  ]

  -- `QueryFinished::verify_signature`.
  unfoldable pub verify_finished : QueryFinished → Bool
  verify_finished f = elim (msg_to_verify f) [
    | none ↦ false
    | some msg ↦ elim (parse f.worker_id) [
      | none ↦ false
      | some worker_id ↦ verify worker_id msg f.worker_signature
    ]
  ]
