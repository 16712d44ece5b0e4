-- ===== src/Assignments/Worker/Fleet.antt =====
-- The workers of a worker assignment: the two ways of adding one, the headers sealed for it, `finish`
-- (crates/assignments/src/builder.rs), and `get_worker` with what its result answers
-- (crates/assignments/src/reader.rs).
pub mod Adding
pub mod Lookup
pub mod Headers
use sqd_network.Base.{
  ℕ, ◌+◌, Bool, Option, none, some, List, [], ◌∷◌, ◌++◌, length, drop, take, Outcome, ok, err,
  panic, ◌==◌, if◌then◌else◌, map, get_elem?,
}
use sqd_network.Base.Order.{Ord, before}
use sqd_network.Base.Text.{Text}
use sqd_network.Base.Decimal.{decimal}
use sqd_network.Assignments.Columns.{AssignError, push}
use sqd_network.Assignments.Entries.{AssignedWorker, PeerText, worker_id_from}
use sqd_network.Assignments.Entries
use sqd_network.Assignments.Worker.{Builder, Dataset, create_generations, btree_get, no_columns}

-- `WorkerStatus` of src/common.rs, whose `Ok` is `reliable` here.
pub data WorkerStatus : Type 0 where
  reliable unreliable deprecated_version unsupported_version : WorkerStatus

-- `status_to_fb`: the schema's enum is a byte.
unfoldable pub status_to_fb : WorkerStatus → ℕ
status_to_fb WorkerStatus.reliable = 0
status_to_fb WorkerStatus.unreliable = 1
status_to_fb WorkerStatus.deprecated_version = 2
status_to_fb WorkerStatus.unsupported_version = 3

-- `status_from_fb`: a byte that the enum does not name is an unsupported version.
unfoldable pub status_from_fb : ℕ → WorkerStatus
status_from_fb code =
    if code == 0
    then WorkerStatus.reliable
    else if code == 1
    then WorkerStatus.unreliable
    else if code == 2
    then WorkerStatus.deprecated_version
    else WorkerStatus.unsupported_version

-- `EncryptedHeadersArgs`.
pub record EncryptedHeaders : Type 0 where
  pub identity : Text
  pub nonce : Text
  pub ciphertext : Text

-- `WorkerEntryArgs`, less the worker id.
pub record WorkerEntry : Type 0 where
  pub status : ℕ
  pub encrypted_headers : Option EncryptedHeaders

-- `WorkerAssignmentArgs`.
pub record WorkerAssignment : Type 0 where
  pub datasets : List Dataset
  pub workers : List (Text × WorkerEntry)
  pub schemas : List (ℕ × List Text)

-- The cryptographic state of a builder: `rng` of any type, the secrets and the identity that is
-- written with the first headers.
pub record Sealer (R : Type 0) : Type 0 where
  pub rng : R
  pub cloudflare_storage_secret : Text
  pub common_identity : Option Text
  pub common_secret_key : Text

-- The cryptographic library: ed25519 points, the sealed boxes, HMAC with its URL-safe token.
pub record Crypto (R : Type 0) : Type 0 where
  pub montgomery : Text → Option Text
  pub generate_nonce : R → Text × R
  pub encrypt : Text → Text → Text → Text → Option Text
  pub public_key : Text → Text
  pub token : Text → Text → Text

-- `timed_hmac`; 45 is `-`.
unfoldable pub timed_hmac : {R : Type 0} → Crypto R → Text → Text → ℕ → Text
timed_hmac y message secret timestamp =
    decimal timestamp ++ 45 ∷ y.token secret (message ++ decimal timestamp)

-- `encrypt_with_rng`: the generator has moved on once a nonce was drawn.
unfoldable pub encrypt_with_rng :
    {R : Type 0} → Crypto R → Text → Text → Text → R → Option (Text × Text) × R
encrypt_with_rng {R} y worker_id secret_key plaintext rng =
    if length worker_id == 38
    then elim (y.montgomery (drop 6 worker_id)) [
      | none ↦ (none, rng)
      | some worker_public_key ↦
          let (nonce, rng') = y.generate_nonce rng in
          elim (y.encrypt worker_public_key secret_key nonce plaintext) [
            | none ↦ (none, rng')
            | some ciphertext ↦ (some (ciphertext, nonce), rng')
          ]
    ]
    else (none, rng)

-- `{"worker-id":"` and `","worker-signature":"` and `"}`.
abbrev pub head : Text
head = 123 ∷ 34 ∷ 119 ∷ 111 ∷ 114 ∷ 107 ∷ 101 ∷ 114 ∷ 45 ∷ 105 ∷ 100 ∷ 34 ∷ 58 ∷ 34 ∷ []

abbrev pub middle : Text
middle =
    34 ∷ 44 ∷ 34 ∷ 119 ∷ 111 ∷ 114 ∷ 107 ∷ 101 ∷ 114 ∷ 45 ∷ 115 ∷ 105 ∷ 103 ∷ 110 ∷ 97 ∷ 116 ∷ 117
    ∷ 114 ∷ 101 ∷ 34 ∷ 58 ∷ 34 ∷ []

abbrev pub tail : Text
tail = 34 ∷ 125 ∷ []

unfoldable pub headers_json : Text → Text → Text
headers_json id signature = head ++ (id ++ (middle ++ (signature ++ tail)))

module _ {P R : Type 0} (y : Crypto R) (t : PeerText P) where
  -- `generate_encrypted_headers`; an error leaves the identity unwritten.
  unfoldable pub generate_encrypted_headers : Sealer R → P → ℕ → Sealer R × Option EncryptedHeaders
  unfolding timed_hmac encrypt_with_rng headers_json
  generate_encrypted_headers s peer_id timestamp =
      let id = t.to_string peer_id in
      let signature = timed_hmac y id s.cloudflare_storage_secret timestamp in
      let (sealed, rng') =
        encrypt_with_rng y (t.to_bytes peer_id) s.common_secret_key (headers_json id signature)
          s.rng in
      elim sealed [
        | none ↦ (record s { rng = rng' }, none)
        | some (ciphertext, nonce) ↦
            let identity : Text = elim s.common_identity [
              | some written ↦ written
              | none ↦ y.public_key s.common_secret_key
            ] in
            (
              record s { rng = rng'; common_identity = some identity },
              some (record { identity = identity; nonce = nonce; ciphertext = ciphertext }),
            )
      ]

abbrev pub Fleet : Type 0 → Type 0
Fleet P = Builder P WorkerEntry

module _ {P : Type 0} ⦃o : Ord P⦄ where
  -- The `assert!` on the order.
  unfoldable pub follows : Option P → P → Bool
  follows none id = Bool.true
  follows (some last) id = before last id

  module _ (t : PeerText P) (checked : Bool) where
    -- `add_worker_with_sealed_headers`; the `assert!` and `WorkerId::from` panic.
    unfoldable pub add_worker_with_sealed_headers :
        Fleet P → P → WorkerStatus → Text → Text → Text → Outcome AssignError (Fleet P)
    unfolding follows status_to_fb worker_id_from
    add_worker_with_sealed_headers b id status identity nonce ciphertext =
        if follows b.last_peer_id id
        then elim (worker_id_from t checked id) [
          | none ↦ panic
          | some worker_id ↦ ok (record b {
            last_peer_id = some id;
            worker_entries = push b.worker_entries (
              worker_id,
              record {
                status = status_to_fb status;
                encrypted_headers =
                    some (record { identity = identity; nonce = nonce; ciphertext = ciphertext });
              },
            );
          })
        ]
        else panic

  module _ {R : Type 0} (y : Crypto R) (t : PeerText P) (checked : Bool) where
    -- `add_worker_with_timestamp`: a worker whose headers cannot be sealed is added without them.
    unfoldable pub add_worker_with_timestamp :
        Fleet P → Sealer R → P → WorkerStatus → ℕ → Outcome AssignError (Fleet P × Sealer R)
    unfolding follows status_to_fb worker_id_from
    add_worker_with_timestamp b s id status timestamp =
        let (s', headers) = generate_encrypted_headers y t s id timestamp in
        if follows b.last_peer_id id
        then elim (worker_id_from t checked id) [
          | none ↦ panic
          | some worker_id ↦ ok (
            record b {
              last_peer_id = some id;
              worker_entries =
                  push b.worker_entries (
                    worker_id,
                    record { status = status_to_fb status; encrypted_headers = headers },
                  );
            },
            s',
          )
        ]
        else panic

-- `finish` and `create_write_schema_rosters`, up to the encoding of the root table.
unfoldable pub finish : {P : Type 0} → Fleet P → WorkerAssignment
finish b = record {
  datasets = b.all_datasets;
  workers = b.worker_entries;
  schemas = b.write_schemas;
}

module _ {P : Type 0} ⦃o : Ord P⦄ (t : PeerText P) where
  -- `WorkerAssignment::get_worker`; `none` is a panic.
  unfoldable pub get_worker :
      WorkerAssignment → P → Option (Option (AssignedWorker Text WorkerEntry))
  unfolding Entries.get_worker
  get_worker a id = Entries.get_worker t a.workers id

-- `WorkerAssignment::get_worker_by_index`; a `get` past the end panics.
unfoldable pub get_worker_by_index : WorkerAssignment → ℕ → Option (AssignedWorker Text WorkerEntry)
get_worker_by_index a index = elim (get_elem? a.workers index) [
  | none ↦ none
  | some (p, e) ↦ some (record { worker_id = p; reader = e; index = index })
]

-- `AssignedWorker::status`.
unfoldable pub status : AssignedWorker Text WorkerEntry → WorkerStatus
unfolding status_from_fb
status w = status_from_fb w.reader.status

-- `AssignedWorker::peer_id`, whose parsing fails.
unfoldable pub peer_id : {P E : Type 0} → PeerText P → AssignedWorker Text E → Option P
peer_id t w = t.from_bytes w.worker_id
