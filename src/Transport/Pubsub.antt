-- ===== src/Transport/Pubsub.antt =====
-- crates/transport/src/behaviour/pubsub.rs: which gossip messages are passed on. Peer ids and topic
-- hashes are any types with an equality test. Clock readings are arguments: `now` is `Instant::now()`
-- and `wall` is `timestamp_now()`. A topic's `MsgValidator` keeps a state of any type `V`; it and the
-- outcome of the gossip library's own subscription are parameters.
pub mod Peers
pub mod Topics
use sqd_network.Base.{
  ℕ, ◌+◌, ◌-◌, ◌%◌, max, Bool, true, false, ◌||◌, Option, none, some, List, [], ◌∷◌, Outcome, ok,
  err, panic, ltb, leb, ◌==◌, if◌then◌else◌, u32_mod, u64_mod, Eq,
}
use sqd_network.Base.Text.{Text}

-- `ValidationError`, less its texts.
pub data ValidationError : Type 0 where
  invalid ignored : ValidationError

abbrev pub Res : Type 0
Res = Outcome ValidationError (Unit {0})

-- `MsgValidationConfig`, its validator apart.
pub record Config : Type 0 where
  pub min_interval : ℕ
  pub max_burst : ℕ
  pub keep_last : ℕ

-- `PeerState`.
pub record PeerState : Type 0 where
  pub last_seq_no : ℕ
  pub last_time : ℕ
  pub burst : ℕ

-- `PeerState::new`.
unfoldable pub new_peer : ℕ → ℕ → PeerState
new_peer now seq_no = record { last_seq_no = seq_no; last_time = now; burst = 1 }

-- The burst counter: one more within the interval, begun again after it.
unfoldable pub count_burst : PeerState → Config → ℕ → PeerState
count_burst s config now =
    if ltb (now - s.last_time) config.min_interval
    then record s { burst = (s.burst + 1) % u32_mod }
    else record s { last_time = now; burst = 1 }

-- `PeerState::validate_msg`; the sum wraps at 64 bits.
unfoldable pub validate_seq : PeerState → ℕ → Config → ℕ → ℕ → PeerState × Res
unfolding count_burst
validate_seq s seq_no config now wall =
    if seq_no == 0 || ltb wall seq_no
    then (s, err ValidationError.invalid)
    else if leb ((seq_no + config.keep_last) % u64_mod) s.last_seq_no
    then (s, err ValidationError.ignored)
    else (let s' = count_burst s config now in
        if ltb config.max_burst s'.burst
        then (s', err ValidationError.ignored)
        else (record s' { last_seq_no = max s'.last_seq_no seq_no }, ok tt))

-- A `HashMap`: entries by key.
module _ {K V : Type 0} ⦃e : Eq K⦄ where
  unfoldable pub map_get : K → List (K × V) → Option V
  map_get k [] = none
  map_get k ((j, v) ∷ m) = if e.beq k j then some v else map_get k m

  unfoldable pub map_set : K → V → List (K × V) → List (K × V)
  map_set k v [] = (k, v) ∷ []
  map_set k v ((j, w) ∷ m) = if e.beq k j then (j, v) ∷ m else (j, w) ∷ map_set k v m

-- `TopicState`, its name and hash apart.
pub record TopicState (P V : Type 0) : Type 0 where
  pub name : Text
  pub peer_states : List (P × PeerState)
  pub config : Config
  pub validator : V
  pub subscribed_at : ℕ

module _ {P V : Type 0} ⦃e : Eq P⦄ (msg_validator : V → P → ℕ → Text → V × Res) where
  -- The peer's part of `TopicState::validate_msg`: a peer not seen before is entered as it is.
  unfoldable pub validate_peer : TopicState P V → P → ℕ → ℕ → ℕ → TopicState P V × Res
  unfolding map_get map_set validate_seq new_peer
  validate_peer t peer seq_no now wall = elim (map_get peer t.peer_states) [
    | none ↦ (record t { peer_states = map_set peer (new_peer now seq_no) t.peer_states }, ok tt)
    | some s ↦
        let (s', result) = validate_seq s seq_no t.config now wall in
        (record t { peer_states = map_set peer s' t.peer_states }, result)
  ]

  -- `TopicState::validate_msg`.
  unfoldable pub validate_msg : TopicState P V → P → ℕ → Text → ℕ → ℕ → TopicState P V × Res
  unfolding validate_peer
  validate_msg t peer seq_no bytes now wall =
      let (v, result) = msg_validator t.validator peer seq_no bytes in
      elim result [
        | ok _ ↦ validate_peer (record t { validator = v }) peer seq_no now wall
        | err e ↦ (record t { validator = v }, err e)
        | panic ↦ (record t { validator = v }, panic)
      ]

-- `gossipsub::Message`, and `PubsubMsg`.
pub record Message (P H : Type 0) : Type 0 where
  pub source : Option P
  pub sequence_number : Option ℕ
  pub topic : H
  pub «data» : Text

pub record PubsubMsg (P : Type 0) : Type 0 where
  pub peer_id : P
  pub topic : Text
  pub «data» : Text

-- `MessageAcceptance`, and how errors turn into it.
pub data Acceptance : Type 0 where
  accept reject ignore : Acceptance

unfoldable pub from_error : ValidationError → Acceptance
from_error ValidationError.invalid = Acceptance.reject
from_error ValidationError.ignored = Acceptance.ignore

module _ {P V H : Type 0} ⦃e : Eq P⦄ ⦃h : Eq H⦄ where
  -- `subscribe`; `subscribed` is whether the gossip library took the subscription.
  unfoldable pub subscribe :
      List (H × TopicState P V) → H → Text → Config → V → ℕ → Bool → List (H × TopicState P V)
  unfolding map_get map_set
  subscribe topics hash name config validator now subscribed = elim (map_get hash topics) [
    | some _ ↦ topics
    | none ↦
        if subscribed
        then map_set hash
            (record {
              name = name;
              peer_states = [];
              config = config;
              validator = validator;
              subscribed_at = now;
            })
            topics
        else topics
  ]

  module _ (msg_validator : V → P → ℕ → Text → V × Res) where
    -- `validate_gossipsub_msg`.
    unfoldable pub validate_gossipsub_msg :
        List (H × TopicState P V)
        → Message P H
        → ℕ
        → ℕ
        → List (H × TopicState P V) × Outcome ValidationError (PubsubMsg P)
    unfolding validate_msg map_get map_set
    validate_gossipsub_msg topics msg now wall = elim msg.source [
      | none ↦ (topics, err ValidationError.invalid)
      | some peer ↦ elim msg.sequence_number [
        | none ↦ (topics, err ValidationError.invalid)
        | some seq_no ↦ elim (map_get msg.topic topics) [
          | none ↦ (topics, err ValidationError.invalid)
          | some t ↦
              let (t', result) = validate_msg msg_validator t peer seq_no msg.«data» now wall in
              (
                map_set msg.topic t' topics,
                elim result [
                  | ok _ ↦ ok (record { peer_id = peer; topic = t'.name; «data» = msg.«data» })
                  | err e ↦ err e
                  | panic ↦ panic
                ],
              )
        ]
      ]
    ]

    -- `on_inner_event` on a message: the event passed on, and the verdict reported to the library.
    unfoldable pub on_message :
        List (H × TopicState P V)
        → Message P H
        → ℕ
        → ℕ
        → List (H × TopicState P V) × Outcome (Unit {0}) (Option (PubsubMsg P) × Acceptance)
    unfolding validate_gossipsub_msg from_error
    on_message topics msg now wall =
        let (topics', result) = validate_gossipsub_msg topics msg now wall in
        (
          topics',
          elim result [
            | ok m ↦ ok (some m, Acceptance.accept)
            | err e ↦ ok (none, from_error e)
            | panic ↦ panic
          ],
        )
