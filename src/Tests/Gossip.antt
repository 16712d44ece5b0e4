-- ===== src/Tests/Gossip.antt =====
-- A topic of crates/transport/src/behaviour/pubsub.rs whose validator takes every message.
use sqd_network.Base.{
  ℕ, ◌+◌, ◌-◌, ◌≤◌, ◌<◌, ◌≡◌, ◌≢◌, ◌⊎◌, ◌↔◌, refl, none, some, List, [], ◌∷◌, ok, u64_mod, arith,
  nat_eq,
}
use sqd_network.Base.Text.{Text}
use sqd_network.Transport.Pubsub.{
  Res, Config, PeerState, TopicState, Message, PubsubMsg, Acceptance, validate_seq, validate_msg,
  on_message, map_get,
}
use sqd_network.Transport.Pubsub.Peers.{
  Arrival, accepted, BurstAllows, IsNext, validate_seq_lem, accepted-le,
}
use sqd_network.Transport.Pubsub.Topics.{Incoming, after, first_message-decides, on_message_lem}

abbrev config : Config
config = record { min_interval = 100; max_burst = 2; keep_last = 5 }

abbrev peer : PeerState
peer = record { last_seq_no = 1000; last_time = 50; burst = 1 }

validate_seq_lem_example :
    (((validate_seq peer 998 config 60 2000).1 ≡ ok tt)
      ↔ ((0 < 998) × (998 ≤ 2000) × (1000 < 998 + 5) × BurstAllows peer config 60))
    × (((validate_seq peer 998 config 60 2000).1 ≡ ok tt)
        → IsNext peer 998 config 60 (validate_seq peer 998 config 60 2000).0)
    × (((validate_seq peer 998 config 60 2000).1 ≢ ok tt)
        → (validate_seq peer 998 config 60 2000).0.last_seq_no ≡ 1000)
    × (((◌≡◌ {A = ℕ} 998 0) ⊎ (2000 < 998) ⊎ (998 + 5 ≤ 1000))
        → (validate_seq peer 998 config 60 2000).0 ≡ peer)
validate_seq_lem_example = validate_seq_lem peer 998 config 60 2000 (omega arith) (omega arith)

abbrev arrivals : List Arrival
arrivals =
    record { seq_no = 1001; now = 60; wall = 2000 }
    ∷ record { seq_no = 1002; now = 70; wall = 2000 }
    ∷ record { seq_no = 1003; now = 80; wall = 2000 }
    ∷ []

accepted-le_example : accepted peer config arrivals ≤ 2 - 1
accepted-le_example = accepted-le peer config arrivals (omega arith) (omega arith)

accepted_runs : accepted peer config arrivals ≡ 1
unfolding accepted
accepted_runs = refl

abbrev take_all : Unit {0} → ℕ → ℕ → Text → Unit {0} × Res
take_all v p seq_no bytes = (v, ok tt)

abbrev topic : TopicState ℕ (Unit {0})
topic = record {
  name = 112 ∷ [];
  peer_states = (3, peer) ∷ [];
  config = config;
  validator = tt;
  subscribed_at = 0;
}

unknown : map_get 4 topic.peer_states ≡ none
unfolding map_get
unknown = refl

first_message-decides_example :
    ((validate_msg take_all topic 4 9000 [] 60 2000).1 ≡ ok tt)
    × ((messages : List (Incoming ℕ)) (later now' wall' : ℕ) (bytes' : Text)
        → later + 5 < u64_mod
        → later + 5 ≤ 9000
        → (validate_msg take_all
            (after take_all (validate_msg take_all topic 4 9000 [] 60 2000).0 messages)
            4
            later
            bytes'
            now'
            wall').1
          ≢ ok tt)
first_message-decides_example = first_message-decides take_all topic 4 9000 [] 60 2000 unknown refl

abbrev topics : List (ℕ × TopicState ℕ (Unit {0}))
topics = (8, topic) ∷ []

abbrev message : Message ℕ ℕ
message = record { source = some 3; sequence_number = some 1001; topic = 8; «data» = 1 ∷ [] }

on_message_lem_example :
    ((m : PubsubMsg ℕ) (verdict : Acceptance)
      → (on_message take_all topics message 60 2000).1 ≡ ok (some m, verdict)
      → (verdict ≡ Acceptance.accept)
        × (m.«data» ≡ 1 ∷ [])
        × (some 3 ≡ some m.peer_id)
        × ((seq_no : ℕ) × (t : TopicState ℕ (Unit {0})) × (some 1001 ≡ some seq_no)
            × (map_get 8 topics ≡ some t)
            × ((validate_msg take_all t m.peer_id seq_no (1 ∷ []) 60 2000).1 ≡ ok tt)
            × (m.topic ≡ t.name)))
    × ((q : ℕ)
        → q ≢ 8
        → map_get q (on_message take_all topics message 60 2000).0 ≡ map_get q topics)
on_message_lem_example = on_message_lem take_all topics message 60 2000

on_message_runs :
    (on_message take_all topics message 60 2000).1
    ≡ ok (some (record { peer_id = 3; topic = 112 ∷ []; «data» = 1 ∷ [] }), Acceptance.accept)
unfolding on_message
on_message_runs = refl
