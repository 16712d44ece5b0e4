-- ===== src/Transport/Pubsub/Topics.antt =====
-- Topics: each peer and each topic is validated on its own, and what a peer's first message does.
use sqd_network.Base.{
  Bool-cases, refl, sym, ap, ◌∙◌, err, panic, ℕ, ◌+◌, ◌≤◌, ◌<◌, ◌≡◌, ◌≢◌, none, some, List, [], ◌∷◌,
  ok, u64_mod, Eq, arith, inl, inr, Option-cases,
}
use sqd_network.Base.Text.{Text}
use sqd_network.Transport.Pubsub.{
  Res, Config, PeerState, count_burst, validate_seq, new_peer, map_get, map_set, TopicState,
  validate_peer, validate_msg, Message, PubsubMsg, Acceptance, validate_gossipsub_msg, on_message,
}

module _ {K V : Type 0} ⦃e : Eq K⦄ where
  pub map_get-map_set : (k : K) (v : V) (m : List (K × V)) → map_get k (map_set k v m) ≡ some v
  unfolding map_get map_set
  map_get-map_set k v [] = ground (arith, e.beq_iff k k)
  map_get-map_set k v ((j, w) ∷ m) = ground (arith, map_get-map_set k v m, e.beq_iff k k)

  pub map_get-map_set_other :
      (k q : K) (v : V) (m : List (K × V)) → q ≢ k → map_get q (map_set k v m) ≡ map_get q m
  unfolding map_get map_set
  map_get-map_set_other k q v [] n = ground (arith, e.beq_iff q k)
  map_get-map_set_other k q v ((j, w) ∷ m) n =
      ground (arith, map_get-map_set_other k q v m n, e.beq_iff k j, e.beq_iff q j, e.beq_iff q k)

-- A message of a peer on a topic, and the clocks when it comes in.
pub record Incoming (P : Type 0) : Type 0 where
  pub peer : P
  pub seq_no : ℕ
  pub bytes : Text
  pub now : ℕ
  pub wall : ℕ

module _ {P V : Type 0} ⦃e : Eq P⦄ (msg_validator : V → P → ℕ → Text → V × Res) where
  -- What a message does to the states of its topic's peers: the sender's alone is entered or
  -- validated, and the others keep theirs.
  validate_msg-others :
      (t : TopicState P V) (peer q : P) (seq_no : ℕ) (bytes : Text) (now wall : ℕ)
      → q ≢ peer
      → map_get q (validate_msg msg_validator t peer seq_no bytes now wall).0.peer_states
        ≡ map_get q t.peer_states
  unfolding validate_msg validate_peer
  validate_msg-others t peer q seq_no bytes now wall n =
      elim (Option-cases (map_get peer t.peer_states)) [
        | inl u ↦
            ground (arith, u, map_get-map_set_other peer q (new_peer now seq_no) t.peer_states n)
        | inr (s, k) ↦ ground (
          arith,
          k,
          map_get-map_set_other peer q (validate_seq s seq_no t.config now wall).0 t.peer_states n,
        )
      ]

  -- The topic after more messages, of any peers.
  unfoldable pub after : TopicState P V → List (Incoming P) → TopicState P V
  after t [] = t
  after t (m ∷ messages) =
      after (validate_msg msg_validator t m.peer m.seq_no m.bytes m.now m.wall).0 messages

  -- The peer is known, with a last number of at least `n`.
  abbrev Remembers : TopicState P V → P → ℕ → ℕ → Type 0
  Remembers t peer keep n =
      (t.config.keep_last ≡ keep)
      × (s : PeerState) × (map_get peer t.peer_states ≡ some s)
      × (n ≤ s.last_seq_no)

  validate_seq-grows :
      (s : PeerState) (seq_no : ℕ) (config : Config) (now wall : ℕ)
      → s.last_seq_no ≤ (validate_seq s seq_no config now wall).0.last_seq_no
  unfolding validate_seq count_burst
  validate_seq-grows s seq_no config now wall = ground arith

  -- Validation of a known peer keeps it known, and of another one leaves it alone.
  validate_peer-Remembers :
      (t : TopicState P V) (peer q : P) (keep n seq_no now wall : ℕ)
      → Remembers t peer keep n
      → Remembers (validate_peer msg_validator t q seq_no now wall).0 peer keep n
  validate_peer-Remembers t peer q keep n seq_no now wall (k, s, known, least) =
      elim (Bool-cases (e.beq peer q)) [
        | inl same ↦
            let p : peer ≡ q = (e.beq_iff peer q).0 same in
            let s' = (validate_seq s seq_no t.config now wall).0 in
            let known' : map_get q t.peer_states ≡ some s =
              ap (λ x. map_get x t.peer_states) (sym p) ∙ known in
            (
              unfold validate_peer in ground (arith, known', k),
              s',
              unfold validate_peer in
                  ap
                    (λ x. map_get x (validate_peer msg_validator t q seq_no now wall).0.peer_states)
                    p
                  ∙ ground (arith, known', map_get-map_set q s' t.peer_states),
              omega (arith, least, validate_seq-grows s seq_no t.config now wall),
            )
        | inr other ↦
            let apart : peer ≢ q = ground (arith, other, e.beq_iff peer q) in
            (
              unfold validate_peer in ground (arith, k),
              s,
              unfold validate_peer in
                  (elim (Option-cases (map_get q t.peer_states)) [
                    | inl u ↦ ground (
                      arith,
                      u,
                      known,
                      map_get-map_set_other q peer (new_peer now seq_no) t.peer_states apart,
                    )
                    | inr (s', u) ↦ ground (
                      arith,
                      u,
                      known,
                      map_get-map_set_other q peer (validate_seq s' seq_no t.config now wall).0
                          t.peer_states apart,
                    )
                  ]),
              least,
            )
      ]

  validate_msg-Remembers :
      (t : TopicState P V) (peer q : P) (keep n seq_no : ℕ) (bytes : Text) (now wall : ℕ)
      → Remembers t peer keep n
      → Remembers (validate_msg msg_validator t q seq_no bytes now wall).0 peer keep n
  validate_msg-Remembers t peer q keep n seq_no bytes now wall h =
      from (msg_validator t.validator q seq_no bytes).1 refl
    where
      from :
          (r : Res)
          → (msg_validator t.validator q seq_no bytes).1 ≡ r
          → Remembers (validate_msg msg_validator t q seq_no bytes now wall).0 peer keep n
      from (ok _) v =
          let t' : TopicState P V = record t {
            validator = (msg_validator t.validator q seq_no bytes).0;
          } in
          let same : (validate_msg msg_validator t q seq_no bytes now wall).0
              ≡ (validate_peer msg_validator t' q seq_no now wall).0 =
            unfold validate_msg in rw (v, validate_msg) refl in
          rw same (validate_peer-Remembers t' peer q keep n seq_no now wall h)
      from (err x) v = unfold validate_msg in rw (v, validate_msg) h
      from panic v = unfold validate_msg in rw (v, validate_msg) h

  after-Remembers :
      (t : TopicState P V) (peer : P) (keep n : ℕ) (messages : List (Incoming P))
      → Remembers t peer keep n
      → Remembers (after t messages) peer keep n
  unfolding after
  after-Remembers t peer keep n [] h = h
  after-Remembers t peer keep n (m ∷ messages) h =
      after-Remembers (validate_msg msg_validator t m.peer m.seq_no m.bytes m.now m.wall).0 peer
        keep n messages
        (validate_msg-Remembers t peer m.peer keep n m.seq_no m.bytes m.now m.wall h)

  -- A known peer's message that is too far behind is refused.
  behind_refused :
      (t : TopicState P V) (peer : P) (keep n later : ℕ) (bytes : Text) (now wall : ℕ)
      → Remembers t peer keep n
      → later + keep < u64_mod
      → later + keep ≤ n
      → (validate_msg msg_validator t peer later bytes now wall).1 ≢ ok tt
  behind_refused t peer keep n later bytes now wall (k, s, known, least) fits old =
      let fits' : later + t.config.keep_last < u64_mod = omega (arith, k, fits) in
      let old' : later + t.config.keep_last ≤ s.last_seq_no = omega (arith, k, old, least) in
      unfold validate_msg validate_peer validate_seq in ground (arith, known, fits', old')

  -- A peer's first message on a topic is accepted with any sequence number that the topic's validator
  -- takes, one from the future included. After it, and whatever messages of any peers follow it, every
  -- message of that peer is refused whose number is `keep_last` or more behind that first one, where
  -- number and `keep_last` add up below 2^64.
  pub first_message-decides :
      (t : TopicState P V) (peer : P) (seq_no : ℕ) (bytes : Text) (now wall : ℕ)
      → map_get peer t.peer_states ≡ none
      → (msg_validator t.validator peer seq_no bytes).1 ≡ ok tt
      → ((validate_msg msg_validator t peer seq_no bytes now wall).1 ≡ ok tt)
        × ((messages : List (Incoming P)) (later now' wall' : ℕ) (bytes' : Text)
            → later + t.config.keep_last < u64_mod
            → later + t.config.keep_last ≤ seq_no
            → (validate_msg msg_validator
                (after (validate_msg msg_validator t peer seq_no bytes now wall).0 messages)
                peer
                later
                bytes'
                now'
                wall').1
              ≢ ok tt)
  first_message-decides t peer seq_no bytes now wall u v = (
    unfold validate_msg validate_peer in ground (arith, u, v),
    λ messages later now' wall' bytes' fits old.
        behind_refused (after (validate_msg msg_validator t peer seq_no bytes now wall).0 messages)
          peer t.config.keep_last seq_no later bytes' now' wall'
          (after-Remembers (validate_msg msg_validator t peer seq_no bytes now wall).0 peer
            t.config.keep_last seq_no messages entered)
          fits old,
  )
    where
      entered :
          Remembers
            (validate_msg msg_validator t peer seq_no bytes now wall).0
            peer
            t.config.keep_last
            seq_no
      entered =
          let known = map_get-map_set peer (new_peer now seq_no) t.peer_states in
          unfold validate_msg validate_peer in
          (
            ground (arith, u, v),
            new_peer now seq_no,
            ground (arith, u, v, known),
            unfold new_peer in omega arith,
          )

  validate_msg-name :
      (t : TopicState P V) (peer : P) (seq_no : ℕ) (bytes : Text) (now wall : ℕ)
      → (validate_msg msg_validator t peer seq_no bytes now wall).0.name ≡ t.name
  unfolding validate_msg validate_peer
  validate_msg-name t peer seq_no bytes now wall = ground arith

module _ {P V H : Type 0} ⦃e : Eq P⦄ ⦃h : Eq H⦄ (msg_validator : V → P → ℕ → Text → V × Res) where
  -- A message is passed on exactly as it came, under its topic's name, and then reported as accepted;
  -- this happens only to one with a source and a sequence number, on a subscribed topic, which accepts
  -- it. Whatever happens, no topic but the message's own changes.
  pub on_message_lem :
      (topics : List (H × TopicState P V)) (msg : Message P H) (now wall : ℕ)
      → ((m : PubsubMsg P) (verdict : Acceptance)
          → (on_message msg_validator topics msg now wall).1 ≡ ok (some m, verdict)
          → (verdict ≡ Acceptance.accept)
            × (m.«data» ≡ msg.«data»)
            × (msg.source ≡ some m.peer_id)
            × ((seq_no : ℕ) × (t : TopicState P V) × (msg.sequence_number ≡ some seq_no)
                × (map_get msg.topic topics ≡ some t)
                × ((validate_msg msg_validator t m.peer_id seq_no msg.«data» now wall).1 ≡ ok tt)
                × (m.topic ≡ t.name)))
        × ((q : H)
            → q ≢ msg.topic
            → map_get q (on_message msg_validator topics msg now wall).0 ≡ map_get q topics)
  unfolding on_message validate_gossipsub_msg
  on_message_lem topics msg now wall = elim (Option-cases msg.source) [
    | inl a ↦ ((λ m verdict k. absurd (ground (arith, a))), λ q n. ground (arith, a))
    | inr (peer, a) ↦ elim (Option-cases msg.sequence_number) [
      | inl b ↦ ((λ m verdict k. absurd (ground (arith, a, b))), λ q n. ground (arith, a, b))
      | inr (seq_no, b) ↦ elim (Option-cases (map_get msg.topic topics)) [
        | inl c ↦
            ((λ m verdict k. absurd (ground (arith, a, b, c))), λ q n. ground (arith, a, b, c))
        | inr (t, c) ↦ (
          (λ m verdict k. (
            ground (arith, a, b, c),
            ground (arith, a, b, c),
            ground (arith, a, b, c),
            (seq_no, t, b, c, ground (arith, a, b, c), named t peer seq_no m verdict a b c k),
          )),
          λ q n. ground (
            arith,
            a,
            b,
            c,
            map_get-map_set_other msg.topic q
                (validate_msg msg_validator t peer seq_no msg.«data» now wall).0 topics n,
          ),
        )
      ]
    ]
  ]
    where
      named :
          (t : TopicState P V) (peer : P) (seq_no : ℕ) (m : PubsubMsg P) (verdict : Acceptance)
          → msg.source ≡ some peer
          → msg.sequence_number ≡ some seq_no
          → map_get msg.topic topics ≡ some t
          → (on_message msg_validator topics msg now wall).1 ≡ ok (some m, verdict)
          → m.topic ≡ t.name
      named t peer seq_no m verdict a b c k =
          ground (arith, a, b, c, validate_msg-name msg_validator t peer seq_no msg.«data» now wall)
