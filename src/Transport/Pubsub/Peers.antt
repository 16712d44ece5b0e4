-- ===== src/Transport/Pubsub/Peers.antt =====
-- A known peer's messages: sequence numbers and bursts.
use sqd_network.Base.{
  ℕ, suc, ◌+◌, ◌-◌, ◌≤◌, ◌<◌, ◌≡◌, ◌≢◌, ◌⊎◌, ◌↔◌, max, List, [], ◌∷◌, length, ok, err, panic,
  u32_mod, u64_mod, arith, All,
}
use sqd_network.Transport.Pubsub.{Config, PeerState, count_burst, validate_seq}

-- Whether one more message is within the burst: where `min_interval` has not passed since the
-- burst began, the messages so far and this one are at most `max_burst`, and otherwise a new burst
-- may have one.
abbrev pub BurstAllows : PeerState → Config → ℕ → Type 0
BurstAllows s config now =
    ((now - s.last_time < config.min_interval) → s.burst + 1 ≤ config.max_burst)
    × ((config.min_interval ≤ now - s.last_time) → 1 ≤ config.max_burst)

-- The state after a message was accepted.
abbrev pub IsNext : PeerState → ℕ → Config → ℕ → PeerState → Type 0
IsNext s seq_no config now next =
    (next.last_seq_no ≡ max s.last_seq_no seq_no)
    × ((now - s.last_time < config.min_interval)
        → (next.last_time ≡ s.last_time) × (next.burst ≡ s.burst + 1))
    × ((config.min_interval ≤ now - s.last_time) → (next.last_time ≡ now) × (next.burst ≡ 1))

-- Where the number and `keep_last` add up below 2^64, and the burst counter is not at 2^32 - 1: a
-- message of a known peer is accepted exactly if its sequence number is positive, not from the
-- future, less than `keep_last` behind the last one, and one more message is within the burst.
-- Then the last number becomes the greater of the two, and the burst counts one more or begins
-- again now. Any refusal leaves the last number as it was, and one for the number itself leaves
-- the whole state.
pub validate_seq_lem :
    (s : PeerState) (seq_no : ℕ) (config : Config) (now wall : ℕ)
    → seq_no + config.keep_last < u64_mod
    → s.burst + 1 < u32_mod
    → (((validate_seq s seq_no config now wall).1 ≡ ok tt) ↔ (
        (0 < seq_no)
        × (seq_no ≤ wall)
        × (s.last_seq_no < seq_no + config.keep_last)
        × BurstAllows s config now))
      × (((validate_seq s seq_no config now wall).1 ≡ ok tt)
          → IsNext s seq_no config now (validate_seq s seq_no config now wall).0)
      × (((validate_seq s seq_no config now wall).1 ≢ ok tt)
          → (validate_seq s seq_no config now wall).0.last_seq_no ≡ s.last_seq_no)
      × (((seq_no ≡ 0) ⊎ (wall < seq_no) ⊎ (seq_no + config.keep_last ≤ s.last_seq_no))
          → (validate_seq s seq_no config now wall).0 ≡ s)
unfolding validate_seq count_burst
validate_seq_lem s seq_no config now wall fits small = (
  (
    (λ h. (ground arith, ground arith, ground arith, ((λ k. ground arith), (λ k. ground arith)))),
    (λ h. ground arith),
  ),
  (λ h. (ground arith, (λ k. (ground arith, ground arith)), (λ k. (ground arith, ground arith)))),
  (λ h. ground arith),
  λ h. ground arith,
)

-- A message as it arrives: its number and the clocks.
pub record Arrival : Type 0 where
  pub seq_no : ℕ
  pub now : ℕ
  pub wall : ℕ

-- How many of the messages are accepted, one after another.
unfoldable pub accepted : PeerState → Config → List Arrival → ℕ
unfolding validate_seq
accepted s config [] = 0
accepted s config (a ∷ rest) =
    let next = validate_seq s a.seq_no config a.now a.wall in
    let later = accepted next.0 config rest in
    elim next.1 [ ok _ ↦ suc later | err _ ↦ later | panic ↦ later ]

-- Of a peer's messages that all arrive within the interval that its current burst began, no more are
-- accepted than the burst had left, however many are sent (below 2^32).
pub accepted-le :
    (s : PeerState) (config : Config) (rest : List Arrival)
    → s.burst + length rest < u32_mod
    → All (λ (a : Arrival). a.now - s.last_time < config.min_interval) rest
    → accepted s config rest ≤ config.max_burst - s.burst
unfolding accepted count_burst
accepted-le s config [] fits h = omega arith
accepted-le s config (a ∷ rest) fits h = ground (
  arith,
  accepted-le s config rest (omega arith) h.1,
  accepted-le (record s { burst = s.burst + 1 }) config rest (omega arith) h.1,
  accepted-le (record s { burst = s.burst + 1; last_seq_no = max s.last_seq_no a.seq_no }) config
      rest (omega arith) h.1,
)
