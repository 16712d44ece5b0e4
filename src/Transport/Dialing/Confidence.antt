-- ===== src/Transport/Dialing/Confidence.antt =====
-- The `NetworkConnected` events of a behaviour rise.
use sqd_network.Base.{ℕ, ◌<◌, Option, none, some, List, [], ◌∷◌, Eq}
use sqd_network.Transport.Dialing.{Base, Event, on_identify_event}

-- Peers identified one after the other, each with the size of the whitelist at the time, and the
-- confidences of the events raised.
unfoldable pub confidences :
    {P K : Type 0} ⦃e : Eq P⦄ → (ℕ → ℕ → ℕ) → List (ℕ × P) → Base P K → List ℕ
confidences tenths [] b = []
confidences tenths ((size, p) ∷ more) b =
    let (b', event) = on_identify_event tenths size b p in
    let later = confidences tenths more b' in
    elim event [
      | none ↦ later
      | some (Event.network_connected c) ↦ c ∷ later
      | some (Event.dial _) ↦ later
      | some (Event.dial_unless_dialing _) ↦ later
    ]

-- Strictly rising, from above `low` on.
abbrev pub Rises : ℕ → List ℕ → Type 0
Rises low [] = Unit
Rises low (c ∷ cs) = (low < c) × Rises c cs

-- The last confidence sent, 0 before the first.
abbrev pub sent : Option ℕ → ℕ
sent none = 0
sent (some c) = c
