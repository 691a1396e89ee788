-- ===== src/Transport/Delivery/Synced.antt =====
-- A numbered stream, and the delivery gate in step with it (atemwire/transport.py).
use bmdwire.Prelude.{ℕ, ◌+◌, ◌%◌, ◌<◌, ◌≤◌, ◌≡◌, true, some, List, lookup, ◌⊎◌, contains}
use bmdwire.Transport.Packet.{Packet, reliable, has_flag}
use bmdwire.Transport.Delivery.{Delivery, Gated, delivered}
use bmdwire.Transport.Delivery.Drain.{segment, Holds}

-- Reliable packets, numbered from `first` on in the 15-bit space.
pub record IsStream (stream : ℕ → Packet) (first : ℕ) : Type 0 where
  pub numbered : (i : ℕ) → (stream i).sequence_number ≡ (first + i) % 32768
  pub is_reliable : (i : ℕ) → has_flag (stream i).flags reliable ≡ true

-- Index `i` is in reach of a receiver that waits for index `c`: at most the park window ahead,
-- and less than half the sequence space behind.
abbrev pub Near : ℕ → ℕ → Type 0
Near c i = (i ≤ c + 512) × (c ≤ i + 16383)

-- The gate waits for index `c` of the stream, the first that has not arrived, and has parked what
-- arrived after it.
pub record Synced (stream : ℕ → Packet) (first : ℕ) (arrived : List ℕ) (c : ℕ) (d : Delivery)
    : Type 0 where
  pub cursor : d.deliver_next ≡ some ((first + c) % 32768)
  pub holds : Holds stream first arrived 1 c d.parked
  pub complete :
      (j : ℕ)
      → contains arrived j ≡ true
      → (j < c)
        ⊎ (c < j) × (j ≤ c + 512) × (lookup ((first + j) % 32768) d.parked ≡ some (stream j))
  pub below : (j : ℕ) → j < c → contains arrived j ≡ true

-- What one packet does: the packets delivered are the next of the stream.
pub record Stepped (stream : ℕ → Packet) (first : ℕ) (arrived : List ℕ) (c : ℕ) (g : Gated)
    : Type 0 where
  pub count : ℕ
  pub packets : delivered g ≡ segment stream c count
  pub synced : Synced stream first arrived (c + count) g.delivery
