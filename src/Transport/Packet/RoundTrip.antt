-- ===== src/Transport/Packet/RoundTrip.antt =====
-- The codec of `Packet`: what `to_bytes` writes, `from_bytes` reads back, and the other way round.
use bmdwire.Prelude.{ℕ, ◌+◌, ◌<◌, ◌≡◌, some, List, ◌∷◌, length, arith, All}
use bmdwire.Transport.Packet.{Packet, Label, bytes_of, to_bytes, from_bytes}

-- What `from_bytes` makes of the bytes of `p`: the unset fields are those of a packet received.
abbrev pub received : Packet → Packet
received p = record p {
  length = 12 + length (bytes_of p.body);
  retransmission_request = 0;
  body = some (bytes_of p.body);
  label = Label.unlabelled;
}

-- A packet that `to_bytes` serialises and whose length fits the 11 length bits is read back by
-- `from_bytes` with the same flags, session, sequence, acknowledgement and remote sequence
-- numbers and body, with retransmission request 0.
pub from_bytes-to_bytes :
    (p : Packet) (raw : List ℕ)
    → to_bytes p ≡ some raw
    → length (bytes_of p.body) + 12 < 2048
    → from_bytes raw ≡ some (received p)
unfolding to_bytes from_bytes
from_bytes-to_bytes p raw h fits = ground arith

-- The datagram with bytes 6 and 7, which `to_bytes` never sets, cleared.
abbrev pub clear_request : List ℕ → List ℕ
clear_request (b0 ∷ b1 ∷ b2 ∷ b3 ∷ b4 ∷ b5 ∷ b6 ∷ b7 ∷ rest) =
    b0 ∷ b1 ∷ b2 ∷ b3 ∷ b4 ∷ b5 ∷ 0 ∷ 0 ∷ rest
clear_request raw = raw

abbrev pub IsBytes : List ℕ → Type 0
IsBytes = All (λ b. b < 256)

-- A datagram of bytes that `from_bytes` accepts is serialised by `to_bytes` to the same bytes, but
-- for the retransmission request in bytes 6 and 7, which comes back as 0; and the header's
-- length is the length of the datagram.
pub to_bytes-from_bytes :
    (raw : List ℕ) (p : Packet)
    → IsBytes raw
    → from_bytes raw ≡ some p
    → (to_bytes p ≡ some (clear_request raw)) × (p.length ≡ length raw)
unfolding to_bytes from_bytes
to_bytes-from_bytes (b0 ∷ b1 ∷ b2 ∷ b3 ∷ b4 ∷ b5 ∷ b6 ∷ b7 ∷ b8 ∷ b9 ∷ b10 ∷ b11 ∷ rest) p bytes h =
    ground arith
to_bytes-from_bytes _ p bytes h = ground arith
