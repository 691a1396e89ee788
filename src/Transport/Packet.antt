-- ===== src/Transport/Packet.antt =====
-- `Packet` of atemwire/transport.py: the 12-byte header and its codec.
-- A byte is a number; the body of a packet is a list of bytes, `none` where the source has `None`.
pub mod RoundTrip
use bmdwire.Prelude.{
  ℕ, ◌+◌, ◌*◌, ◌/◌, ◌%◌, ◌^◌, Bool, true, false, ◌&&◌, Option, none, some, List, [], ◌∷◌, ◌++◌,
  length, leb, ◌==◌, if◌then◌else◌, ◌>>=◌,
}

-- The labels that the code gives a packet; only `_handshake` is read.
pub data Label : Type 0 where
  unlabelled handshake_reply initial_ack closing : Label

-- `session` is `none` between the handshake reply and the first packet after it.
pub record Packet : Type 0 where
  pub flags : ℕ
  pub length : ℕ
  pub session : Option ℕ
  pub sequence_number : ℕ
  pub acknowledgement_number : ℕ
  pub remote_sequence_number : ℕ
  pub retransmission_request : ℕ
  pub body : Option (List ℕ)
  pub label : Label

-- `Packet()`
abbrev pub new : Packet
new = record {
  flags = 0;
  length = 0;
  session = some 0;
  sequence_number = 0;
  acknowledgement_number = 0;
  remote_sequence_number = 0;
  retransmission_request = 0;
  body = none;
  label = Label.unlabelled;
}

-- The five flag bits, as the exponents of UdpProtocol's FLAG_ constants.
abbrev pub reliable : ℕ
reliable = 0

abbrev pub syn : ℕ
syn = 1

abbrev pub retransmission : ℕ
retransmission = 2

abbrev pub request_retransmission : ℕ
request_retransmission = 3

abbrev pub ack : ℕ
ack = 4

-- `flags & (1 << k)` is not 0.
abbrev pub has_flag : ℕ → ℕ → Bool
has_flag flags k = (flags / 2 ^ k) % 2 == 1

-- `flags |= 1 << k`
abbrev pub set_flag : ℕ → ℕ → ℕ
set_flag flags k = if has_flag flags k then flags else flags + 2 ^ k

-- `data if data is not None else b''`
abbrev pub bytes_of : Option (List ℕ) → List ℕ
bytes_of none = []
bytes_of (some bytes) = bytes

-- struct's `>H`: `none` is the `struct.error` of a number that does not fit.
unfoldable pub pack_u16 : ℕ → Option (List ℕ)
pack_u16 n = if leb n 65535 then some (n / 256 ∷ n % 256 ∷ []) else none

abbrev pub u16 : ℕ → ℕ → ℕ
u16 high low = high * 256 + low

-- struct's `>HHH 2x HH`; `none` is a `struct.error`, for a session that is `None` too.
unfoldable pub pack_header : ℕ → Option ℕ → ℕ → ℕ → ℕ → Option (List ℕ)
unfolding pack_u16
pack_header word session acknowledgement remote sequence = do
  id ← session
  w ← pack_u16 word
  s ← pack_u16 id
  a ← pack_u16 acknowledgement
  r ← pack_u16 remote
  q ← pack_u16 sequence
  some (w ++ (s ++ (a ++ (0 ∷ 0 ∷ (r ++ q)))))

-- `Packet.to_bytes`
unfoldable pub to_bytes : Packet → Option (List ℕ)
unfolding pack_header
to_bytes p = do
  let packet_len = 12 + length (bytes_of p.body)
  header ←
      pack_header (packet_len + p.flags * 2048) p.session p.acknowledgement_number
        p.remote_sequence_number p.sequence_number
  some (header ++ bytes_of p.body)

-- `Packet.from_bytes`; `none` is its `struct.error` (fewer than 12 bytes) or `ValueError`.
unfoldable pub from_bytes : List ℕ → Option Packet
from_bytes (b0 ∷ b1 ∷ b2 ∷ b3 ∷ b4 ∷ b5 ∷ b6 ∷ b7 ∷ b8 ∷ b9 ∷ b10 ∷ b11 ∷ rest) =
    if u16 b0 b1 % 2048 == 12 + length rest
    then some (record {
      flags = u16 b0 b1 / 2048;
      length = u16 b0 b1 % 2048;
      session = some (u16 b2 b3);
      sequence_number = u16 b10 b11;
      acknowledgement_number = u16 b4 b5;
      remote_sequence_number = u16 b8 b9;
      retransmission_request = u16 b6 b7;
      body = some rest;
      label = Label.unlabelled;
    })
    else none
from_bytes _ = none
