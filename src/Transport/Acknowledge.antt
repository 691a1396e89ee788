-- ===== src/Transport/Acknowledge.antt =====
-- The contiguous acknowledgement of atemwire/transport.py: `_update_ack_number` and the receive
-- state that it reads. `_seen`, a dict, is searched in time of its size here; the fuel of the
-- loop is that size and one more, which is enough (Acknowledge/Loop).
pub mod Loop
pub mod History
use bmdwire.Prelude.{ℕ, zero, suc, Bool, true, if◌then◌else◌, length}
use bmdwire.Transport.Packet.{Packet, reliable, has_flag}
use bmdwire.Transport.Seq.{next}
use bmdwire.Transport.Seen
use bmdwire.Transport.Seen.{SeenWindow}

-- `ack_number`, `_rx_established` and `received_packets` of `UdpProtocol`.
pub record Acks : Type 0 where
  pub ack_number : ℕ
  pub rx_established : Bool
  pub received_packets : SeenWindow

-- `while next(ack_number) in received_packets: ack_number = next(ack_number)`, with fuel.
unfoldable pub advance : ℕ → SeenWindow → ℕ → ℕ
advance zero w ack = ack
advance (suc fuel) w ack =
    let rest = advance fuel w (next ack) in if Seen.has w (next ack) then rest else ack

-- `_update_ack_number`, where `remote_sequence_number` is the packet's sequence number.
unfoldable pub update_ack_number : Acks → Packet → Acks
update_ack_number a p =
    if a.rx_established
    then record a {
      ack_number = advance (suc (length a.received_packets.seen)) a.received_packets a.ack_number;
    }
    else record a { ack_number = p.sequence_number; rx_established = has_flag p.flags reliable }

-- What `_receive_packet_low` does with these fields for a packet that it has not seen.
unfoldable pub note : Acks → Packet → Acks
unfolding update_ack_number
note a p =
    update_ack_number
      (record a { received_packets = Seen.append a.received_packets p.sequence_number }) p
