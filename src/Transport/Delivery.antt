-- ===== src/Transport/Delivery.antt =====
-- The in-order delivery gate at the end of `_receive_packet_low` (atemwire/transport.py).
-- The drain of the parked packets is a loop on fuel; the number of parked packets is enough.
pub mod Drain
pub mod Synced
pub mod Step
pub mod Stream
pub mod Order
use bmdwire.Prelude.{
  ℕ, zero, suc, ◌+◌, Bool, true, false, ◌&&◌, ◌||◌, not, Option, none, some, List, [], ◌∷◌, ◌++◌,
  length, is_empty, lookup, without, insert, ltb, leb, ◌==◌, if◌then◌else◌,
}
use bmdwire.Transport.Packet.{Packet, reliable, has_flag}
use bmdwire.Transport.Seq.{next, distance}

-- `DELIVERY_PARK_WINDOW`
abbrev pub park_window : ℕ
park_window = 512

-- `_deliver_next` and `_parked` of `UdpProtocol`.
pub record Delivery : Type 0 where
  pub deliver_next : Option ℕ
  pub parked : List (ℕ × Packet)

-- What the gate does with a packet: the packets that it puts on `thread_recv_queue`, in order,
-- and what it returns to the caller, who puts that on the queue next (`none` for `True`).
pub record Gated : Type 0 where
  pub delivery : Delivery
  pub queued : List Packet
  pub returned : Option Packet

-- `while deliver_next in parked: put(parked.pop(deliver_next)); deliver_next = next(...)`
unfoldable pub drain : ℕ → ℕ → List (ℕ × Packet) → List Packet × ℕ × List (ℕ × Packet)
drain zero cursor parked = ([], cursor, parked)
drain (suc fuel) cursor parked =
    let (packets, cursor', parked') = drain fuel (next cursor) (without cursor parked) in
    elim (lookup cursor parked) [
      | none ↦ ([], cursor, parked)
      | some p ↦ (p ∷ packets, cursor', parked')
    ]

-- The packet owed next: it goes out, and every parked successor after it.
unfoldable pub fill : Delivery → Packet → Gated
unfolding drain
fill d p =
    let cursor = next p.sequence_number in
    let (packets, cursor', parked') = drain (length d.parked) cursor d.parked in
    if is_empty d.parked
    then record {
      delivery = record d { deliver_next = some cursor };
      queued = [];
      returned = some p;
    }
    else record {
      delivery = record { deliver_next = some cursor'; parked = parked' };
      queued = p ∷ packets;
      returned = none;
    }

-- The gate, once the cursor is set.
unfoldable pub gate_at : ℕ → Delivery → Packet → Gated
unfolding fill
gate_at cursor d p =
    let dist = distance p.sequence_number cursor in
    if dist == 0
    then fill d p
    else if ltb 0x4000 dist
    then record { delivery = d; queued = []; returned = none }
    else if leb dist park_window
    then record {
      delivery = record d { parked = insert p.sequence_number p d.parked };
      queued = [];
      returned = none;
    }
    else record {
      delivery = record { deliver_next = some (next p.sequence_number); parked = [] };
      queued = [];
      returned = some p;
    }

-- The gate; `established` is `_rx_established`. An unreliable packet passes through, and the
-- first packet that it gates sets the cursor.
unfoldable pub gate : Bool → Delivery → Packet → Gated
unfolding gate_at
gate established d p =
    if not (has_flag p.flags reliable) || not established
    then record { delivery = d; queued = []; returned = some p }
    else elim d.deliver_next [
      | none ↦ record {
        delivery = record d { deliver_next = some (next p.sequence_number) };
        queued = [];
        returned = some p;
      }
      | some cursor ↦ gate_at cursor d p
    ]

-- What reaches `thread_recv_queue` for one packet, in order.
abbrev pub delivered : Gated → List Packet
delivered g = g.queued ++ elim g.returned [ none ↦ [] | some p ↦ p ∷ [] ]
