-- ===== src/Transport/Reader.antt =====
-- `receive_packet` of `UdpProtocol` (atemwire/transport.py): what the protocol's thread takes from
-- the UDP thread, with the sentinels that it returns in between.
pub mod Kept
pub mod Stash
use bmdwire.Prelude.{
  ℕ, zero, suc, ◌+◌, Bool, true, false, not, ◌&&◌, Option, none, some, List, [], ◌∷◌, length, ◌==◌,
  if◌then◌else◌,
}
use bmdwire.Transport.Packet.{Packet, Label, new}
use bmdwire.Transport.Udp.{
  Udp, Connection, Item, Answer, Result, ok, raised, Action, pure, modify, ◌>>=◌, ◌>>◌,
}
use bmdwire.Transport.Send.{post}
use bmdwire.Transport.Session.{connect, handshake}
use bmdwire.Transport.Queue.{queue_trigger}

-- What `receive_packet` returns: `None`, a `Wakeup`, a `ConnectionReady`, a `TransferQueueFlushed`
-- or a packet for the upper layer.
pub data Returned : Type 0 where
  disconnected woken connection_ready queue_flushed : Returned
  data_packet : Packet → Returned

-- The packet stashed by the previous call, or the next item of `thread_recv_queue`; `none` where
-- the source waits for an item.
unfoldable pub next_item : Udp → Option Item × Udp
next_item u = elim u.stashed_packet [
  | some p ↦ (some (Item.packet p), record u { stashed_packet = none })
  | none ↦ elim u.thread_recv_queue [
    | [] ↦ (none, u)
    | item ∷ items ↦ (some item, record u { thread_recv_queue = items })
  ]
]

abbrev pub initial_ack : ℕ → Packet
initial_ack number = record new {
  flags = 16;
  acknowledgement_number = number;
  remote_sequence_number = 0x61;
  label = Label.initial_ack;
}

-- The first ACK of the switcher turns ours on.
unfoldable pub start_acking : Udp → Udp
start_acking u =
    if u.enable_ack
    then u
    else post (initial_ack u.acks.ack_number) (record u { enable_ack = true })

module _ (net : ℕ → Answer) (now : ℕ) (aggressive_drain : Bool) where
  -- The branches for a `None`, with the session's state of each.
  unfoldable pub receive_disconnect : Action (Option Returned)
  receive_disconnect u = elim u.state [
    | Connection.syn_sent ↦
        if not u.had_traffic
        then (ok (some disconnected), u)
        else if u.is_refused
        then (ok (some disconnected), u)
        else (do connect net now false; pure (some disconnected))
            (record u { state = Connection.closed; had_traffic = false })
    | _ ↦ (ok (some disconnected), u)
  ]

  -- A control packet of an established session, once the ACKs are on: the bulk traffic goes on.
  unfoldable pub receive_control : Action (Option Returned)
  receive_control u =
      let (flushed, u') = queue_trigger aggressive_drain u in
      if flushed then (ok (some queue_flushed), u') else (ok none, u')

  -- A packet while the SYN is out.
  unfoldable pub receive_hello : Packet → Action (Option Returned)
  receive_hello p = do
    modify (λ u. record u { had_traffic = true })
    handshake net now false p
    λ u. (ok (if u.is_refused then some disconnected else none), u)

  -- A packet of an established session.
  unfoldable pub receive_established : Packet → Action (Option Returned)
  receive_established p u =
      if p.length == 12 then receive_control (start_acking u) else (ok (some (data_packet p)), u)

  -- The branches by the session's state; `none` is the next turn of the loop.
  unfoldable pub receive_by_state : Packet → Action (Option Returned)
  receive_by_state p u = elim u.state [
    | Connection.syn_sent ↦ receive_hello p u
    | Connection.established ↦ receive_established p u
    | _ ↦ (ok none, u)
  ]

  -- A packet of a session that acknowledges: the bulk traffic first, whose end puts it back.
  unfoldable pub receive_after_bulk : Packet → Action (Option Returned)
  receive_after_bulk p u =
      let (flushed, u') = queue_trigger aggressive_drain u in
      if flushed
      then (ok (some queue_flushed), record u' { stashed_packet = some p })
      else receive_by_state p u'

  -- A packet, which the sentinel of a new connection puts back.
  unfoldable pub receive_data : Packet → Action (Option Returned)
  receive_data p u =
      if u.mark_next_connected
      then (
        ok (some connection_ready),
        record u { mark_next_connected = false; stashed_packet = some p },
      )
      else if u.enable_ack
      then receive_after_bulk p u
      else receive_by_state p u

  -- One turn of the loop.
  unfoldable pub receive_item : Item → Action (Option Returned)
  receive_item Item.disconnected = receive_disconnect
  receive_item Item.wakeup = pure (some woken)
  receive_item (Item.packet p) = receive_data p

  -- A turn that returns nothing is followed by the next.
  abbrev pub go_on : Action (Option Returned) → Option Returned → Action (Option Returned)
  go_on next none = next
  go_on next (some r) = pure (some r)

  -- `receive_packet`, with the turns of its loop as fuel; `none` where it waits for an item.
  unfoldable pub receive_packet : ℕ → Action (Option Returned)
  receive_packet zero u = (ok none, u)
  receive_packet (suc turns) u =
      let (pulled, u') = next_item u in
      elim pulled [
        | none ↦ (ok none, u')
        | some item ↦ (do returned ← receive_item item; go_on (receive_packet turns) returned) u'
      ]
