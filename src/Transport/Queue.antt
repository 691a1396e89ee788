-- ===== src/Transport/Queue.antt =====
-- The paced send queue of `BaseProtocol` and `UdpProtocol` (atemwire/transport.py): `queue_packet`,
-- `queue_trigger`, `drain_queue`. They run on the protocol's thread; their sleeps, and the calls of
-- `queue_callback` (which belongs to the protocol), leave this state alone.
pub mod Order
use bmdwire.Prelude.{
  ℕ, zero, suc, ◌+◌, Bool, true, false, List, [], ◌∷◌, ◌++◌, length, is_empty, ltb, ◌==◌,
  if◌then◌else◌,
}
use bmdwire.Transport.Packet.{Packet}
use bmdwire.Transport.Udp.{Udp}
use bmdwire.Transport.Send.{post}

-- The `maxlen` of `send_queue`.
abbrev pub queue_max : ℕ
queue_max = 1024

-- `deque.append` of a bounded deque: the oldest entry gives way.
unfoldable pub append_bounded : ℕ → List Packet → Packet → List Packet
append_bounded maxlen queue p =
    if length queue == maxlen
    then elim queue [ [] ↦ [] | oldest ∷ rest ↦ rest ++ (p ∷ []) ]
    else queue ++ (p ∷ [])

-- `queue_packet`
unfoldable pub queue_packet : Packet → Udp → Udp
unfolding append_bounded
queue_packet p u = record u { send_queue = append_bounded queue_max u.send_queue p }

-- `_send_packet` of the first `count` packets of the queue, or of all if there are fewer.
unfoldable pub send_first : ℕ → Udp → Udp
send_first zero u = u
send_first (suc count) u = elim u.send_queue [
  | [] ↦ u
  | p ∷ rest ↦ send_first count (post p (record u { send_queue = rest }))
]

-- `queue_trigger` once the queue is empty.
unfoldable pub report_flushed : Udp → Bool × Udp
report_flushed u =
    if u.queue_enabled then (true, record u { queue_enabled = false }) else (false, u)

-- `BaseProtocol.queue_trigger`
unfoldable pub trigger_paced : ℕ → Udp → Bool × Udp
unfolding send_first report_flushed
trigger_paced batch_size u =
    if is_empty u.send_queue
    then report_flushed u
    else (false, send_first batch_size (record u { queue_enabled = true }))

-- The loop of the aggressive drain: batches until the queue is empty; the length of the queue is
-- fuel enough.
unfoldable pub send_batches : ℕ → ℕ → Udp → Udp
send_batches zero batch_size u = u
send_batches (suc fuel) batch_size u = elim u.send_queue [
  | [] ↦ u
  | p ∷ rest ↦ send_batches fuel batch_size (send_first batch_size u)
]

-- `UdpProtocol.queue_trigger`, with its `aggressive_drain` and `batch_size`.
unfoldable pub queue_trigger : Bool → Udp → Bool × Udp
unfolding trigger_paced send_batches
queue_trigger aggressive_drain u =
    if aggressive_drain
    then (if is_empty u.send_queue
        then report_flushed u
        else (false, send_batches (length u.send_queue) 10 (record u { queue_enabled = true })))
    else trigger_paced 5 u

-- `drain_queue`
unfoldable pub drain_queue : Udp → Udp
unfolding send_first
drain_queue u =
    if is_empty u.send_queue
    then u
    else send_first (length u.send_queue) (record u { queue_enabled = true })
