-- ===== src/Transport/Tests.antt =====
-- The properties at concrete inputs: the codec, the receive window, the acknowledgement, the gate
-- and the queues of atemwire/transport.py.
mod Session
use bmdwire.Prelude.{
  ℕ, suc, ◌+◌, ◌%◌, ◌<◌, ◌≤◌, ◌≡◌, refl, Bool, true, false, Option, none, some, List, [], ◌∷◌, ◌++◌,
  length, take, map, arith, inl, inr, ltb, if◌then◌else◌, contains,
}
use bmdwire.Transport.Samples.{flaky, command, open_session}
use bmdwire.Transport.Packet.{Packet, new, to_bytes, from_bytes}
use bmdwire.Transport.Packet.RoundTrip.{
  received, clear_request, from_bytes-to_bytes, to_bytes-from_bytes,
}
use bmdwire.Transport.Seq.{next}
use bmdwire.Transport.Seen.{SeenWindow, has}
use bmdwire.Transport.Seen.Laws.{window, distinct, window-eq-take-distinct}
use bmdwire.Transport.Acknowledge.{Acks, advance}
use bmdwire.Transport.Acknowledge.Loop.{Run, advance_contiguous}
use bmdwire.Transport.Acknowledge.History.{
  note_all, IsRunning, Covers, sequence_numbers, note_all-Covers_received,
}
use bmdwire.Transport.Delivery.Drain.{segment}
use bmdwire.Transport.Delivery.Synced.{IsStream}
use bmdwire.Transport.Delivery.Order.{deliver_all, first_missing, deliver_all-eq-stream}
use bmdwire.Transport.Udp.{Udp, Item}
use bmdwire.Transport.Queue.{queue_trigger, drain_queue}
use bmdwire.Transport.Queue.Order.{
  triggered, move_all, queue_trigger-moves_queue, drain_queue-flushes_once,
}
use bmdwire.Transport.Reader.{receive_packet}
use bmdwire.Transport.Reader.Kept.{pending}
use bmdwire.Transport.Reader.Stash.{Conserved, receive_packet-Conserved}
use bmdwire.Transport.Thread.{fire_wake}
use bmdwire.Transport.Thread.Wake.{wake_at_all, fire_wake-wake_at_all}

-- A reliable packet with three bytes of data, and its datagram.
abbrev sample : Packet
sample = record new {
  flags = 1;
  session = some 0x8001;
  sequence_number = 7;
  body = some (1 ∷ 2 ∷ 3 ∷ []);
}

abbrev datagram : List ℕ
datagram = 8 ∷ 15 ∷ 128 ∷ 1 ∷ 0 ∷ 0 ∷ 0 ∷ 0 ∷ 0 ∷ 0 ∷ 0 ∷ 7 ∷ 1 ∷ 2 ∷ 3 ∷ []

from_bytes-to_bytes_example : from_bytes datagram ≡ some (received sample)
unfolding to_bytes
from_bytes-to_bytes_example = from_bytes-to_bytes sample datagram refl (omega arith)

-- A request for retransmission from 300.
abbrev request : List ℕ
request = 72 ∷ 12 ∷ 128 ∷ 1 ∷ 0 ∷ 0 ∷ 1 ∷ 44 ∷ 0 ∷ 0 ∷ 0 ∷ 9 ∷ []

abbrev requesting : Packet
requesting = record new {
  flags = 9;
  length = 12;
  session = some 0x8001;
  sequence_number = 9;
  retransmission_request = 300;
  body = some [];
}

to_bytes-from_bytes_example :
    (to_bytes requesting ≡ some (clear_request request)) × (requesting.length ≡ length request)
unfolding from_bytes
to_bytes-from_bytes_example = to_bytes-from_bytes request requesting (ground arith) refl

window-eq-take-distinct_example :
    (window 2 (3 ∷ 1 ∷ 3 ∷ 2 ∷ [])).seen ≡ take 2 (distinct (3 ∷ 1 ∷ 3 ∷ 2 ∷ []))
window-eq-take-distinct_example = window-eq-take-distinct 2 (3 ∷ 1 ∷ 3 ∷ 2 ∷ [])

-- The window around the end of the sequence space, with a gap before 2.
abbrev gapped : SeenWindow
gapped = record { maxlen = 1024; seen = 2 ∷ 0 ∷ 32767 ∷ 32766 ∷ [] }

advance_contiguous_example :
    (count : ℕ) × (advance 5 gapped 32766 ≡ (32766 + count) % 32768)
    × Run gapped.seen 32766 count
    × (has gapped (next (advance 5 gapped 32766)) ≡ false)
advance_contiguous_example = advance_contiguous gapped 32766 (omega arith) (omega arith)

abbrev running : Acks
running = open_session.acks

abbrev arrivals : List Packet
arrivals =
    record new { flags = 1; sequence_number = 6 }
    ∷ record new { flags = 1; sequence_number = 5 }
    ∷ []

note_all-Covers_received_example :
    Covers (sequence_numbers arrivals ++ (4 ∷ 3 ∷ [])) 4 (note_all running arrivals).ack_number
note_all-Covers_received_example = note_all-Covers_received running arrivals (record {
  established = refl;
  in_space = omega arith;
  bounded = omega arith;
  window_size = omega arith;
})

-- A stream that goes past the end of the sequence space.
abbrev stream : ℕ → Packet
stream i = record new { flags = 1; sequence_number = (32766 + i) % 32768; body = some (i ∷ []) }

stream-IsStream : IsStream stream 32766
stream-IsStream = record { numbered = λ i. refl; is_reliable = λ i. refl }

-- The second packet is late, and comes twice.
deliver_all-eq-stream_example :
    deliver_all (record { deliver_next = none; parked = [] }) (map stream (0 ∷ 2 ∷ 3 ∷ 1 ∷ 1 ∷ []))
    ≡ segment stream 0 (first_missing (0 ∷ 2 ∷ 3 ∷ 1 ∷ 1 ∷ []))
unfolding first_missing contains
deliver_all-eq-stream_example =
    deliver_all-eq-stream stream 32766 stream-IsStream (2 ∷ 3 ∷ 1 ∷ 1 ∷ []) (
      (omega arith, omega arith),
      ((omega arith, omega arith), ((omega arith, omega arith), ((omega arith, omega arith), tt))),
    )

-- Seven packets wait to be sent.
abbrev loaded : Udp
loaded = record open_session {
  send_queue =
      command 0 ∷ command 1 ∷ command 2 ∷ command 3 ∷ command 4 ∷ command 5 ∷ command 6 ∷ [];
}

queue_trigger-moves_queue_example : queue_trigger true loaded ≡ triggered true loaded
queue_trigger-moves_queue_example = queue_trigger-moves_queue true loaded

drain_queue-flushes_once_example :
    (drain_queue loaded ≡ move_all (record loaded { queue_enabled = true }))
    × ((queue_trigger false (drain_queue loaded)).0 ≡ true)
    × ((queue_trigger false (queue_trigger false (drain_queue loaded)).1).0 ≡ false)
drain_queue-flushes_once_example = drain_queue-flushes_once false loaded refl

-- A stashed data packet, a control packet, a poke and one more data packet; the queue runs empty.
abbrev flushing : Udp
flushing = record open_session {
  queue_enabled = true;
  stashed_packet = some (record new { length = 12 });
  thread_recv_queue = Item.packet (record new { length = 20 }) ∷ Item.wakeup ∷ [];
}

receive_packet-Conserved_example :
    Conserved flaky 0 false (pending flushing) (receive_packet flaky 0 false 3 flushing)
receive_packet-Conserved_example =
    receive_packet-Conserved flaky 0 false 3 flushing refl (omega arith)

fire_wake-wake_at_all_example :
    ((fire_wake 40 (wake_at_all (50 ∷ 30 ∷ 60 ∷ []) open_session)).wake_due ≡ none)
    × ((fire_wake 40 (wake_at_all (50 ∷ 30 ∷ 60 ∷ []) open_session)).thread_recv_queue
        ≡ Item.wakeup ∷ [])
fire_wake-wake_at_all_example = fire_wake-wake_at_all 40 50 (30 ∷ 60 ∷ []) open_session refl
