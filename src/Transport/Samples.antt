-- ===== src/Transport/Samples.antt =====
-- A protocol with an open session, and a network, to evaluate the definitions on
-- (atemwire/transport.py).
use bmdwire.Prelude.{ℕ, zero, suc, true, false, none, some, [], ◌∷◌}
use bmdwire.Transport.Packet.{Packet, new}
use bmdwire.Transport.Udp.{Udp, Connection, Errno, Answer}

-- A socket whose buffer is full for the first call, and that has no route for the third.
abbrev pub flaky : ℕ → Answer
flaky zero = Answer.refused Errno.no_buffers
flaky (suc (suc zero)) = Answer.refused Errno.host_unreachable
flaky _ = Answer.accepted 20

-- A reliable packet of the protocol.
abbrev pub command : ℕ → Packet
command n = record new { flags = 1; body = some (n ∷ []) }

-- An open session in which nothing has been sent yet.
abbrev pub open_session : Udp
open_session = record {
  local_sequence_number = some 32766;
  retransmission_buffer = [];
  acked_through = none;
  resend_due = none;
  state = Connection.established;
  session_id = some 0x8003;
  prev_session_id = some 0x8002;
  enable_ack = true;
  had_traffic = true;
  is_refused = false;
  remote_sequence_number = 4;
  acks = record {
    ack_number = 4;
    rx_established = true;
    received_packets = record { maxlen = 1024; seen = 4 ∷ 3 ∷ [] };
  };
  delivery = record { deliver_next = some 5; parked = [] };
  batching = false;
  acks_owed = 0;
  mark_next_connected = false;
  stashed_packet = none;
  send_queue = [];
  queue_enabled = false;
  thread_queue = [];
  thread_recv_queue = [];
  wake_due = none;
  last_heard = 1000;
  last_rx_monotonic = 1000;
  packet_success = 0;
  packet_errors = 0;
  retrans_burst = 0;
  retrans_last_log = 0;
  rx_packet_count = 0;
  tx_packet_count = 0;
  socket = record { send_calls = 0; wire = [] };
}
