-- ===== src/Transport/Send.antt =====
-- The send path of `UdpProtocol` (atemwire/transport.py): `_sendto`, `_send_packet_low`,
-- `_send_on_udp_thread`, `_send_packet`. Logging and tracing leave the state alone.
pub mod Numbering
use bmdwire.Prelude.{
  ℕ, zero, suc, ◌+◌, ◌-◌, ◌%◌, Bool, true, false, ◌&&◌, ◌||◌, not, Option, none, some, List, [],
  ◌∷◌, ◌++◌, without, insert, if◌then◌else◌,
}
use bmdwire.Transport.Packet.{Packet, Label, syn, ack, has_flag, to_bytes}
use bmdwire.Transport.Udp.{
  Udp, Socket, Errno, is_momentary, os_error, is_retried, Answer, Result, ok, raised, Action, pure,
  modify, ◌>>=◌, ◌>>◌,
}

-- `RETRANSMIT_WINDOW` and `RESEND_AFTER` (in milliseconds).
abbrev pub retransmit_window : ℕ
retransmit_window = 4096

abbrev pub resend_after : ℕ
resend_after = 250

-- `not packet.flags & (FLAG_SYN | FLAG_ACK)`: the packet takes a sequence number and is resent.
abbrev pub is_sequenced : Packet → Bool
is_sequenced p = not (has_flag p.flags syn) && not (has_flag p.flags ack)

-- `local_sequence_number`, with -1 read as 0.
abbrev pub last_sent : Option ℕ → ℕ
last_sent none = 0
last_sent (some n) = n

-- `time.monotonic()` is read once for a call, as `now`, in milliseconds.
module _ (net : ℕ → Answer) where
  -- The loop of `_sendto`, with so many retries left after this attempt.
  unfoldable pub sendto_retrying : ℕ → List ℕ → Socket → Result ℕ × Socket
  sendto_retrying zero raw s =
      let tried = record s { send_calls = s.send_calls + 1 } in
      elim (net s.send_calls) [
        | Answer.accepted n ↦ (ok n, record tried { wire = s.wire ++ (raw ∷ []) })
        | Answer.refused e ↦ (raised (os_error e), tried)
      ]
  sendto_retrying (suc retries) raw s =
      let tried = record s { send_calls = s.send_calls + 1 } in
      let again = sendto_retrying retries raw tried in
      elim (net s.send_calls) [
        | Answer.accepted n ↦ (ok n, record tried { wire = s.wire ++ (raw ∷ []) })
        | Answer.refused e ↦ if is_retried e then again else (raised (os_error e), tried)
      ]

  -- `_sendto`: SEND_RETRIES is 20 attempts.
  unfoldable pub sendto : List ℕ → Socket → Result ℕ × Socket
  sendto raw = sendto_retrying 19 raw

-- The packet as `_send_packet_low` fills it in.
unfoldable pub stamp : Udp → Packet → Packet
stamp u p = if has_flag p.flags ack then record p { session = u.session_id } else record p {
  session = u.session_id;
  sequence_number = (last_sent u.local_sequence_number + 1) % 32768;
}

-- -1 becomes 0 before the first packet that is no ACK.
unfoldable pub start_numbering : Packet → Udp → Udp
start_numbering p u =
    if has_flag p.flags ack
    then u
    else record u { local_sequence_number = some (last_sent u.local_sequence_number) }

-- A sequence-consuming packet takes its number, and is kept for retransmission.
unfoldable pub keep : ℕ → Packet → Udp → Udp
keep now p u =
    let number = (last_sent u.local_sequence_number + 1) % 32768 in
    record u {
      local_sequence_number = some number;
      retransmission_buffer =
          without ((number + 32768 - retransmit_window) % 32768)
            (insert number p u.retransmission_buffer);
      resend_due = elim u.resend_due [ none ↦ some (now + resend_after) | some due ↦ some due ];
    }

-- The part of `_send_packet_low` after the datagram is out, or kept for a resend.
unfoldable pub sent : ℕ → Packet → Udp → Udp
sent now p u =
    let u' = record u { tx_packet_count = u.tx_packet_count + 1 } in
    let u'' = if is_sequenced p then keep now p u' else u' in
    elim p.label [ Label.handshake_reply ↦ record u'' { session_id = none } | _ ↦ u'' ]

-- An `OSError` of `_sendto` is raised on, but a reliable packet that the network refused for the
-- moment counts as sent.
unfoldable pub sent_or_raise : ℕ → Packet → Result ℕ → Action (Unit {0})
sent_or_raise now p (ok n) u = (ok tt, sent now p u)
sent_or_raise now p (raised e) u =
    if not (is_sequenced p) || not (is_momentary e) then (raised e, u) else (ok tt, sent now p u)

-- `self.thread_queue.put(packet)`, from another thread.
abbrev pub enqueue : Packet → Action (Unit {0})
enqueue p = modify (λ u. record u { thread_queue = u.thread_queue ++ (some p ∷ []) })

module _ (net : ℕ → Answer) (now : ℕ) where
  -- `_send_packet_low`. A packet that does not serialise is dropped.
  unfoldable pub send_packet_low : Packet → Action (Unit {0})
  send_packet_low p u =
      let q = stamp u p in
      let u' = start_numbering p u in
      elim (to_bytes q) [
        | none ↦ (ok tt, u')
        | some raw ↦
            let (result, socket) = sendto net raw u'.socket in
            sent_or_raise now q result (record u' { socket = socket })
      ]

  -- `_send_on_udp_thread`: a transient error drops the packet.
  unfoldable pub send_on_udp_thread : Packet → Action (Unit {0})
  send_on_udp_thread p u =
      let (result, u') = send_packet_low p u in
      elim result [
        | ok _ ↦ (ok tt, u')
        | raised e ↦ if is_momentary e then (ok tt, u') else (raised e, u')
      ]

  -- `_send_packet`; `on_udp_thread` is `current_thread() is self.thread`.
  unfoldable pub send_packet : Bool → Packet → Action (Unit {0})
  send_packet on_udp_thread p = do
    (if on_udp_thread then send_on_udp_thread p else enqueue p)
    modify (λ u. record u { packet_success = u.packet_success + 1 })

-- `_send_packet` from another thread than the UDP thread, as a function of the state.
unfoldable pub post : Packet → Udp → Udp
post p u = record u {
  thread_queue = u.thread_queue ++ (some p ∷ []);
  packet_success = u.packet_success + 1;
}
