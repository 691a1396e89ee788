-- ===== src/Transport/Receive.antt =====
-- The receive path on the UDP thread (atemwire/transport.py): `_receive_packet_low`, `_ack_owed`,
-- `_flush_ack`, `_drain_socket`.
pub mod Robust
pub mod Owed
use bmdwire.Prelude.{
  ℕ, zero, suc, ◌+◌, ◌-◌, Bool, true, false, not, ◌&&◌, ◌||◌, Option, none, some, List, [], ◌∷◌,
  ◌++◌, map, length, is_empty, ltb, leb, ◌==◌, if◌then◌else◌,
}
use bmdwire.Transport.Packet.{
  Packet, new, reliable, syn, retransmission, request_retransmission, ack, has_flag, bytes_of,
  from_bytes,
}
use bmdwire.Transport.Seen
use bmdwire.Transport.Acknowledge.{note}
use bmdwire.Transport.Delivery.{Gated, gate}
use bmdwire.Transport.Udp.{
  Udp, Connection, Errno, Failure, os_error, Item, Answer, Result, ok, raised, Action, pure, modify,
  ◌>>=◌, ◌>>◌,
}
use bmdwire.Transport.Send.{send_packet}
use bmdwire.Transport.Retransmit.{retransmit_from, on_ack}
use bmdwire.Transport.Session.{syn_session, connect}

-- What `sock.recvfrom` gives: a timeout, another `OSError`, a datagram of the switcher, or one of
-- another host.
pub data Read : Type 0 where
  timed_out : Read
  failed : Errno → Read
  from_switcher : List ℕ → Read
  from_other : List ℕ → Read

-- What `_receive_packet_low` returns: `None`, `True` or a packet.
pub data Low : Type 0 where
  nothing : Low
  handled : Low
  packet : Packet → Low

-- `DRAIN_MAX` and `ACK_EVERY`
abbrev pub drain_max : ℕ
drain_max = 512

abbrev pub ack_every : ℕ
ack_every = 32

-- `BlockingIOError` and `InterruptedError`
abbrev pub would_block : Failure → Bool
would_block (os_error Errno.try_again) = true
would_block (os_error Errno.interrupted) = true
would_block _ = false

abbrev pub has_session : Packet → ℕ → Bool
has_session p id = elim p.session [ none ↦ false | some s ↦ s == id ]

abbrev pub is_connection : Connection → Connection → Bool
is_connection Connection.established Connection.established = true
is_connection Connection.syn_sent Connection.syn_sent = true
is_connection Connection.syn_received Connection.syn_received = true
is_connection Connection.closed Connection.closed = true
is_connection _ _ = false

-- A packet of the session that this one replaced, or, while the SYN is out, anything but its reply.
unfoldable pub is_stray : Udp → Packet → Bool
is_stray u p =
    elim u.prev_session_id [ none ↦ false | some id ↦ has_session p id ]
    || (is_connection u.state Connection.syn_sent
        && not (has_flag p.flags syn && has_session p syn_session))

-- The counters, and the rate-limited summary of retransmitted packets.
unfoldable pub count_packet : ℕ → ℕ → Packet → Udp → Udp
count_packet now datagram_length p u =
    if has_flag p.flags retransmission
    then (let quiet = ltb now (u.retrans_last_log + 5000) in
        record u {
          packet_errors = if ltb 12 datagram_length then u.packet_errors + 1 else u.packet_errors;
          retrans_burst = if quiet then u.retrans_burst + 1 else 0;
          retrans_last_log = if quiet then u.retrans_last_log else now;
        })
    else record u { packet_success = u.packet_success + 1 }

-- From `remote_sequence_number = ...` up to `_on_ack`.
unfoldable pub hear : ℕ → Packet → Udp → Udp
hear now p u =
    let heard = record u {
      remote_sequence_number = p.sequence_number;
      session_id = elim u.session_id [ none ↦ p.session | some id ↦ some id ];
      last_rx_monotonic = now;
      last_heard = now;
      rx_packet_count = u.rx_packet_count + 1;
    } in
    if has_flag p.flags ack then on_ack now p.acknowledgement_number heard else heard

-- A reliable packet of a session that acknowledges.
unfoldable pub wants_ack : Udp → Packet → Bool
wants_ack u p =
    has_flag p.flags reliable && (u.enable_ack || is_connection u.state Connection.established)

abbrev pub ack_packet : ℕ → Packet
ack_packet number = record new {
  flags = 16;
  acknowledgement_number = number;
  remote_sequence_number = 0x61;
}

-- The in-order gate, at the end of `_receive_packet_low`.
unfoldable pub pass_gate : Packet → Action Low
pass_gate p u =
    let g = gate u.acks.rx_established u.delivery p in
    (
      ok (elim g.returned [ none ↦ handled | some q ↦ packet q ]),
      record u {
        delivery = g.delivery;
        thread_recv_queue = u.thread_recv_queue ++ map Item.packet g.queued;
      },
    )

module _ (net : ℕ → Answer) (now : ℕ) where
  -- `_flush_ack`
  unfoldable pub flush_ack : Action (Unit {0})
  flush_ack u =
      if u.acks_owed == 0
      then (ok tt, u)
      else send_packet net now true (ack_packet u.acks.ack_number) (record u { acks_owed = 0 })

  -- `_ack_owed`
  unfoldable pub ack_owed : Action (Unit {0})
  ack_owed u =
      let u' = record u { acks_owed = u.acks_owed + 1 } in
      if u.batching then (ok tt, u') else flush_ack u'

  -- The ACK for a resend of a packet in the window, if it is owed one.
  unfoldable pub acknowledge_again : Packet → Action (Unit {0})
  acknowledge_again p u = if wants_ack u p then ack_owed u else (ok tt, u)

  -- A resend of a packet in the window: it is acknowledged again, and goes no further.
  unfoldable pub receive_again : Packet → Action Low
  receive_again p = do acknowledge_again p; pure handled

  -- The ACK for a reliable packet of a session, or for the first control packet.
  unfoldable pub acknowledge_first : Packet → Action (Unit {0})
  acknowledge_first p u =
      if wants_ack u p || (not u.enable_ack && is_empty (bytes_of p.body))
      then ack_owed (record u { enable_ack = true })
      else (ok tt, u)

  -- A packet that is not a resend of one in the window.
  unfoldable pub receive_first : Packet → Action Low
  receive_first p = do
    modify (λ u. record u { acks = note u.acks p })
    acknowledge_first p
    pass_gate p

  -- A request for retransmission, if the packet is one.
  unfoldable pub serve_request : Packet → Action (Unit {0})
  serve_request p u =
      if has_flag p.flags request_retransmission
      then (let (result, u') =
            retransmit_from net p.retransmission_request
              (record u { packet_errors = u.packet_errors + 1 }) in
          (elim result [ ok _ ↦ ok tt | raised e ↦ raised e ], u'))
      else (ok tt, u)

  -- From `is_retransmissions = ...` on.
  unfoldable pub receive_noted : Packet → Action Low
  receive_noted p u =
      if has_flag p.flags retransmission
        && Seen.has u.acks.received_packets u.remote_sequence_number
      then receive_again p u
      else receive_first p u

  -- A packet that is no stray, of a datagram of the given length.
  unfoldable pub receive : ℕ → Packet → Action Low
  receive datagram_length p = do
    modify (count_packet now datagram_length p)
    serve_request p
    modify (hear now p)
    receive_noted p

  -- `_receive_packet_low`, for one answer of `recvfrom`
  unfoldable pub receive_packet_low : Read → Action Low
  receive_packet_low timed_out u =
      (do modify (λ v. record v { state = Connection.closed }); connect net now true; pure nothing)
        u
  receive_packet_low (failed e) u = (raised (os_error e), u)
  receive_packet_low (from_other raw) u = (ok nothing, u)
  receive_packet_low (from_switcher raw) u = elim (from_bytes raw) [
    | none ↦ (ok nothing, u)
    | some p ↦ if is_stray u p then (ok nothing, u) else receive (length raw) p u
  ]

  -- `if packet is not None and packet is not True: put(packet)`
  abbrev pub put : Low → Udp → Udp
  put (packet p) u = record u { thread_recv_queue = u.thread_recv_queue ++ (Item.packet p ∷ []) }
  put _ u = u

  -- `if self._acks_owed >= ACK_EVERY: self._flush_ack()`
  unfoldable pub flush_if_due : Action (Unit {0})
  flush_if_due u = if leb ack_every u.acks_owed then flush_ack u else (ok tt, u)

  -- `except (BlockingIOError, InterruptedError): break` around `_receive_packet_low`
  abbrev pub or_break : Action Low → (Low → Action (Unit {0})) → Action (Unit {0})
  or_break m f u = elim (m u).0 [
    | ok low ↦ f low (m u).1
    | raised e ↦ (if would_block e then ok tt else raised e, (m u).1)
  ]

  -- The loop of `_drain_socket` over the datagrams waiting; it ends at the first read that would
  -- block, or after so many.
  unfoldable pub drain_reads : ℕ → List Read → Action (Unit {0})
  drain_reads zero reads = pure tt
  drain_reads (suc count) [] = pure tt
  drain_reads (suc count) (r ∷ reads) =
      or_break (receive_packet_low r)
        (λ low. do modify (put low); flush_if_due; drain_reads count reads)

  -- `_drain_socket`; an exception of its `finally` part replaces that of the loop.
  unfoldable pub drain_socket : List Read → Action (Unit {0})
  drain_socket reads u =
      let (result, drained) = drain_reads drain_max reads (record u { batching = true }) in
      let (flushed, u') = flush_ack (record drained { batching = false }) in
      (elim flushed [ ok _ ↦ result | raised e ↦ raised e ], u')
