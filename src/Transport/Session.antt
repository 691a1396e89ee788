-- ===== src/Transport/Session.antt =====
-- Opening and closing a session: `connect`, `_handshake`, `close_session` of `UdpProtocol`
-- (atemwire/transport.py). Starting the UDP thread is not modelled.
use bmdwire.Prelude.{
  ℕ, Bool, true, false, not, ◌||◌, Option, none, some, [], ◌∷◌, ◌==◌, if◌then◌else◌,
}
use bmdwire.Transport.Packet.{Packet, Label, new, bytes_of, syn, has_flag}
use bmdwire.Transport.Seen
use bmdwire.Transport.Udp.{
  Udp, Connection, Answer, ok, raised, already_open, index_error, Action, modify, ◌>>◌,
}
use bmdwire.Transport.Send.{send_packet, send_packet_low}

-- The session id of a SYN, before the switcher gives one.
abbrev pub syn_session : ℕ
syn_session = 0x1337

-- The session that a connect replaces: only an id that the switcher gave is remembered.
unfoldable pub replaced_session : Option ℕ → Option ℕ
replaced_session none = none
replaced_session (some id) = if id == syn_session then none else some id

-- `connect`, from its "Reset internal state" up to the SYN.
unfoldable pub reset : ℕ → Udp → Udp
unfolding replaced_session
reset now u = record u {
  local_sequence_number = none;
  remote_sequence_number = 0;
  acks = record {
    ack_number = 0;
    rx_established = false;
    received_packets = Seen.clear u.acks.received_packets;
  };
  delivery = record { deliver_next = none; parked = [] };
  stashed_packet = none;
  prev_session_id = replaced_session u.session_id;
  session_id = some syn_session;
  enable_ack = false;
  retransmission_buffer = [];
  acked_through = none;
  resend_due = none;
  had_traffic = false;
  is_refused = false;
  last_heard = now;
}

abbrev pub syn_packet : Packet
syn_packet = record new {
  flags = 2;
  body = some (0x01 ∷ 0x00 ∷ 0x00 ∷ 0x00 ∷ 0x00 ∷ 0x00 ∷ 0x00 ∷ 0x00 ∷ []);
}

abbrev pub goodbye_packet : Packet
goodbye_packet = record new {
  flags = 2;
  body = some (0x04 ∷ 0x00 ∷ 0x00 ∷ 0x00 ∷ 0x00 ∷ 0x00 ∷ 0x00 ∷ 0x00 ∷ []);
  label = Label.closing;
}

-- The third packet of the handshake.
abbrev pub handshake_ack : Packet
handshake_ack = record new { flags = 16; label = Label.handshake_reply }

module _ (net : ℕ → Answer) (now : ℕ) (on_udp_thread : Bool) where
  -- `connect`
  unfoldable pub connect : Action (Unit {0})
  unfolding reset
  connect u = elim u.state [
    | Connection.closed ↦
        (do
          modify (reset now)
          send_packet net now on_udp_thread syn_packet
          modify (λ v. record v { state = Connection.syn_sent }))
          u
    | _ ↦ (raised already_open, u)
  ]

  -- The part of `_handshake` after its two guards, by the response code.
  unfoldable pub answer_hello : ℕ → Action (Unit {0})
  answer_hello code u =
      if code == 0x03
      then (ok tt, record u { is_refused = true })
      else (let u' = if code == 0x02 then record u { state = Connection.established } else u in
          send_packet net now on_udp_thread handshake_ack u')

  -- `packet.session == self.session_id`
  abbrev pub is_session : Option ℕ → Option ℕ → Bool
  is_session none none = true
  is_session (some a) (some b) = a == b
  is_session _ _ = false

  -- `_handshake`; an empty body is an `IndexError`.
  unfoldable pub handshake : Packet → Action (Unit {0})
  unfolding answer_hello
  handshake p u =
      if not (has_flag p.flags syn) || not (is_session p.session u.session_id)
      then (ok tt, u)
      else elim (bytes_of p.body) [ [] ↦ (raised index_error, u) | code ∷ _ ↦ answer_hello code u ]

  -- `close_session`: one goodbye, and no exception leaves it.
  unfoldable pub close_session : Udp → Udp
  close_session u = elim u.state [
    | Connection.established ↦ record ((send_packet_low net now goodbye_packet u).1) {
      state = Connection.closed;
    }
    | _ ↦ u
  ]
