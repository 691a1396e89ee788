-- ===== src/Transport/Tests/Session.antt =====
-- The properties at concrete inputs: the send path, the resends and the receive path of
-- atemwire/transport.py.
use bmdwire.Prelude.{
  ℕ, ◌≡◌, ◌⊎◌, refl, true, false, List, [], ◌∷◌, arith, lookup, ◌==◌, if◌then◌else◌,
}
use bmdwire.Transport.Samples.{flaky, command, open_session}
use bmdwire.Transport.Packet.{to_bytes}
use bmdwire.Transport.Udp.{Udp}
use bmdwire.Transport.Send.{send_packet_low, stamp}
use bmdwire.Transport.Send.Numbering.{IsKept, IsUnsent, send_packet_low-IsKept_or_IsUnsent}
use bmdwire.Transport.Retransmit.{retransmit_from}
use bmdwire.Transport.Retransmit.Window.{IsBuffered, send_packet_low-IsBuffered}
use bmdwire.Transport.Retransmit.Volley.{IsVolley, retransmit_from-IsVolley}
use bmdwire.Transport.Retransmit.Timer.{IsUp}
use bmdwire.Transport.Retransmit.Session.{
  Event, send, acknowledged, tick, happen_all, happen_all-IsUp,
}
use bmdwire.Transport.Receive.{
  Read, from_switcher, from_other, receive_packet_low, drain_socket, drain_reads, drain_max,
}
use bmdwire.Transport.Receive.Robust.{IsFine, receive_packet_low-IsFine}
use bmdwire.Transport.Receive.Owed.{owed_ack, socket_after, drain_socket-acknowledges}

abbrev first_datagram : List ℕ
first_datagram = 8 ∷ 13 ∷ 128 ∷ 3 ∷ 0 ∷ 0 ∷ 0 ∷ 0 ∷ 0 ∷ 0 ∷ 127 ∷ 255 ∷ 9 ∷ []

send_packet_low-IsKept_or_IsUnsent_example :
    IsKept open_session (command 9) (send_packet_low flaky 5 (command 9) open_session)
    ⊎ IsUnsent open_session (send_packet_low flaky 5 (command 9) open_session)
unfolding stamp to_bytes
send_packet_low-IsKept_or_IsUnsent_example =
    send_packet_low-IsKept_or_IsUnsent flaky 5 open_session (command 9) first_datagram refl refl

open_session-IsBuffered : IsBuffered open_session
unfolding lookup
open_session-IsBuffered = record { in_space = omega arith; entry = λ k q found. cc }

-- One packet has been sent.
abbrev sent_one : Udp
sent_one = (send_packet_low flaky 5 (command 9) open_session).1

send_packet_low-IsBuffered_example : IsBuffered sent_one
send_packet_low-IsBuffered_example =
    send_packet_low-IsBuffered flaky 5 open_session (command 9) (omega arith, omega arith)
      open_session-IsBuffered

sent_one-IsBuffered : IsBuffered sent_one
sent_one-IsBuffered =
    send_packet_low-IsBuffered flaky 5 open_session (command 9) (omega arith, omega arith)
      open_session-IsBuffered

retransmit_from-IsVolley_example : IsVolley sent_one 128 0 (retransmit_from flaky 32700 sent_one)
retransmit_from-IsVolley_example = retransmit_from-IsVolley flaky 32700 sent_one sent_one-IsBuffered

abbrev course : List Event
course =
    send 5 (command 9)
    ∷ acknowledged 8 32766
    ∷ send 10 (command 10)
    ∷ tick 400
    ∷ acknowledged 500 0
    ∷ []

open_session-IsUp : IsUp open_session
open_session-IsUp = record {
  connected = refl;
  numbered = refl;
  buffered = open_session-IsBuffered;
  armed = λ number e open_. cc;
}

happen_all-IsUp_example : IsUp (happen_all flaky course open_session)
happen_all-IsUp_example =
    happen_all-IsUp flaky course open_session
      ((omega arith, omega arith), (tt, ((omega arith, omega arith), (tt, (tt, tt)))))
      open_session-IsUp

-- A request for retransmission from 32767, of this session.
abbrev request_datagram : List ℕ
request_datagram = 72 ∷ 12 ∷ 128 ∷ 3 ∷ 0 ∷ 0 ∷ 127 ∷ 255 ∷ 0 ∷ 0 ∷ 0 ∷ 5 ∷ []

abbrev draining : Udp
draining = record sent_one { batching = true }

receive_packet_low-IsFine_example :
    IsFine (receive_packet_low flaky 5 (from_switcher request_datagram) draining)
    × IsFine (receive_packet_low flaky 5 (from_other request_datagram) draining)
receive_packet_low-IsFine_example =
    receive_packet_low-IsFine flaky 5 request_datagram draining
      (refl, record { in_space = sent_one-IsBuffered.in_space; entry = sent_one-IsBuffered.entry })

-- The next packet of the switcher, which is reliable.
abbrev waiting : List Read
waiting = from_switcher (8 ∷ 13 ∷ 128 ∷ 3 ∷ 0 ∷ 0 ∷ 0 ∷ 0 ∷ 0 ∷ 0 ∷ 0 ∷ 5 ∷ 9 ∷ []) ∷ []

drain_socket-acknowledges_example :
    let drained =
      (drain_reads flaky 5 drain_max waiting (record open_session { batching = true })).1 in
    let u' = (drain_socket flaky 5 waiting open_session).1 in
    (u'.socket ≡ (
      if drained.acks_owed == 0
      then drained.socket
      else socket_after flaky (owed_ack drained) drained.socket))
    × (u'.acks_owed ≡ 0)
    × (u'.batching ≡ false)
drain_socket-acknowledges_example = drain_socket-acknowledges flaky 5 waiting open_session
