-- ===== src/Transport/Receive/Owed.antt =====
-- The acknowledgements that a drain of the socket owes.
use bmdwire.Prelude.{
  Option-cases, none, some, ap, if◌then◌else◌, ℕ, ◌≡◌, refl, ◌∙◌, true, false, List, ◌==◌, ==→eq,
  inl, inr, arith, Bool-cases,
}
use bmdwire.Transport.Packet.{Packet, new, to_bytes}
use bmdwire.Transport.Send.{stamp, sendto}
use bmdwire.Transport.Send.Numbering.{send_packet_low-eq}
use bmdwire.Transport.Retransmit.Window.{send_packet_low-dropped}
use bmdwire.Transport.Udp.{Udp, Answer, Result, Socket}
use bmdwire.Transport.Send.{
  start_numbering, keep, sent, sent_or_raise, send_packet_low, send_on_udp_thread, send_packet,
}
use bmdwire.Transport.Receive.{Read, flush_ack, drain_socket, drain_reads, drain_max, ack_packet}

abbrev SameOwing : Udp → Udp → Type 0
SameOwing u v = (v.acks_owed ≡ u.acks_owed) × (v.batching ≡ u.batching)

start_numbering-owes : (p : Packet) (u : Udp) → SameOwing u (start_numbering p u)
unfolding start_numbering
start_numbering-owes p u = (ground arith, ground arith)

sent-owes : (now : ℕ) (p : Packet) (u : Udp) → SameOwing u (sent now p u)
unfolding sent keep
sent-owes now p u = (ground arith, ground arith)

sent_or_raise-owes :
    (now : ℕ) (p : Packet) (r : Result ℕ) (u : Udp) → SameOwing u (sent_or_raise now p r u).1
unfolding sent_or_raise
sent_or_raise-owes now p r u =
    (ground (arith, sent-owes now p u), ground (arith, sent-owes now p u))

start_numbering-socket : (p : Packet) (u : Udp) → (start_numbering p u).socket ≡ u.socket
unfolding start_numbering
start_numbering-socket p u = ground arith

sent_or_raise-socket :
    (now : ℕ) (p : Packet) (r : Result ℕ) (u : Udp) → (sent_or_raise now p r u).1.socket ≡ u.socket
unfolding sent_or_raise sent keep
sent_or_raise-socket now p r u = ground arith

module _ (net : ℕ → Answer) (now : ℕ) where
  send_packet_low-owes : (p : Packet) (u : Udp) → SameOwing u (send_packet_low net now p u).1
  send_packet_low-owes p u = elim (Option-cases (to_bytes (stamp u p))) [
    | inl e ↦ rw (send_packet_low-dropped net now u p e) (start_numbering-owes p u)
    | inr (raw, e) ↦
        let (result, socket) = sendto net raw (start_numbering p u).socket in
        let v = record (start_numbering p u) { socket = socket } in
        let (owed, batching) = sent_or_raise-owes now (stamp u p) result v in
        let (owed', batching') = start_numbering-owes p u in
        rw (send_packet_low-eq net now u p raw e) (owed ∙ owed', batching ∙ batching')
  ]

  send_on_udp_thread-state :
      (p : Packet) (u : Udp) → (send_on_udp_thread net now p u).1 ≡ (send_packet_low net now p u).1
  unfolding send_on_udp_thread
  send_on_udp_thread-state p u = ground arith

  -- Counting the packet leaves the rest.
  send_packet-owes : (p : Packet) (u : Udp) → SameOwing u (send_packet net now true p u).1
  unfolding send_packet
  send_packet-owes p u =
      let (owed, batching) = send_packet_low-owes p u in
      let same = send_on_udp_thread-state p u in
      (ground (arith, owed, same), ground (arith, batching, same))

  flush_ack-owes :
      (u : Udp)
      → u.batching ≡ false
      → ((flush_ack net now u).1.acks_owed ≡ 0) × ((flush_ack net now u).1.batching ≡ false)
  unfolding flush_ack
  flush_ack-owes u b = elim (Bool-cases (u.acks_owed == 0)) [
    | inl e ↦ rw e (==→eq u.acks_owed 0 e, b)
    | inr e ↦
        let (owed, batching) =
          send_packet-owes (ack_packet u.acks.ack_number) (record u { acks_owed = 0 }) in
        rw e (owed, batching ∙ b)
  ]

-- The acknowledgement of all that was received without a gap.
abbrev pub owed_ack : Udp → Packet
owed_ack u = record new {
  flags = 16;
  acknowledgement_number = u.acks.ack_number;
  session = u.session_id;
  remote_sequence_number = 0x61;
}

stamp-ack : (u : Udp) → stamp u (ack_packet u.acks.ack_number) ≡ owed_ack u
unfolding stamp
stamp-ack u = refl

module _ (net : ℕ → Answer) where
  -- The socket after a packet is sent: untouched, where it does not serialise.
  unfoldable pub socket_after : Packet → Socket → Socket
  socket_after p s = elim (to_bytes p) [ none ↦ s | some raw ↦ (sendto net raw s).1 ]

  socket_after-none : (p : Packet) (s : Socket) → to_bytes p ≡ none → socket_after p s ≡ s
  unfolding socket_after
  socket_after-none p s e = rw (e, socket_after) refl

  socket_after-some :
      (p : Packet) (raw : List ℕ) (s : Socket)
      → to_bytes p ≡ some raw
      → socket_after p s ≡ (sendto net raw s).1
  unfolding socket_after
  socket_after-some p raw s e = rw (e, socket_after) refl

  module _ (now : ℕ) where
    send_packet_low-socket :
        (p : Packet) (u : Udp)
        → (send_packet_low net now p u).1.socket ≡ socket_after (stamp u p) u.socket
    send_packet_low-socket p u = elim (Option-cases (to_bytes (stamp u p))) [
      | inl e ↦
          rw (send_packet_low-dropped net now u p e, socket_after-none (stamp u p) u.socket e)
            (start_numbering-socket p u)
      | inr (raw, e) ↦
          let (result, socket) = sendto net raw (start_numbering p u).socket in
          rw (send_packet_low-eq net now u p raw e, socket_after-some (stamp u p) raw u.socket e)
            (sent_or_raise-socket now (stamp u p) result
                (record (start_numbering p u) { socket = socket })
              ∙ ap (λ s. (sendto net raw s).1) (start_numbering-socket p u))
    ]

    send_packet-socket :
        (p : Packet) (u : Udp)
        → (send_packet net now true p u).1.socket ≡ (send_on_udp_thread net now p u).1.socket
    unfolding send_packet
    send_packet-socket p u = ground arith

    flush_ack-socket :
        (u : Udp)
        → (flush_ack net now u).1.socket
          ≡ (if u.acks_owed == 0 then u.socket else socket_after (owed_ack u) u.socket)
    unfolding flush_ack
    flush_ack-socket u =
        let acked = record u { acks_owed = 0 } in
        let sent_ack = ack_packet u.acks.ack_number in
        elim (Bool-cases (u.acks_owed == 0)) [
          | inl e ↦ rw e refl
          | inr e ↦ rw e (
              send_packet-socket sent_ack acked
              ∙ ap (λ v. v.socket) (send_on_udp_thread-state net now sent_ack acked)
              ∙ send_packet_low-socket sent_ack acked
              ∙ ap (λ p. socket_after p u.socket) (stamp-ack acked))
        ]

    -- However the loop of a drain of the socket ends, with an exception or without, whatever was
    -- read: if no ACK is owed then, nothing more is sent; else one ACK is handed to `_sendto`, if it
    -- serialises, of this session and for the last number that was received without a gap. After it
    -- no ACK is owed, and the thread is not batching.
    pub drain_socket-acknowledges :
        (reads : List Read) (u : Udp)
        → let drained = (drain_reads net now drain_max reads (record u { batching = true })).1 in
          let u' = (drain_socket net now reads u).1 in
          (u'.socket ≡ (
            if drained.acks_owed == 0
            then drained.socket
            else socket_after (owed_ack drained) drained.socket))
          × (u'.acks_owed ≡ 0)
          × (u'.batching ≡ false)
    unfolding drain_socket
    drain_socket-acknowledges reads u =
        let drained = (drain_reads net now drain_max reads (record u { batching = true })).1 in
        let over = record drained { batching = false } in
        let (owes, batching) = flush_ack-owes net now over refl in
        (flush_ack-socket over, owes, batching)
