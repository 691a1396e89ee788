-- ===== src/Transport/Receive/Robust.antt =====
-- No datagram stops the UDP thread while it drains the socket.
use mathlib.Core.Path.{subst₂}
use bmdwire.Prelude.{
  ℕ, ◌+◌, ◌≡◌, refl, sym, ◌∙◌, ap, true, not, ◌&&◌, ◌||◌, List, length, is_empty, inl, inr, arith,
  Bool-cases, Option-cases,
}
use bmdwire.Transport.Packet.{
  Packet, retransmission, request_retransmission, has_flag, bytes_of, from_bytes,
}
use bmdwire.Transport.Seen
use bmdwire.Transport.Acknowledge.{note}
use bmdwire.Transport.Udp.{Udp, Answer, Result, ok, Action, pure, ◌>>=◌, bind-ok}
use bmdwire.Transport.Retransmit.{on_ack}
use bmdwire.Transport.Retransmit.Window.{IsWindow, IsBuffered}
use bmdwire.Transport.Retransmit.Volley.{retransmit_from-IsVolley}
use bmdwire.Transport.Receive.{
  from_switcher, from_other, nothing, handled, is_stray, count_packet, hear, wants_ack, pass_gate,
  ack_owed, acknowledge_again, acknowledge_first, receive_again, receive_first, receive_noted,
  serve_request, receive, receive_packet_low,
}

-- While the socket is drained, and the buffer is a window of packets fit to be resent.
abbrev pub IsDraining : Udp → Type 0
IsDraining u = (u.batching ≡ true) × IsBuffered u

-- The parts of the state that this depends on are the same.
abbrev SameSending : Udp → Udp → Type 0
SameSending u v =
    (v.batching ≡ u.batching)
    × (v.local_sequence_number ≡ u.local_sequence_number)
    × (v.retransmission_buffer ≡ u.retransmission_buffer)

IsDraining-same : (u v : Udp) → SameSending u v → IsDraining u → IsDraining v
IsDraining-same u v (batching, local, buffer) (b, w) =
    (batching ∙ b, subst₂ IsWindow (sym local) (sym buffer) w)

count_packet-same : (now n : ℕ) (p : Packet) (u : Udp) → SameSending u (count_packet now n p u)
unfolding count_packet
count_packet-same now n p u = (ground arith, ground arith, ground arith)

hear-same : (now : ℕ) (p : Packet) (u : Udp) → SameSending u (hear now p u)
unfolding hear on_ack
hear-same now p u = (ground arith, ground arith, ground arith)

-- A step that returns a value, and leaves the thread draining.
abbrev pub IsFine {ℓ} : {A : Type ℓ} → Result A × Udp → Type ℓ
IsFine {A} r = ((a : A) × (r.0 ≡ ok a)) × IsDraining r.1

IsFine-bind {ℓ κ} :
    {A : Type ℓ} {B : Type κ} (m : Action A) (f : A → Action B) (u : Udp)
    → IsFine (m u)
    → ((a : A) (v : Udp) → IsDraining v → IsFine (f a v))
    → IsFine ((m >>= f) u)
IsFine-bind m f u ((a, e), d) rest = rw (bind-ok m f u e) (rest a (m u).1 d)

module _ (net : ℕ → Answer) (now : ℕ) where
  serve_request-IsFine : (p : Packet) (u : Udp) → IsDraining u → IsFine (serve_request net now p u)
  unfolding serve_request
  serve_request-IsFine p u (b, w) = elim (Bool-cases (has_flag p.flags request_retransmission)) [
    | inl e ↦
        let counted = record u { packet_errors = u.packet_errors + 1 } in
        let v = retransmit_from-IsVolley net p.retransmission_request counted w in
        rw e (
          rw (v.returned, serve_request) ((tt, refl), (ap (λ x. x.batching) v.frame ∙ b, v.window)))
    | inr e ↦ rw e ((tt, refl), (b, w))
  ]

  ack_owed-batching :
      (u : Udp)
      → u.batching ≡ true
      → ack_owed net now u ≡ (ok tt, record u { acks_owed = u.acks_owed + 1 })
  unfolding ack_owed
  ack_owed-batching u b = ground arith

  acknowledge_again-IsFine :
      (p : Packet) (u : Udp) → IsDraining u → IsFine (acknowledge_again net now p u)
  unfolding acknowledge_again
  acknowledge_again-IsFine p u (b, w) = elim (Bool-cases (wants_ack u p)) [
    | inl e ↦ rw e (rw (ack_owed-batching u b) ((tt, refl), (b, w)))
    | inr e ↦ rw e ((tt, refl), (b, w))
  ]

  acknowledge_first-IsFine :
      (p : Packet) (u : Udp) → IsDraining u → IsFine (acknowledge_first net now p u)
  unfolding acknowledge_first
  acknowledge_first-IsFine p u (b, w) =
      elim (Bool-cases (wants_ack u p || (not u.enable_ack && is_empty (bytes_of p.body)))) [
        | inl e ↦
            rw e (rw (ack_owed-batching (record u { enable_ack = true }) b) ((tt, refl), (b, w)))
        | inr e ↦ rw e ((tt, refl), (b, w))
      ]

  pass_gate-IsFine : (p : Packet) (u : Udp) → IsDraining u → IsFine (pass_gate p u)
  unfolding pass_gate
  pass_gate-IsFine p u d = ((_, refl), d)

  receive_noted-IsFine : (p : Packet) (u : Udp) → IsDraining u → IsFine (receive_noted net now p u)
  unfolding receive_noted receive_again receive_first
  receive_noted-IsFine p u d =
      elim (Bool-cases (
        has_flag p.flags retransmission
        && Seen.has u.acks.received_packets u.remote_sequence_number)) [
          | inl e ↦ rw e (
              IsFine-bind (acknowledge_again net now p) (λ _. pure handled) u
                (acknowledge_again-IsFine p u d) (λ a v d'. ((handled, refl), d')))
          | inr e ↦ rw e (
              IsFine-bind (acknowledge_first net now p) (λ _. pass_gate p)
                (record u { acks = note u.acks p })
                (acknowledge_first-IsFine p (record u { acks = note u.acks p }) d)
                (λ a v d'. pass_gate-IsFine p v d'))
        ]

  receive-IsFine : (n : ℕ) (p : Packet) (u : Udp) → IsDraining u → IsFine (receive net now n p u)
  unfolding receive
  receive-IsFine n p u d =
      let counted = count_packet now n p u in
      IsFine-bind (serve_request net now p) (λ _ v. receive_noted net now p (hear now p v)) counted
        (serve_request-IsFine p counted (IsDraining-same u counted (count_packet-same now n p u) d))
        (λ a v d'.
          receive_noted-IsFine p (hear now p v)
            (IsDraining-same v (hear now p v) (hear-same now p v) d'))

  -- While the UDP thread drains the socket, with a buffer of sent packets: whatever datagram it
  -- reads, from whomever, `_receive_packet_low` returns and raises nothing, whatever the socket
  -- answers to the resends; and the thread goes on draining with such a buffer.
  pub receive_packet_low-IsFine :
      (raw : List ℕ) (u : Udp)
      → IsDraining u
      → IsFine (receive_packet_low net now (from_switcher raw) u)
        × IsFine (receive_packet_low net now (from_other raw) u)
  unfolding receive_packet_low
  receive_packet_low-IsFine raw u d = (
    elim (Option-cases (from_bytes raw)) [
      | inl e ↦ rw (e, receive_packet_low) ((nothing, refl), d)
      | inr (p, e) ↦
          rw (e, receive_packet_low)
            (elim (Bool-cases (is_stray u p)) [
              | inl stray ↦ rw stray ((nothing, refl), d)
              | inr own ↦ rw own (receive-IsFine (length raw) p u d)
            ])
    ],
    ((nothing, refl), d),
  )
