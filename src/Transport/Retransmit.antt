-- ===== src/Transport/Retransmit.antt =====
-- Resending in `UdpProtocol` (atemwire/transport.py): `_retransmit_from`, and the resend timer of
-- `_on_ack` and `_resend_unacked`.
pub mod Window
pub mod Volley
pub mod Timer
pub mod Session
use bmdwire.Prelude.{
  ℕ, zero, suc, ◌+◌, ◌%◌, Bool, true, false, ◌||◌, not, Option, none, some, List, min, lookup,
  insert, ltb, leb, ◌==◌, if◌then◌else◌,
}
use bmdwire.Transport.Packet.{Packet, retransmission, set_flag, to_bytes}
use bmdwire.Transport.Seq.{distance}
use bmdwire.Transport.Udp.{
  Udp, Connection, Answer, Result, ok, raised, struct_error, Action, pure, ◌>>=◌, ◌>>◌, modify,
}
use bmdwire.Transport.Send.{sendto, retransmit_window, resend_after}

-- `RETRANSMIT_MAX_BURST`
abbrev pub max_burst : ℕ
max_burst = 128

-- `local_sequence_number` under `& 0x7FFF`: -1 is 0x7FFF.
abbrev pub latest : Udp → ℕ
latest u = elim u.local_sequence_number [ none ↦ 32767 | some n ↦ n ]

-- `pkt.flags |= FLAG_RETRANSMISSION`, of the object in the buffer.
abbrev pub mark : Packet → Packet
mark p = record p { flags = set_flag p.flags retransmission }

unfoldable pub mark_buffered : ℕ → Packet → Udp → Udp
mark_buffered seq p u = record u {
  retransmission_buffer = insert seq (mark p) u.retransmission_buffer;
}

module _ (net : ℕ → Answer) where
  -- The loop of `_retransmit_from`: so many more offsets from `offset` on, `resent` so far.
  unfoldable pub resend_range : ℕ → ℕ → ℕ → ℕ → Action ℕ
  unfolding mark_buffered
  resend_range zero request offset resent u = (ok resent, u)
  resend_range (suc count) request offset resent u =
      let seq = (request + offset) % 32768 in
      let skip = resend_range count request (offset + 1) resent u in
      elim (lookup seq u.retransmission_buffer) [
        | none ↦ skip
        | some p ↦
            let u' = mark_buffered seq p u in
            elim (to_bytes (mark p)) [
              | none ↦ (raised struct_error, u')
              | some raw ↦
                  let (result, socket) = sendto net raw u'.socket in
                  let next =
                    resend_range count request (offset + 1) (resent + 1)
                      (record u' { socket = socket; tx_packet_count = u.tx_packet_count + 1 }) in
                  elim result [
                    | ok _ ↦ next
                    | raised _ ↦ (ok resent, record u' { socket = socket })
                  ]
            ]
      ]

  -- `_retransmit_from`; returns the number of packets resent.
  unfoldable pub retransmit_from : ℕ → Action ℕ
  retransmit_from request u =
      let span = distance (latest u) request in
      if leb retransmit_window span
      then (ok 0, u)
      else resend_range (min (span + 1) max_burst) request 0 0 u

-- The sequenced packets after `number`, up to the last sent.
abbrev pub outstanding : Udp → ℕ → ℕ
outstanding u number = distance (latest u) number

-- `outstanding == 0 or outstanding >= RETRANSMIT_WINDOW`
abbrev pub is_settled : ℕ → Bool
is_settled count = count == 0 || leb retransmit_window count

-- `_on_ack`
unfoldable pub on_ack : ℕ → ℕ → Udp → Udp
on_ack now number u =
    if elim u.acked_through [ none ↦ false | some n ↦ n == number ] then u else record u {
      acked_through = some number;
      resend_due = if is_settled (outstanding u number) then none else some (now + resend_after);
    }

-- `_resend_due is None or time.monotonic() < _resend_due`
unfoldable pub is_waiting : ℕ → Option ℕ → Bool
is_waiting now none = true
is_waiting now (some due) = ltb now due

module _ (net : ℕ → Answer) (now : ℕ) where
  -- `_resend_unacked`, after its tests: resend from the first unacknowledged, and again later.
  unfoldable pub resend_after_ack : ℕ → Action (Unit {0})
  resend_after_ack number u =
      if is_settled (outstanding u number)
      then (ok tt, u)
      else (do
        retransmit_from net ((number + 1) % 32768)
        modify (λ v. record v { resend_due = some (now + resend_after) }))
          u

  -- `_resend_unacked`
  unfoldable pub resend_unacked : Action (Unit {0})
  resend_unacked u =
      if is_waiting now u.resend_due
      then (ok tt, u)
      else (let u' = record u { resend_due = none } in
          elim u.state [
            | Connection.established ↦ elim u.acked_through [
              | none ↦ (ok tt, u')
              | some number ↦ resend_after_ack number u'
            ]
            | _ ↦ (ok tt, u')
          ])
