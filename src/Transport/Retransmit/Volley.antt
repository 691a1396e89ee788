-- ===== src/Transport/Retransmit/Volley.antt =====
-- One `_retransmit_from`: it returns, is short, and leaves the numbering and the window alone.
use bmdwire.Prelude.{
  ℕ, zero, suc, ◌+◌, ◌%◌, ◌≤◌, ◌≡◌, refl, none, some, List, [], ◌∷◌, length, length-append, lookup,
  Bool-cases, inl, inr, leb, min, arith, Option-cases,
}
use bmdwire.Transport.Packet.{Packet, to_bytes}
use bmdwire.Transport.Seq.{distance}
use bmdwire.Transport.Udp.{Udp, Socket, Answer, Result, ok, raised}
use bmdwire.Transport.Send.{sendto, sendto_retrying, retransmit_window}
use bmdwire.Transport.Retransmit.{
  mark, mark_buffered, resend_range, retransmit_from, latest, max_burst,
}
use bmdwire.Transport.Retransmit.Window.{IsBuffered, IsBuffered-mark_buffered}

-- One `_sendto` puts at most one datagram on the wire, however often it tries.
sendto_retrying-wire :
    (net : ℕ → Answer) (retries : ℕ) (raw : List ℕ) (s : Socket)
    → length (sendto_retrying net retries raw s).1.wire ≤ length s.wire + 1
unfolding sendto_retrying
sendto_retrying-wire net zero raw s = ground (arith, length-append s.wire (raw ∷ []))
sendto_retrying-wire net (suc retries) raw s = ground (
  arith,
  length-append s.wire (raw ∷ []),
  sendto_retrying-wire net retries raw (record s { send_calls = s.send_calls + 1 }),
)

sendto-wire :
    (net : ℕ → Answer) (raw : List ℕ) (s : Socket)
    → length (sendto net raw s).1.wire ≤ length s.wire + 1
unfolding sendto
sendto-wire net raw s = sendto_retrying-wire net 19 raw s

-- What at most `count` resends have done to `u`, with `resent` before them.
pub record IsVolley (u : Udp) (count resent : ℕ) (result : Result ℕ × Udp) : Type 0 where
  pub total : ℕ
  pub returned : result.0 ≡ ok total
  pub no_more : total ≤ resent + count
  pub short : length result.1.socket.wire ≤ length u.socket.wire + count
  pub numbering : result.1.local_sequence_number ≡ u.local_sequence_number
  pub frame : result.1 ≡ record u {
    retransmission_buffer = result.1.retransmission_buffer;
    tx_packet_count = result.1.tx_packet_count;
    socket = result.1.socket;
  }
  pub window : IsBuffered result.1

IsVolley-marked :
    (seq : ℕ) (p : Packet) (u : Udp) (count resent : ℕ) (result : Result ℕ × Udp)
    → IsVolley (mark_buffered seq p u) count resent result
    → IsVolley u count resent result
unfolding mark_buffered
IsVolley-marked seq p u count resent result v = record {
  total = v.total;
  returned = v.returned;
  no_more = v.no_more;
  short = v.short;
  numbering = v.numbering;
  frame = v.frame;
  window = v.window;
}

module _ (net : ℕ → Answer) where
  resend_range-none :
      (count request offset resent : ℕ) (u : Udp)
      → lookup ((request + offset) % 32768) u.retransmission_buffer ≡ none
      → resend_range net (suc count) request offset resent u
        ≡ resend_range net count request (offset + 1) resent u
  unfolding resend_range
  resend_range-none count request offset resent u e = rw (e, resend_range)

  -- After a resend that the socket took, or that broke off the loop.
  abbrev after : ℕ → ℕ → ℕ → ℕ → Udp → Result ℕ × Socket → Result ℕ × Udp
  after count request offset resent u (result, socket) = elim result [
    | ok _ ↦
        resend_range net count request (offset + 1) (resent + 1)
          (record u { socket = socket; tx_packet_count = u.tx_packet_count + 1 })
    | raised _ ↦ (ok resent, record u { socket = socket })
  ]

  resend_range-some :
      (count request offset resent : ℕ) (u : Udp) (p : Packet) (raw : List ℕ)
      → lookup ((request + offset) % 32768) u.retransmission_buffer ≡ some p
      → to_bytes (mark p) ≡ some raw
      → let u' = mark_buffered ((request + offset) % 32768) p u in
        resend_range net (suc count) request offset resent u
        ≡ after count request offset resent u' (sendto net raw u'.socket)
  unfolding resend_range
  resend_range-some count request offset resent u p raw e f = rw (e, resend_range) (rw f)

  IsVolley-after :
      (count request offset resent : ℕ) (u : Udp) (raw : List ℕ) (result : Result ℕ)
      (socket : Socket)
      → IsBuffered u
      → length socket.wire ≤ length u.socket.wire + 1
      → ((v : Udp)
          → IsBuffered v
          → IsVolley v count
              (resent + 1)
              (resend_range net count request (offset + 1) (resent + 1) v))
      → IsVolley u (suc count) resent (after count request offset resent u (result, socket))
  IsVolley-after count request offset resent u raw (ok n) socket w short rest =
      let next =
        rest (record u { socket = socket; tx_packet_count = u.tx_packet_count + 1 })
          (record { in_space = w.in_space; entry = w.entry }) in
      record {
        total = next.total;
        returned = next.returned;
        no_more = omega (arith, next.no_more);
        short = omega (arith, next.short, short);
        numbering = next.numbering;
        frame = next.frame;
        window = next.window;
      }
  IsVolley-after count request offset resent u raw (raised e) socket w short rest = record {
    total = resent;
    returned = refl;
    no_more = omega arith;
    short = omega (arith, short);
    numbering = refl;
    frame = refl;
    window = record { in_space = w.in_space; entry = w.entry };
  }

  IsVolley-resend_range :
      (count request offset resent : ℕ) (u : Udp)
      → IsBuffered u
      → IsVolley u count resent (resend_range net count request offset resent u)
  IsVolley-resend_range zero request offset resent u w =
      unfold resend_range in
      record {
        total = resent;
        returned = refl;
        no_more = omega arith;
        short = omega arith;
        numbering = refl;
        frame = refl;
        window = w;
      }
  IsVolley-resend_range (suc count) request offset resent u w =
      let seq = (request + offset) % 32768 in
      elim (Option-cases (lookup seq u.retransmission_buffer)) [
        | inl e ↦
            let v = IsVolley-resend_range count request (offset + 1) resent u w in
            rw (resend_range-none count request offset resent u e) (record {
              total = v.total;
              returned = v.returned;
              no_more = omega (arith, v.no_more);
              short = omega (arith, v.short);
              numbering = v.numbering;
              frame = v.frame;
              window = v.window;
            })
        | inr (p, e) ↦ elim (Option-cases (to_bytes (mark p))) [
          | inl none_e ↦ absurd (unserialisable seq p u w e none_e)
          | inr (raw, f) ↦
              let u' = mark_buffered seq p u in
              let (result, socket) = sendto net raw u'.socket in
              rw (resend_range-some count request offset resent u p raw e f) (
                IsVolley-marked seq p u (suc count) resent _ (
                  IsVolley-after count request offset resent u' raw result socket
                    (IsBuffered-mark_buffered seq p u w e) (sendto-wire net raw u'.socket)
                    (λ v. IsVolley-resend_range count request (offset + 1) (resent + 1) v)))
        ]
      ]
    where
      unserialisable :
          (seq : ℕ) (p : Packet) (u : Udp)
          → IsBuffered u
          → lookup seq u.retransmission_buffer ≡ some p
          → to_bytes (mark p) ≡ none
          → ⊥
      unserialisable seq p u w e f = cc (w.entry seq p e).5

  -- Any request of the peer: if the buffer is a window of sent packets, `_retransmit_from` returns
  -- without an exception and with at most 128 packets resent, puts at most 128 datagrams on
  -- the wire, takes no new sequence number and leaves the buffer such a window, whatever the
  -- socket answers.
  pub retransmit_from-IsVolley :
      (request : ℕ) (u : Udp) → IsBuffered u → IsVolley u 128 0 (retransmit_from net request u)
  unfolding retransmit_from
  retransmit_from-IsVolley request u w =
      elim (Bool-cases (leb retransmit_window (distance (latest u) request))) [
        | inl e ↦ rw e (record {
          total = 0;
          returned = refl;
          no_more = omega arith;
          short = omega arith;
          numbering = refl;
          frame = refl;
          window = w;
        })
        | inr e ↦
            let span = distance (latest u) request in
            let v = IsVolley-resend_range (min (span + 1) max_burst) request 0 0 u w in
            rw e (record {
              total = v.total;
              returned = v.returned;
              no_more = omega (arith, v.no_more);
              short = omega (arith, v.short);
              numbering = v.numbering;
              frame = v.frame;
              window = v.window;
            })
      ]
