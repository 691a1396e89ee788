-- ===== src/Transport/Retransmit/Session.antt =====
-- The resend timer over a whole session of sends, acknowledgements and wakeups.
use mathlib.Core.Path.{subst₂}
use bmdwire.Prelude.{
  ℕ, ◌+◌, ◌%◌, ◌≡◌, refl, sym, ◌∙◌, ap, true, false, none, some, is_some, List, [], ◌∷◌, inl, inr,
  arith, Bool-cases, Option-cases, All,
}
use bmdwire.Transport.Packet.{Packet}
use bmdwire.Transport.Udp.{Udp, Connection, Answer, ok, bind-ok}
use bmdwire.Transport.Send.{send_packet_low}
use bmdwire.Transport.Retransmit.{
  outstanding, is_settled, on_ack, retransmit_from, resend_after_ack, is_waiting, resend_unacked,
}
use bmdwire.Transport.Retransmit.Window.{IsWindow, IsBuffered, IsFit, send_packet_low-IsBuffered}
use bmdwire.Transport.Retransmit.Volley.{retransmit_from-IsVolley}
use bmdwire.Transport.Retransmit.Timer.{IsUp, on_ack-IsArmed, send_packet_low-IsRunning}

-- What moves the timer, each at its time: a packet is sent, an acknowledgement arrives, or
-- `select` returns.
pub data Event : Type 0 where
  send : ℕ → Packet → Event
  acknowledged : ℕ → ℕ → Event
  tick : ℕ → Event

abbrev pub IsFitEvent : Event → Type 0
IsFitEvent (send now p) = IsFit p
IsFitEvent _ = Unit

on_ack-frame :
    (now number : ℕ) (u : Udp)
    → ((on_ack now number u).state ≡ u.state)
      × ((on_ack now number u).local_sequence_number ≡ u.local_sequence_number)
      × ((on_ack now number u).retransmission_buffer ≡ u.retransmission_buffer)
unfolding on_ack
on_ack-frame now number u = (ground arith, ground arith, ground arith)

module _ (net : ℕ → Answer) where
  pub happen : Event → Udp → Udp
  happen (send now p) u = (send_packet_low net now p u).1
  happen (acknowledged now number) u = on_ack now number u
  happen (tick now) u = (resend_unacked net now u).1

  pub happen_all : List Event → Udp → Udp
  happen_all [] u = u
  happen_all (e ∷ es) u = happen_all es (happen e u)

  resend_after_ack-IsUp :
      (now number : ℕ) (u : Udp)
      → u.state ≡ Connection.established
      → is_some u.local_sequence_number ≡ true
      → IsBuffered u
      → u.acked_through ≡ some number
      → IsUp (resend_after_ack net now number u).1
  unfolding resend_after_ack
  resend_after_ack-IsUp now number u up numbered w e =
      elim (Bool-cases (is_settled (outstanding u number))) [
        | inl s ↦ rw s (record {
          connected = up;
          numbered = numbered;
          buffered = w;
          armed = λ m f open_. cc (s, open_, ap (λ n. is_settled (outstanding u n)) (same m f));
        })
        | inr s ↦
            let v = retransmit_from-IsVolley net ((number + 1) % 32768) u w in
            rw s (
              rw (bind-ok (retransmit_from net ((number + 1) % 32768)) _ u v.returned) (record {
                connected = ap (λ x. x.state) v.frame ∙ up;
                numbered = ap is_some v.numbering ∙ numbered;
                buffered = record { in_space = v.window.in_space; entry = v.window.entry };
                armed = λ m f open_. refl;
              }))
      ]
    where
      same : (m : ℕ) → u.acked_through ≡ some m → m ≡ number
      same m f = cc (e, f)

  resend_unacked-idle :
      (now : ℕ) (u : Udp)
      → u.state ≡ Connection.established
      → u.acked_through ≡ none
      → is_waiting now u.resend_due ≡ false
      → resend_unacked net now u ≡ (ok tt, record u { resend_due = none })
  unfolding resend_unacked
  resend_unacked-idle now u up e due = ground arith

  resend_unacked-due :
      (now number : ℕ) (u : Udp)
      → u.state ≡ Connection.established
      → u.acked_through ≡ some number
      → is_waiting now u.resend_due ≡ false
      → resend_unacked net now u ≡ resend_after_ack net now number (record u { resend_due = none })
  unfolding resend_unacked
  resend_unacked-due now number u up e due = ground arith

  resend_unacked-IsUp : (now : ℕ) (u : Udp) → IsUp u → IsUp (resend_unacked net now u).1
  resend_unacked-IsUp now u up = elim (Bool-cases (is_waiting now u.resend_due)) [
    | inl wait ↦ unfold resend_unacked in rw wait up
    | inr due ↦ elim (Option-cases u.acked_through) [
      | inl e ↦ rw (resend_unacked-idle now u up.connected e due) (record {
        connected = up.connected;
        numbered = up.numbered;
        buffered = up.buffered;
        armed = λ m f open_. cc (e, f);
      })
      | inr (number, e) ↦ rw (resend_unacked-due now number u up.connected e due) (
          resend_after_ack-IsUp now number (record u { resend_due = none }) up.connected up.numbered
            up.buffered e)
    ]
  ]

  on_ack-IsUp : (now number : ℕ) (u : Udp) → IsUp u → IsUp (on_ack now number u)
  on_ack-IsUp now number u up =
      let (state, local, buffer) = on_ack-frame now number u in
      record {
        connected = state ∙ up.connected;
        numbered = ap is_some local ∙ up.numbered;
        buffered = subst₂ IsWindow (sym local) (sym buffer) up.buffered;
        armed = on_ack-IsArmed now number u up.armed;
      }

  -- From a session that is up, where the packets sent have flags below 32 and a body of which the
  -- datagram stays below 2048 bytes with its header of 12, whatever acknowledgements arrive and
  -- wakeups happen, and whatever the socket answers: if sequenced packets after the last acknowledged
  -- one are outstanding, within the retransmission window, a resend of them is due. The session
  -- stays up, and the buffer a window of packets fit to be resent.
  pub happen_all-IsUp :
      (es : List Event) (u : Udp) → All IsFitEvent es → IsUp u → IsUp (happen_all es u)
  unfolding happen_all happen
  happen_all-IsUp [] u fit up = up
  happen_all-IsUp (send now p ∷ es) u (fit, rest) up =
      let (connected, numbered, armed) =
        send_packet_low-IsRunning net now p u (up.connected, up.numbered, up.armed) in
      happen_all-IsUp es (send_packet_low net now p u).1 rest (record {
        connected = connected;
        numbered = numbered;
        buffered = send_packet_low-IsBuffered net now u p fit up.buffered;
        armed = armed;
      })
  happen_all-IsUp (acknowledged now number ∷ es) u (fit, rest) up =
      happen_all-IsUp es (on_ack now number u) rest (on_ack-IsUp now number u up)
  happen_all-IsUp (tick now ∷ es) u (fit, rest) up =
      happen_all-IsUp es (resend_unacked net now u).1 rest (resend_unacked-IsUp now u up)
