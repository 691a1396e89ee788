-- ===== src/Transport/Retransmit/Timer.antt =====
-- The resend timer: while a session is up, no packet waits for its acknowledgement without it.
use mathlib.Core.Path.{subst}
use bmdwire.Prelude.{
  ℕ, ◌≡◌, sym, ◌∙◌, ap, true, false, not, ◌||◌, none, some, is_some, inl, inr, arith, Bool-cases,
  Option-cases,
}
use bmdwire.Transport.Packet.{Packet, to_bytes}
use bmdwire.Transport.Seq.{distance}
use bmdwire.Transport.Udp.{Udp, Connection, Answer, Result, ok, raised, is_momentary}
use bmdwire.Transport.Send.{
  is_sequenced, sendto, stamp, start_numbering, keep, sent, sent_or_raise, send_packet_low,
}
use bmdwire.Transport.Send.Numbering.{send_packet_low-eq}
use bmdwire.Transport.Retransmit.{outstanding, is_settled, on_ack}
use bmdwire.Transport.Retransmit.Window.{IsBuffered, send_packet_low-dropped}

-- If the peer has acknowledged up to a number, and sequenced packets after it are outstanding, a
-- resend is due at some time.
abbrev pub IsArmed : Udp → Type 0
IsArmed u =
    (number : ℕ)
    → u.acked_through ≡ some number
    → is_settled (outstanding u number) ≡ false
    → is_some u.resend_due ≡ true

-- A session that is up and has started its numbering.
pub record IsUp (u : Udp) : Type 0 where
  pub connected : u.state ≡ Connection.established
  pub numbered : is_some u.local_sequence_number ≡ true
  pub buffered : IsBuffered u
  pub armed : IsArmed u

pub on_ack-IsArmed : (now number : ℕ) (u : Udp) → IsArmed u → IsArmed (on_ack now number u)
unfolding on_ack
on_ack-IsArmed now number u armed m e open_ = ground (arith, armed m)

start_numbering-eq :
    (p : Packet) (u : Udp) → is_some u.local_sequence_number ≡ true → start_numbering p u ≡ u
unfolding start_numbering
start_numbering-eq p u h = ground arith

-- A sequenced packet that counts as sent arms the timer; any other leaves what it depends on.
due-sent :
    (now : ℕ) (q : Packet) (u : Udp)
    → is_sequenced q ≡ true
    → is_some (sent now q u).resend_due ≡ true
unfolding sent keep
due-sent now q u h = ground arith

same-sent :
    (now : ℕ) (q : Packet) (u : Udp)
    → is_sequenced q ≡ false
    → ((sent now q u).resend_due ≡ u.resend_due)
      × ((sent now q u).local_sequence_number ≡ u.local_sequence_number)
unfolding sent
same-sent now q u h = ground arith

kept-sent :
    (now : ℕ) (q : Packet) (u : Udp)
    → ((sent now q u).acked_through ≡ u.acked_through)
      × ((sent now q u).state ≡ u.state)
      × (is_some u.local_sequence_number ≡ true
          → is_some (sent now q u).local_sequence_number ≡ true)
unfolding sent keep
kept-sent now q u = (ground arith, ground arith, ground arith)

sent-IsArmed : (now : ℕ) (q : Packet) (u : Udp) → IsArmed u → IsArmed (sent now q u)
sent-IsArmed now q u armed m e open_ = elim (Bool-cases (is_sequenced q)) [
  | inl s ↦ due-sent now q u s
  | inr s ↦
      let (due, local) = same-sent now q u s in
      ap is_some due
      ∙ armed m (sym (kept-sent now q u).0 ∙ e) (
          ap (λ n. is_settled (distance (elim n [ none ↦ 32767 | some k ↦ k ]) m)) (sym local)
          ∙ open_)
]

-- The part of `IsUp` that is not `IsBuffered`.
abbrev pub IsRunning : Udp → Type 0
IsRunning u =
    (u.state ≡ Connection.established) × (is_some u.local_sequence_number ≡ true) × IsArmed u

sent_or_raise-IsRunning :
    (now : ℕ) (q : Packet) (result : Result ℕ) (u : Udp)
    → IsRunning u
    → IsRunning (sent_or_raise now q result u).1
unfolding sent_or_raise
sent_or_raise-IsRunning now q (ok n) u (up, numbered, armed) =
    let (acked, state, local) = kept-sent now q u in
    (state ∙ up, local numbered, sent-IsArmed now q u armed)
sent_or_raise-IsRunning now q (raised e) u (up, numbered, armed) =
    let (acked, state, local) = kept-sent now q u in
    elim (Bool-cases (not (is_sequenced q) || not (is_momentary e))) [
      | inl t ↦ rw t (up, numbered, armed)
      | inr t ↦ rw t (state ∙ up, local numbered, sent-IsArmed now q u armed)
    ]

pub send_packet_low-IsRunning :
    (net : ℕ → Answer) (now : ℕ) (p : Packet) (u : Udp)
    → IsRunning u
    → IsRunning (send_packet_low net now p u).1
send_packet_low-IsRunning net now p u r = elim (Option-cases (to_bytes (stamp u p))) [
  | inl e ↦ rw (send_packet_low-dropped net now u p e) (rw (start_numbering-eq p u r.1) r)
  | inr (raw, e) ↦
      let v = start_numbering p u in
      let (result, socket) = sendto net raw v.socket in
      rw (send_packet_low-eq net now u p raw e) (
        sent_or_raise-IsRunning now (stamp u p) result (record v { socket = socket })
          (subst (λ x. IsRunning (record x { socket = socket })) (sym (start_numbering-eq p u r.1))
            r))
]
