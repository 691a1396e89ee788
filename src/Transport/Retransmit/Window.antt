-- ===== src/Transport/Retransmit/Window.antt =====
-- The retransmission buffer is a window on the last packets sent: the invariant, and that the
-- send path and the resends keep it.
use mathlib.Core.Path.{subst₂}
use bmdwire.Prelude.{
  lookup-without-some, lookup-insert-some, ◌||◌, ℕ, ◌+◌, ◌-◌, ◌%◌, ◌<◌, ◌≡◌, refl, sym, ◌∙◌, ap,
  true, false, not, Option, none, some, is_some, List, length, lookup, without, insert, Bool-cases,
  inl, inr, arith, Option-cases,
}
use bmdwire.Transport.Packet.{Packet, ack, has_flag, bytes_of, to_bytes}
use bmdwire.Transport.Seq.{distance}
use bmdwire.Transport.Udp.{Udp, is_momentary, Answer, Result, ok, raised}
use bmdwire.Transport.Send.{
  is_sequenced, last_sent, sendto, stamp, start_numbering, sent, sent_or_raise, send_packet_low,
}
use bmdwire.Transport.Send.Numbering.{
  next_number, send_packet_low-eq, local-sent, buffer-sent, last_sent-start_numbering,
}
use bmdwire.Transport.Retransmit.{mark, mark_buffered}

-- What the buffer holds under `k`: a sequenced packet with that number, among the last 4096
-- numbers, that serialises when it is marked as a retransmission.
abbrev pub Entry : Option ℕ → ℕ → Packet → Type 0
Entry local k q =
    (is_some local ≡ true)
    × (k < 32768)
    × (q.sequence_number ≡ k)
    × (is_sequenced q ≡ true)
    × (distance (last_sent local) k < 4096)
    × (is_some (to_bytes (mark q)) ≡ true)

pub record IsWindow (local : Option ℕ) (buffer : List (ℕ × Packet)) : Type 0 where
  pub in_space : last_sent local < 32768
  pub entry : (k : ℕ) (q : Packet) → lookup k buffer ≡ some q → Entry local k q

abbrev pub IsBuffered : Udp → Type 0
IsBuffered u = IsWindow u.local_sequence_number u.retransmission_buffer

-- A packet whose flags are the five known ones and whose length fits 11 bits.
abbrev pub IsFit : Packet → Type 0
IsFit p = (p.flags < 32) × (length (bytes_of p.body) + 12 < 2048)

resendable :
    (p : Packet) (raw : List ℕ)
    → IsFit p
    → to_bytes p ≡ some raw
    → is_some (to_bytes (mark p)) ≡ true
unfolding to_bytes
resendable p raw fit h = ground arith

mark-mark : (p : Packet) → mark (mark p) ≡ mark p
mark-mark p = ground arith

is_sequenced-mark : (p : Packet) → is_sequenced (mark p) ≡ is_sequenced p
is_sequenced-mark p = ground arith

-- A packet of the buffer stays one when it is marked.
pub IsBuffered-mark_buffered :
    (seq : ℕ) (p : Packet) (u : Udp)
    → IsBuffered u
    → lookup seq u.retransmission_buffer ≡ some p
    → IsBuffered (mark_buffered seq p u)
unfolding mark_buffered
IsBuffered-mark_buffered seq p u w at = record {
  in_space = w.in_space;
  entry = λ k q found. elim (lookup-insert-some seq k (mark p) q u.retransmission_buffer found) [
    | inl (e, same) ↦
        let (sent, small, numbered, is, near, fits) = w.entry seq p at in
        (
          sent,
          omega (arith, e, small),
          ap (λ r. r.sequence_number) same ∙ (numbered ∙ sym e),
          ap is_sequenced same ∙ (is_sequenced-mark p ∙ is),
          omega (arith, e, near),
          ap (λ r. is_some (to_bytes (mark r))) same
              ∙ (ap (λ r. is_some (to_bytes r)) (mark-mark p) ∙ fits),
        )
    | inr (_, old) ↦ w.entry k q old
  ];
}

-- One more sequenced packet: it comes in, and the one that leaves the window goes.
IsWindow-keep :
    (local : Option ℕ) (buffer : List (ℕ × Packet)) (n : ℕ) (q : Packet)
    → IsWindow local buffer
    → n ≡ (last_sent local + 1) % 32768
    → q.sequence_number ≡ n
    → is_sequenced q ≡ true
    → is_some (to_bytes (mark q)) ≡ true
    → IsWindow (some n) (without ((n + 32768 - 4096) % 32768) (insert n q buffer))
IsWindow-keep local buffer n q w number at sequenced serialises = record {
  in_space = omega (arith, number);
  entry = λ k p found.
      let (kept, inserted) =
        lookup-without-some ((n + 32768 - 4096) % 32768) k (insert n q buffer) p found in
      elim (lookup-insert-some n k q p buffer inserted) [
        | inl (e, same) ↦ (
          refl,
          omega (arith, e, number),
          ap (λ r. r.sequence_number) same ∙ (at ∙ sym e),
          ap is_sequenced same ∙ sequenced,
          omega (arith, e, number),
          ap (λ r. is_some (to_bytes (mark r))) same ∙ serialises,
        )
        | inr (other, old) ↦
            let (_, small, numbered, is, near, fits) = w.entry k p old in
            (refl, small, numbered, is, omega (arith, number, other, near, kept, w.in_space), fits)
      ];
}

pub send_packet_low-dropped :
    (net : ℕ → Answer) (now : ℕ) (u : Udp) (p : Packet)
    → to_bytes (stamp u p) ≡ none
    → send_packet_low net now p u ≡ (ok tt, start_numbering p u)
unfolding send_packet_low
send_packet_low-dropped net now u p e = rw (e, send_packet_low)

IsWindow-start : (p : Packet) (u : Udp) → IsBuffered u → IsBuffered (start_numbering p u)
unfolding start_numbering
IsWindow-start p u w = elim (Bool-cases (has_flag p.flags ack)) [
  | inl e ↦ rw e w
  | inr e ↦ rw e (record {
    in_space = w.in_space;
    entry = λ k q found.
        let (_, small, numbered, is, near, fits) = w.entry k q found in
        (refl, small, numbered, is, near, fits);
  })
]

unsequenced-sent :
    (now : ℕ) (q : Packet) (v : Udp)
    → is_sequenced q ≡ false
    → ((sent now q v).local_sequence_number ≡ v.local_sequence_number)
      × ((sent now q v).retransmission_buffer ≡ v.retransmission_buffer)
unfolding sent
unsequenced-sent now q v h = ground arith

IsBuffered-sent :
    (now : ℕ) (q : Packet) (v : Udp)
    → IsBuffered v
    → (is_sequenced q ≡ true → q.sequence_number ≡ next_number v)
    → is_some (to_bytes (mark q)) ≡ true
    → IsBuffered (sent now q v)
IsBuffered-sent now q v w number serialises = elim (Bool-cases (is_sequenced q)) [
  | inl e ↦ subst₂ IsWindow (sym (local-sent now q v e)) (sym (buffer-sent now q v e)) (
      IsWindow-keep v.local_sequence_number v.retransmission_buffer (next_number v) q w refl
        (number e) e serialises)
  | inr e ↦
      let (local, buffer) = unsequenced-sent now q v e in subst₂ IsWindow (sym local) (sym buffer) w
]

IsBuffered-sent_or_raise :
    (now : ℕ) (q : Packet) (result : Result ℕ) (v : Udp)
    → IsBuffered v
    → (is_sequenced q ≡ true → q.sequence_number ≡ next_number v)
    → is_some (to_bytes (mark q)) ≡ true
    → IsBuffered (sent_or_raise now q result v).1
unfolding sent_or_raise
IsBuffered-sent_or_raise now q (ok n) v w number serialises =
    IsBuffered-sent now q v w number serialises
IsBuffered-sent_or_raise now q (raised e) v w number serialises =
    elim (Bool-cases (not (is_sequenced q) || not (is_momentary e))) [
      | inl t ↦ rw t w
      | inr t ↦ rw t (IsBuffered-sent now q v w number serialises)
    ]

stamp-number :
    (u : Udp) (p : Packet)
    → is_sequenced (stamp u p) ≡ true
    → (stamp u p).sequence_number ≡ next_number u
unfolding stamp
stamp-number u p h = ground arith

IsFit-stamp : (u : Udp) (p : Packet) → IsFit p → IsFit (stamp u p)
unfolding stamp
IsFit-stamp u p fit = ground arith

module _ (net : ℕ → Answer) where
  -- For a packet with flags below 32 and a body of which the datagram stays below 2048 bytes with
  -- its header of 12: `_send_packet_low` keeps a retransmission buffer that is a window on the last
  -- 4096 sequenced packets, each under its own number and fit to be resent, such a window, whatever
  -- the socket answers.
  pub send_packet_low-IsBuffered :
      (now : ℕ) (u : Udp) (p : Packet)
      → IsFit p
      → IsBuffered u
      → IsBuffered (send_packet_low net now p u).1
  send_packet_low-IsBuffered now u p fit w = elim (Option-cases (to_bytes (stamp u p))) [
    | inl e ↦ rw (send_packet_low-dropped net now u p e) (IsWindow-start p u w)
    | inr (raw, e) ↦
        let (result, socket) = sendto net raw (start_numbering p u).socket in
        rw (send_packet_low-eq net now u p raw e) (
          IsBuffered-sent_or_raise now (stamp u p) result
            (record (start_numbering p u) { socket = socket }) (IsWindow-start p u w)
            (λ s.
              stamp-number u p s ∙ ap (λ n. (n + 1) % 32768) (sym (last_sent-start_numbering p u)))
            (resendable (stamp u p) raw (IsFit-stamp u p fit) e))
  ]
