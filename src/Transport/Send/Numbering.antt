-- ===== src/Transport/Send/Numbering.antt =====
-- Sequence numbers and the retransmission buffer along the send path.
use bmdwire.Prelude.{
  ℕ, ◌+◌, ◌-◌, ◌%◌, ◌<◌, ◌≡◌, ◌≢◌, refl, sym, ◌∙◌, ap, true, false, none, some, List, lookup,
  without, insert, lookup-without, lookup-insert_self, ne→==, Bool-cases, inl, inr, ◌⊎◌,
  if◌then◌else◌, arith,
}
use bmdwire.Transport.Packet.{Packet, to_bytes}
use bmdwire.Transport.Udp.{Udp, Failure, is_momentary, Answer, Result, ok, raised}
use bmdwire.Transport.Send.{
  is_sequenced, last_sent, sendto, stamp, start_numbering, keep, sent, sent_or_raise,
  send_packet_low,
}

-- The number that the next sequenced packet takes.
abbrev pub next_number : Udp → ℕ
next_number u = (last_sent u.local_sequence_number + 1) % 32768

-- A sequenced packet that is sent, or that the network refused for the moment: the number after
-- the last is the last now, and the packet is kept under it.
abbrev pub IsKept : Udp → Packet → Result (Unit {0}) × Udp → Type 0
IsKept u p (result, u') =
    (result ≡ ok tt)
    × (u'.local_sequence_number ≡ some (next_number u))
    × (lookup (next_number u) u'.retransmission_buffer ≡ some (stamp u p))

-- A send that the socket refused for good: the number is not used up, and the buffer is as it was.
abbrev pub IsUnsent : Udp → Result (Unit {0}) × Udp → Type 0
IsUnsent u (result, u') =
    ((e : Failure) × (result ≡ raised e) × (is_momentary e ≡ false))
    × (next_number u' ≡ next_number u)
    × (u'.retransmission_buffer ≡ u.retransmission_buffer)

pub send_packet_low-eq :
    (net : ℕ → Answer) (now : ℕ) (u : Udp) (p : Packet) (raw : List ℕ)
    → to_bytes (stamp u p) ≡ some raw
    → send_packet_low net now p u ≡ (
        let (result, socket) = sendto net raw (start_numbering p u).socket in
        sent_or_raise now (stamp u p) result (record (start_numbering p u) { socket = socket }))
unfolding send_packet_low
send_packet_low-eq net now u p raw h = rw (h, send_packet_low)

pub last_sent-start_numbering :
    (p : Packet) (u : Udp)
    → last_sent (start_numbering p u).local_sequence_number ≡ last_sent u.local_sequence_number
unfolding start_numbering
last_sent-start_numbering p u = ground arith

pub buffer-start_numbering :
    (p : Packet) (u : Udp) → (start_numbering p u).retransmission_buffer ≡ u.retransmission_buffer
unfolding start_numbering
buffer-start_numbering p u = ground arith

pub is_sequenced-stamp : (u : Udp) (p : Packet) → is_sequenced (stamp u p) ≡ is_sequenced p
unfolding stamp
is_sequenced-stamp u p = ground arith

-- The number is not the one that falls out of the window.
number-ne-dropped : (n : ℕ) → n < 32768 → (n + 32768 - 4096) % 32768 ≢ n
number-ne-dropped n h = omega arith

pub local-sent :
    (now : ℕ) (q : Packet) (v : Udp)
    → is_sequenced q ≡ true
    → (sent now q v).local_sequence_number ≡ some (next_number v)
unfolding sent keep
local-sent now q v h = ground arith

pub buffer-sent :
    (now : ℕ) (q : Packet) (v : Udp)
    → is_sequenced q ≡ true
    → (sent now q v).retransmission_buffer
      ≡ without
          ((next_number v + 32768 - 4096) % 32768)
          (insert (next_number v) q v.retransmission_buffer)
unfolding sent keep
buffer-sent now q v h = ground arith

-- What a sequenced packet that counts as sent has done.
IsKept-sent :
    (now : ℕ) (q : Packet) (v : Udp)
    → is_sequenced q ≡ true
    → ((sent now q v).local_sequence_number ≡ some (next_number v))
      × (lookup (next_number v) (sent now q v).retransmission_buffer ≡ some q)
IsKept-sent now q v h = (
  local-sent now q v h,
  ap (lookup (next_number v)) (buffer-sent now q v h)
      ∙ (lookup-without dropped (next_number v) (insert (next_number v) q v.retransmission_buffer)
          ∙ (ap
                (λ b.
                  if b
                  then none
                  else lookup (next_number v) (insert (next_number v) q v.retransmission_buffer))
                (ne→== dropped (next_number v) (number-ne-dropped (next_number v) (omega arith)))
              ∙ lookup-insert_self (next_number v) (next_number v) q v.retransmission_buffer refl)),
)
  where
    dropped : ℕ
    dropped = (next_number v + 32768 - 4096) % 32768

kept :
    (now : ℕ) (u : Udp) (p : Packet) (v : Udp)
    → last_sent v.local_sequence_number ≡ last_sent u.local_sequence_number
    → is_sequenced (stamp u p) ≡ true
    → IsKept u p (ok tt, sent now (stamp u p) v)
kept now u p v same numbered =
    let (local, found) = IsKept-sent now (stamp u p) v numbered in
    let number : next_number v ≡ next_number u = ap (λ n. (n + 1) % 32768) same in
    (
      refl,
      local ∙ ap some number,
      ap (λ n. lookup n (sent now (stamp u p) v).retransmission_buffer) (sym number) ∙ found,
    )

sent_or_raise-IsKept_or_IsUnsent :
    (now : ℕ) (u : Udp) (p : Packet) (result : Result ℕ) (v : Udp)
    → last_sent v.local_sequence_number ≡ last_sent u.local_sequence_number
    → v.retransmission_buffer ≡ u.retransmission_buffer
    → is_sequenced (stamp u p) ≡ true
    → IsKept u p (sent_or_raise now (stamp u p) result v)
      ⊎ IsUnsent u (sent_or_raise now (stamp u p) result v)
unfolding sent_or_raise
sent_or_raise-IsKept_or_IsUnsent now u p (ok n) v same buffer numbered =
    inl (kept now u p v same numbered)
sent_or_raise-IsKept_or_IsUnsent now u p (raised e) v same buffer numbered =
    elim (Bool-cases (is_momentary e)) [
      | inl t ↦ rw (numbered, t) (inl (kept now u p v same numbered))
      | inr t ↦ rw (numbered, t) (inr ((e, refl, t), ap (λ n. (n + 1) % 32768) same, buffer))
    ]

module _ (net : ℕ → Answer) (now : ℕ) (u : Udp) (p : Packet) (raw : List ℕ) where
  -- Whatever the socket answers, a sequenced packet that serialises takes the next number and is
  -- kept for retransmission under it, or the send raises an error that is not transient, and
  -- neither the numbering nor the buffer has changed: no number is used up by a packet that is
  -- not kept.
  pub send_packet_low-IsKept_or_IsUnsent :
      is_sequenced p ≡ true
      → to_bytes (stamp u p) ≡ some raw
      → IsKept u p (send_packet_low net now p u) ⊎ IsUnsent u (send_packet_low net now p u)
  send_packet_low-IsKept_or_IsUnsent sequenced serialises =
      let q = stamp u p in
      let numbered : is_sequenced q ≡ true = is_sequenced-stamp u p ∙ sequenced in
      let (result, socket) = sendto net raw (start_numbering p u).socket in
      let v = record (start_numbering p u) { socket = socket } in
      rw (send_packet_low-eq net now u p raw serialises) (
        sent_or_raise-IsKept_or_IsUnsent now u p result v (last_sent-start_numbering p u)
          (buffer-start_numbering p u) numbered)
