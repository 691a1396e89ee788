-- ===== src/Transport/Acknowledge/History.antt =====
-- The acknowledgement over a whole session.
use mathlib.Core.Path.{subst}
use bmdwire.Prelude.{
  ℕ, suc, ◌+◌, ◌-◌, ◌%◌, ◌<◌, ◌≤◌, ◌≡◌, refl, ◌∙◌, ap, true, false, List, [], ◌∷◌, ◌++◌, length,
  contains, remove, length-remove_le, Bool-cases, inl, inr, arith, ltb, ltb→lt, ◌||◌,
}
use bmdwire.Transport.Packet.{Packet}
use bmdwire.Transport.Seq.{next}
use bmdwire.Transport.Seen.{SeenWindow, append, drop_oldest, has}
use bmdwire.Transport.Acknowledge.{Acks, advance, update_ack_number, note}
use bmdwire.Transport.Acknowledge.Loop.{Run, advance_contiguous}

-- The packets of a session in the order in which they are first received.
pub note_all : Acks → List Packet → Acks
note_all a [] = a
note_all a (p ∷ ps) = note_all (note a p) ps

-- An established session, with a window that is smaller than the sequence space.
pub record IsRunning (a : Acks) : Type 0 where
  pub established : a.rx_established ≡ true
  pub in_space : a.ack_number < 32768
  pub bounded : length a.received_packets.seen ≤ a.received_packets.maxlen
  pub window_size : a.received_packets.maxlen < 32767

length-drop_oldest : (xs : List ℕ) → length (drop_oldest xs) ≡ length xs - 1
unfolding drop_oldest
length-drop_oldest [] = refl
length-drop_oldest (x ∷ []) = refl
length-drop_oldest (x ∷ y ∷ xs) = omega (arith, length-drop_oldest (y ∷ xs))

contains-drop_oldest :
    (xs : List ℕ) (k : ℕ) → contains (drop_oldest xs) k ≡ true → contains xs k ≡ true
unfolding drop_oldest contains
contains-drop_oldest [] k h = h
contains-drop_oldest (x ∷ []) k h = cc
contains-drop_oldest (x ∷ y ∷ xs) k h = ground (arith, contains-drop_oldest (y ∷ xs) k)

contains-remove : (j k : ℕ) (xs : List ℕ) → contains (remove j xs) k ≡ true → contains xs k ≡ true
unfolding remove contains
contains-remove j k [] h = h
contains-remove j k (x ∷ xs) h = ground (arith, contains-remove j k xs)

-- The window holds nothing but what was appended.
contains-append :
    (w : SeenWindow) (seq k : ℕ)
    → contains (append w seq).seen k ≡ true
    → contains (seq ∷ w.seen) k ≡ true
unfolding append contains
contains-append w seq k h =
    ground (arith, contains-drop_oldest (seq ∷ remove seq w.seen) k, contains-remove seq k w.seen)

maxlen-append : (w : SeenWindow) (seq : ℕ) → (append w seq).maxlen ≡ w.maxlen
unfolding append
maxlen-append w seq = refl

length-append_le :
    (w : SeenWindow) (seq : ℕ) → length w.seen ≤ w.maxlen → length (append w seq).seen ≤ w.maxlen
unfolding append
length-append_le w seq h =
    ground (arith, length-drop_oldest (seq ∷ remove seq w.seen), length-remove_le seq w.seen)

Run-append :
    (xs : List ℕ) (ack m n : ℕ) → Run xs ack m → Run xs ((ack + m) % 32768) n → Run xs ack (m + n)
Run-append xs ack m n first second i h = elim (Bool-cases (ltb i m)) [
  | inl e ↦ first i (ltb→lt i m e)
  | inr e ↦ ap (contains xs) (ground arith) ∙ second (i - m) (ground arith)
]

Run-mono :
    (xs ys : List ℕ) (ack n : ℕ)
    → ((k : ℕ) → contains xs k ≡ true → contains ys k ≡ true)
    → Run xs ack n
    → Run ys ack n
Run-mono xs ys ack n le run i h = le _ (run i h)

-- The acknowledgement goes from `ack` to `ack'` over numbers of the list only.
abbrev pub Covers : List ℕ → ℕ → ℕ → Type 0
Covers xs ack ack' = (count : ℕ) × (ack' ≡ (ack + count) % 32768) × Run xs ack count

Covers-mono :
    (xs ys : List ℕ) (ack ack' : ℕ)
    → ((k : ℕ) → contains xs k ≡ true → contains ys k ≡ true)
    → Covers xs ack ack'
    → Covers ys ack ack'
Covers-mono xs ys ack ack' le (n, e, run) = (n, e, Run-mono xs ys ack n le run)

Covers-trans : (xs : List ℕ) (a b c : ℕ) → Covers xs a b → Covers xs b c → Covers xs a c
Covers-trans xs a b c (m, e, first) (n, f, second) =
    (m + n, f ∙ omega (arith, e), Run-append xs a m n first (subst (λ k. Run xs k n) e second))

-- One packet of an established session: the acknowledgement goes over received numbers only.
note_step :
    (a : Acks) (p : Packet)
    → IsRunning a
    → IsRunning (note a p)
      × Covers (p.sequence_number ∷ a.received_packets.seen) a.ack_number (note a p).ack_number
unfolding note update_ack_number
note_step a p r = rw r.established (kept, (steps.0, steps.1, covered))
  where
    w : SeenWindow
    w = append a.received_packets p.sequence_number

    same : w.maxlen ≡ a.received_packets.maxlen
    same = maxlen-append a.received_packets p.sequence_number

    fits : length w.seen ≤ w.maxlen
    fits = omega (arith, length-append_le a.received_packets p.sequence_number r.bounded, same)

    steps :
        (count : ℕ) × (advance (suc (length w.seen)) w a.ack_number
          ≡ (a.ack_number + count) % 32768)
        × Run w.seen a.ack_number count
        × (has w (next (advance (suc (length w.seen)) w a.ack_number)) ≡ false)
    steps = advance_contiguous w a.ack_number r.in_space (omega (arith, r.window_size, fits, same))

    kept : IsRunning (record {
      ack_number = advance (suc (length w.seen)) w a.ack_number;
      rx_established = true;
      received_packets = w;
    })
    kept = record {
      established = refl;
      in_space = omega (arith, steps.1);
      bounded = fits;
      window_size = omega (arith, r.window_size, same);
    }

    covered : Run (p.sequence_number ∷ a.received_packets.seen) a.ack_number steps.0
    covered =
        Run-mono w.seen (p.sequence_number ∷ a.received_packets.seen) a.ack_number steps.0
          (contains-append a.received_packets p.sequence_number) steps.2

received-note :
    (a : Acks) (p : Packet)
    → (note a p).received_packets ≡ append a.received_packets p.sequence_number
unfolding note update_ack_number
received-note a p = ground arith

pub sequence_numbers : List Packet → List ℕ
sequence_numbers [] = []
sequence_numbers (p ∷ ps) = p.sequence_number ∷ sequence_numbers ps

contains-++ : (xs ys : List ℕ) (k : ℕ) → contains (xs ++ ys) k ≡ (contains xs k || contains ys k)
unfolding contains
contains-++ [] ys k = refl
contains-++ (x ∷ xs) ys k = ground (arith, contains-++ xs ys k)

module _ (a : Acks) (p : Packet) (ps : List Packet) where
  from_now :
      (k : ℕ)
      → contains (p.sequence_number ∷ a.received_packets.seen) k ≡ true
      → contains (sequence_numbers (p ∷ ps) ++ a.received_packets.seen) k ≡ true
  unfolding sequence_numbers contains
  from_now k h = ground (arith, contains-++ (sequence_numbers ps) a.received_packets.seen k)

  from_later :
      (k : ℕ)
      → contains (sequence_numbers ps ++ (note a p).received_packets.seen) k ≡ true
      → contains (sequence_numbers (p ∷ ps) ++ a.received_packets.seen) k ≡ true
  unfolding sequence_numbers contains
  from_later k h = ground (
    arith,
    received-note a p,
    contains-++ (sequence_numbers ps) a.received_packets.seen k,
    contains-++ (sequence_numbers ps) (note a p).received_packets.seen k,
    contains-append a.received_packets p.sequence_number k,
  )

-- Whatever packets arrive in an established session, in whatever order: the acknowledgement
-- number reached goes on from the one before over sequence numbers each of which was received,
-- among those packets or before them. So it is never ahead of a gap.
pub note_all-Covers_received :
    (a : Acks) (ps : List Packet)
    → IsRunning a
    → Covers
        (sequence_numbers ps ++ a.received_packets.seen)
        a.ack_number
        (note_all a ps).ack_number
unfolding note_all sequence_numbers
note_all-Covers_received a [] r = (0, omega (arith, r.in_space), λ i h. absurd (omega arith))
note_all-Covers_received a (p ∷ ps) r =
    let (running, covered) = note_step a p r in
    Covers-trans (sequence_numbers (p ∷ ps) ++ a.received_packets.seen) a.ack_number
      (note a p).ack_number (note_all (note a p) ps).ack_number
      (Covers-mono _ _ a.ack_number (note a p).ack_number (from_now a p ps) covered)
      (Covers-mono _ _ (note a p).ack_number (note_all (note a p) ps).ack_number (from_later a p ps)
        (note_all-Covers_received (note a p) ps running))
