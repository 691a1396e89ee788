-- ===== src/Transport/Delivery/Stream.antt =====
-- One packet of a numbered stream through the delivery gate.
use mathlib.Core.Path.{subst}
use bmdwire.Prelude.{ltb→lt, ltb-ge, ==-ne}
use bmdwire.Prelude.{
  ℕ, ◌+◌, ◌%◌, ◌<◌, ◌≤◌, ◌≡◌, refl, true, none, some, List, [], ◌∷◌, ◌++◌, insert, Bool-cases, inl,
  inr, ==→eq, ltb, ◌==◌, arith,
}
use bmdwire.Transport.Packet.{Packet, reliable, has_flag}
use bmdwire.Transport.Seq.{distance}
use bmdwire.Transport.Delivery.{Delivery, fill, gate_at, gate}
use bmdwire.Transport.Delivery.Drain.{segment}
use bmdwire.Transport.Delivery.Synced.{IsStream, Near, Synced, Stepped}
use bmdwire.Transport.Delivery.Step.{more, Synced-behind, Synced-ahead, Stepped-fill}

-- The gate on a reliable packet, once the cursor is set.
gate-some :
    (d : Delivery) (p : Packet) (cursor : ℕ)
    → has_flag p.flags reliable ≡ true
    → d.deliver_next ≡ some cursor
    → gate true d p ≡ gate_at cursor d p
unfolding gate
gate-some d p cursor h e = ground arith

gate_at-owed :
    (cursor : ℕ) (d : Delivery) (p : Packet)
    → distance p.sequence_number cursor ≡ 0
    → gate_at cursor d p ≡ fill d p
unfolding gate_at
gate_at-owed cursor d p e = rw e

gate_at-behind :
    (cursor : ℕ) (d : Delivery) (p : Packet)
    → 16384 < distance p.sequence_number cursor
    → gate_at cursor d p ≡ record { delivery = d; queued = []; returned = none }
unfolding gate_at
gate_at-behind cursor d p h = ground arith

gate_at-ahead :
    (cursor : ℕ) (d : Delivery) (p : Packet)
    → 0 < distance p.sequence_number cursor
    → distance p.sequence_number cursor ≤ 512
    → gate_at cursor d p ≡ record {
      delivery = record d { parked = insert p.sequence_number p d.parked };
      queued = [];
      returned = none;
    }
unfolding gate_at
gate_at-ahead cursor d p h k = ground arith

module _ (stream : ℕ → Packet) (first : ℕ) (arrived : List ℕ) (c i : ℕ) where
  Stepped-none :
      (d d' : Delivery)
      → Synced stream first (arrived ++ (i ∷ [])) c d'
      → Stepped stream first
          (arrived ++ (i ∷ []))
          c
          (record { delivery = d'; queued = []; returned = none })
  unfolding segment
  Stepped-none d d' s = record {
    count = 0;
    packets = refl;
    synced = subst (λ n. Synced stream first (arrived ++ (i ∷ [])) n d') (omega arith) s;
  }

  -- A packet of the stream that is near keeps the gate in step with it.
  pub Stepped-gate :
      (d : Delivery)
      → IsStream stream first
      → Synced stream first arrived c d
      → Near c i
      → Stepped stream first (arrived ++ (i ∷ [])) c (gate true d (stream i))
  unfolding more
  Stepped-gate d st s near =
      let number : (stream i).sequence_number ≡ (first + i) % 32768 = st.numbered i in
      let cursor = (first + c) % 32768 in
      rw (gate-some d (stream i) cursor (st.is_reliable i) s.cursor) (elim (Bool-cases (ltb i c)) [
        | inl b ↦
            let lt : i < c = ltb→lt i c b in
            rw (gate_at-behind cursor d (stream i) (omega (arith, number, near, lt)))
              (Stepped-none d d (Synced-behind stream first arrived c i d s lt))
        | inr b ↦ elim (Bool-cases (i == c)) [
          | inl e ↦
              rw (gate_at-owed cursor d (stream i) (omega (arith, number, ==→eq i c e)))
                (Stepped-fill stream first arrived c i d st s (==→eq i c e))
          | inr ne ↦
              let gt : c < i = omega (arith, ltb-ge i c b, ==-ne i c ne) in
              rw
                (gate_at-ahead cursor d (stream i) (omega (arith, number, near, gt))
                  (omega (arith, number, near, gt)))
                (Stepped-none d _ (Synced-ahead stream first arrived c i d st s gt near.0))
        ]
      ])
