-- ===== src/Transport/Delivery/Step.antt =====
-- What each branch of the delivery gate does to a gate in step (atemwire/transport.py).
use mathlib.Core.Path.{ap₂, subst, subst₂}
use mathlib.Core.List.{append-nil}
use bmdwire.Prelude.{◌-◌, ltb→lt, ltb-ge, lookup-insert_self, lookup-insert_ne, ==-ne}
use bmdwire.Prelude.{
  ℕ, suc, ◌+◌, ◌%◌, ◌<◌, ◌≤◌, ◌≡◌, ◌≢◌, refl, sym, ◌∙◌, ap, true, false, some, List, [], ◌∷◌, ◌++◌,
  length, lookup, insert, Bool-cases, inl, inr, ◌⊎◌, ==→eq, contains, ltb, ◌==◌, if◌then◌else◌,
  arith,
}
use bmdwire.Transport.Packet.{Packet}
use bmdwire.Transport.Seq.{next, distance}
use bmdwire.Transport.Delivery.{Delivery, Gated, drain, fill, delivered}
use bmdwire.Transport.Delivery.Drain.{segment, Holds, Drained, Drained-drain}
use bmdwire.Transport.Delivery.Synced.{IsStream, Synced, Stepped}

fill_lem :
    (d : Delivery) (p : Packet)
    → (delivered (fill d p) ≡ p ∷ (drain (length d.parked) (next p.sequence_number) d.parked).0)
      × ((fill d p).delivery.deliver_next
          ≡ some (drain (length d.parked) (next p.sequence_number) d.parked).1)
      × ((fill d p).delivery.parked ≡ (drain (length d.parked) (next p.sequence_number) d.parked).2)
unfolding fill
fill_lem d p = go d.parked
  where
    go :
        (parked : List (ℕ × Packet))
        → let d' : Delivery = record { deliver_next = d.deliver_next; parked = parked } in
          (delivered (fill d' p) ≡ p ∷ (drain (length parked) (next p.sequence_number) parked).0)
          × ((fill d' p).delivery.deliver_next
              ≡ some (drain (length parked) (next p.sequence_number) parked).1)
          × ((fill d' p).delivery.parked
              ≡ (drain (length parked) (next p.sequence_number) parked).2)
    go [] = (refl, refl, refl)
    go (x ∷ parked) = (append-nil _, refl, refl)

-- `arrived` with one more arrival.
contains-snoc :
    (xs : List ℕ) (i j : ℕ) → contains (xs ++ (i ∷ [])) j ≡ (if i == j then true else contains xs j)
unfolding contains
contains-snoc [] i j = ground arith
contains-snoc (x ∷ xs) i j = ground (arith, contains-snoc xs i j)

module _ (stream : ℕ → Packet) (first : ℕ) (arrived : List ℕ) (c i : ℕ) where
  unfoldable pub more : List ℕ
  more = arrived ++ (i ∷ [])

  contains-more : (j : ℕ) → contains arrived j ≡ true → contains more j ≡ true
  unfolding more
  contains-more j h = ground (arith, contains-snoc arrived i j)

  contains-more_self : contains more i ≡ true
  unfolding more
  contains-more_self = ground (arith, contains-snoc arrived i i)

  arrival : (j : ℕ) → contains more j ≡ true → (j ≡ i) ⊎ (contains arrived j ≡ true)
  unfolding more
  arrival j h = ground (arith, contains-snoc arrived i j)

  Holds-more :
      (parked : List (ℕ × Packet))
      → Holds stream first arrived 1 c parked
      → Holds stream first more 1 c parked
  Holds-more parked h = record {
    entry = λ k p at.
        let (small, low, near, is, here) = h.entry k p at in
        (small, low, near, is, contains-more _ here);
  }

  Holds-below :
      (parked : List (ℕ × Packet))
      → Holds stream first more 1 c parked
      → Holds stream first more 0 (c + 1) parked
  Holds-below parked h = record {
    entry = λ k p at.
        let (small, low, near, is, here) = h.entry k p at in
        let shift : c + 1 + distance k (first + (c + 1)) ≡ c + distance k (first + c) =
          omega (arith, low) in
        (
          small,
          omega arith,
          omega (arith, low, near),
          is ∙ ap stream (sym shift),
          ap (contains more) shift ∙ here,
        );
  }

  -- A packet behind the cursor changes nothing: its index is among those delivered.
  pub Synced-behind :
      (d : Delivery) → Synced stream first arrived c d → i < c → Synced stream first more c d
  Synced-behind d s behind = record {
    cursor = s.cursor;
    holds = Holds-more d.parked s.holds;
    complete = λ j h. elim (arrival j h) [
      | inl e ↦ inl (omega (arith, behind))
      | inr old ↦ s.complete j old
    ];
    below = λ j lt. contains-more j (s.below j lt);
  }

  -- A packet ahead of a gap is parked.
  pub Synced-ahead :
      (d : Delivery)
      → IsStream stream first
      → Synced stream first arrived c d
      → c < i
      → i ≤ c + 512
      → Synced stream first more c
          (record d { parked = insert (stream i).sequence_number (stream i) d.parked })
  Synced-ahead d st s ahead near = record {
    cursor = s.cursor;
    holds = record {
      entry = λ k p at. elim (Bool-cases ((stream i).sequence_number == k)) [
        | inl e ↦ entry_new k p (==→eq _ k e) at
        | inr e ↦ (Holds-more d.parked s.holds).entry k p (found_old k p (==-ne _ k e) at)
      ];
    };
    complete = λ j h. elim (arrival j h) [
      | inl e ↦ inr (omega (arith, ahead), omega (arith, near), found_new j e)
      | inr old ↦ elim (s.complete j old) [
        | inl lt ↦ inl lt
        | inr (lt, le, at) ↦ inr (lt, le, found_kept j lt le at)
      ]
    ];
    below = λ j lt. contains-more j (s.below j lt);
  }
    where
      number : (stream i).sequence_number ≡ (first + i) % 32768
      number = st.numbered i

      parked' : List (ℕ × Packet)
      parked' = insert (stream i).sequence_number (stream i) d.parked

      found_new : (j : ℕ) → j ≡ i → lookup ((first + j) % 32768) parked' ≡ some (stream j)
      found_new j e =
          lookup-insert_self (stream i).sequence_number ((first + j) % 32768) (stream i) d.parked
            (number ∙ ap (λ n. (first + n) % 32768) (sym e))
          ∙ ap (λ n. some (stream n)) (sym e)

      found_old :
          (k : ℕ) (p : Packet)
          → (stream i).sequence_number ≢ k
          → lookup k parked' ≡ some p
          → lookup k d.parked ≡ some p
      found_old k p e at =
          sym (lookup-insert_ne (stream i).sequence_number k (stream i) d.parked e) ∙ at

      other :
          (j : ℕ) → c < j → j ≤ c + 512 → i ≢ j → (stream i).sequence_number ≢ (first + j) % 32768
      other j lt le ne = omega (arith, number, ahead, near)

      found_kept :
          (j : ℕ)
          → c < j
          → j ≤ c + 512
          → lookup ((first + j) % 32768) d.parked ≡ some (stream j)
          → lookup ((first + j) % 32768) parked' ≡ some (stream j)
      found_kept j lt le at = elim (Bool-cases (i == j)) [
        | inl e ↦ found_new j (sym (==→eq i j e))
        | inr e ↦
            lookup-insert_ne (stream i).sequence_number ((first + j) % 32768) (stream i) d.parked
              (other j lt le (==-ne i j e))
            ∙ at
      ]

      entry_new :
          (k : ℕ) (p : Packet)
          → (stream i).sequence_number ≡ k
          → lookup k parked' ≡ some p
          → (k < 32768)
            × (1 ≤ distance k (first + c))
            × (distance k (first + c) ≤ 512)
            × (p ≡ stream (c + distance k (first + c)))
            × (contains more (c + distance k (first + c)) ≡ true)
      entry_new k p e at =
          let way : c + distance k (first + c) ≡ i = omega (arith, e, number, ahead, near) in
          (
            omega (arith, e, number),
            omega (arith, way, ahead),
            omega (arith, way, near),
            cc (
              at,
              lookup-insert_self (stream i).sequence_number k (stream i) d.parked e,
              ap stream way,
            ),
            ap (contains more) way ∙ contains-more_self,
          )

  -- After the packet that is owed, what the drain sends.
  Stepped-Drained :
      (d : Delivery) (g : Gated) (result : List Packet × ℕ × List (ℕ × Packet))
      → Synced stream first arrived c d
      → i ≡ c
      → Drained stream first more (c + 1) d.parked result
      → delivered g ≡ stream i ∷ result.0
      → g.delivery.deliver_next ≡ some result.1
      → g.delivery.parked ≡ result.2
      → Stepped stream first more c g
  unfolding segment
  Stepped-Drained d g result s e r out cursor parked = record {
    count = suc r.count;
    packets = out ∙ ap₂ ◌∷◌ (ap stream e) r.packets;
    synced = record {
      cursor = cursor ∙ ap some (r.cursor ∙ ap (λ n. (first + n) % 32768) (omega arith));
      holds = subst₂ (λ n l. Holds stream first more 1 n l) (omega arith) (sym parked) r.rest;
      complete = λ j h. elim (arrival j h) [
        | inl at ↦ inl (omega (arith, at, e))
        | inr old ↦ elim (s.complete j old) [
          | inl lt ↦ inl (omega (arith, lt))
          | inr (lt, le, there) ↦ elim (r.kept ((first + j) % 32768) (stream j) there) [
            | inl near ↦ inl (omega (arith, near, lt, le))
            | inr left ↦ still j lt le left
          ]
        ]
      ];
      below = λ j lt. elim (Bool-cases (ltb j c)) [
        | inl b ↦ contains-more j (s.below j (ltb→lt j c b))
        | inr b ↦ elim (Bool-cases (i == j)) [
          | inl eq ↦ ap (contains more) (sym (==→eq i j eq)) ∙ contains-more_self
          | inr ne ↦
              let past : c + 1 ≤ j = past_of j b ne in
              ap (contains more) (omega (arith, past))
              ∙ r.all_arrived (j - (c + 1)) (omega (arith, lt, past))
        ]
      ];
    };
  }
    where
      past_of : (j : ℕ) → ltb j c ≡ false → (i == j) ≡ false → c + 1 ≤ j
      past_of j b ne = ground arith

      beyond :
          (j : ℕ)
          → j ≤ c + 512
          → ltb j (c + suc r.count) ≡ false
          → 1 ≤ distance ((first + j) % 32768) (first + (c + 1 + r.count))
          → c + suc r.count < j
      beyond j le b ahead = omega (arith, ltb-ge j (c + suc r.count) b)

      still :
          (j : ℕ)
          → c < j
          → j ≤ c + 512
          → lookup ((first + j) % 32768) result.2 ≡ some (stream j)
          → (j < c + suc r.count)
            ⊎ (c + suc r.count < j)
              × (j ≤ c + suc r.count + 512)
              × (lookup ((first + j) % 32768) g.delivery.parked ≡ some (stream j))
      still j lt le left = elim (Bool-cases (ltb j (c + suc r.count))) [
        | inl b ↦ inl (ltb→lt j (c + suc r.count) b)
        | inr b ↦
            let ahead : 1 ≤ distance ((first + j) % 32768) (first + (c + 1 + r.count)) =
              (r.rest.entry ((first + j) % 32768) (stream j) left).1 in
            inr (
              beyond j le b ahead,
              omega (arith, le),
              ap (lookup ((first + j) % 32768)) parked ∙ left,
            )
      ]

  pub Stepped-fill :
      (d : Delivery)
      → IsStream stream first
      → Synced stream first arrived c d
      → i ≡ c
      → Stepped stream first more c (fill d (stream i))
  Stepped-fill d st s e =
      let (out, cursor, parked) = fill_lem d (stream i) in
      let at_next : next (stream i).sequence_number ≡ (first + (c + 1)) % 32768 =
        omega (arith, st.numbered i, e) in
      Stepped-Drained d (fill d (stream i))
        (drain (length d.parked) (next (stream i).sequence_number) d.parked) s e
        (subst
          (λ n. Drained stream first more (c + 1) d.parked (drain (length d.parked) n d.parked))
          (sym at_next)
          (Drained-drain stream first more (length d.parked) (c + 1) d.parked (omega arith)
            (Holds-below d.parked (Holds-more d.parked s.holds))))
        out cursor parked
