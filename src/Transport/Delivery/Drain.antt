-- ===== src/Transport/Delivery/Drain.antt =====
-- The loop that drains the parked packets: it stops at the first sequence number not parked.
use mathlib.Core.Path.{ap₂, subst}
use bmdwire.Prelude.{
  Bool-cases, ==→eq, ℕ, zero, suc, ◌+◌, ◌%◌, ◌<◌, ◌≤◌, ◌≡◌, refl, ◌≢◌, sym, ◌∙◌, ap, true, false,
  Option, none, some, List, [], ◌∷◌, length, lookup, without, lookup-without, lookup-without-some,
  length-without_lt, Option-cases, inl, inr, ◌⊎◌, contains, ◌==◌, arith,
}
use bmdwire.Transport.Packet.{Packet}
use bmdwire.Transport.Seq.{next, distance, distance_pos}
use bmdwire.Transport.Delivery.{drain}

drain-none :
    (fuel cursor : ℕ) (parked : List (ℕ × Packet))
    → lookup cursor parked ≡ none
    → drain (suc fuel) cursor parked ≡ ([], cursor, parked)
unfolding drain
drain-none fuel cursor parked e = rw (e, drain)

drain-some :
    (fuel cursor : ℕ) (parked : List (ℕ × Packet)) (p : Packet)
    → lookup cursor parked ≡ some p
    → drain (suc fuel) cursor parked ≡ (
        let (packets, cursor', parked') = drain fuel (next cursor) (without cursor parked) in
        (p ∷ packets, cursor', parked'))
unfolding drain
drain-some fuel cursor parked p e = rw (e, drain)

none≢some {ℓ} : {A : Type ℓ} {a : A} → ◌≡◌ {A = Option A} none (some a) → ⊥
none≢some e = cc

-- The packets of the stream from index `c` on, `count` of them.
unfoldable pub segment : (ℕ → Packet) → ℕ → ℕ → List Packet
segment stream c zero = []
segment stream c (suc count) = stream c ∷ segment stream (c + 1) count

-- A stream of packets from sequence number `first` on, and the indices that have arrived.
module _ (stream : ℕ → Packet) (first : ℕ) (arrived : List ℕ) where
  -- Every parked packet is the packet of the stream that its key says, arrived, and from `low` to
  -- the park window ahead of index `c`.
  pub record Holds (low c : ℕ) (parked : List (ℕ × Packet)) : Type 0 where
    pub entry :
        (k : ℕ) (p : Packet)
        → lookup k parked ≡ some p
        → (k < 32768)
          × (low ≤ distance k (first + c))
          × (distance k (first + c) ≤ 512)
          × (p ≡ stream (c + distance k (first + c)))
          × (contains arrived (c + distance k (first + c)) ≡ true)

  -- What the drain does from index `c`.
  pub record Drained (c : ℕ) (parked : List (ℕ × Packet))
      (result : List Packet × ℕ × List (ℕ × Packet)) : Type 0 where
    pub count : ℕ
    pub packets : result.0 ≡ segment stream c count
    pub cursor : result.1 ≡ (first + (c + count)) % 32768
    pub rest : Holds 1 (c + count) result.2
    pub all_arrived : (i : ℕ) → i < count → contains arrived (c + i) ≡ true
    pub kept :
        (k : ℕ) (p : Packet)
        → lookup k parked ≡ some p
        → (distance k (first + c) < count) ⊎ (lookup k result.2 ≡ some p)

  Holds-stop :
      (c : ℕ) (parked : List (ℕ × Packet))
      → Holds 0 c parked
      → lookup ((first + c) % 32768) parked ≡ none
      → Holds 1 c parked
  Holds-stop c parked h e = record {
    entry = λ k p at.
        let (small, _, near, is, here) = h.entry k p at in
        let k≢ : k ≢ (first + c) % 32768 =
          λ same. none≢some (sym e ∙ (ap (λ i. lookup i parked) (sym same) ∙ at)) in
        (small, distance_pos k (first + c) small k≢, near, is, here);
  }

  Holds-step :
      (c : ℕ) (parked : List (ℕ × Packet))
      → Holds 0 c parked
      → Holds 0 (c + 1) (without ((first + c) % 32768) parked)
  Holds-step c parked h = record {
    entry = λ k p at.
        let (k≢, found) = lookup-without-some ((first + c) % 32768) k parked p at in
        let (small, _, near, is, here) = h.entry k p found in
        let shift : c + 1 + distance k (first + (c + 1)) ≡ c + distance k (first + c) =
          omega (arith, distance_pos k (first + c) small k≢) in
        (
          small,
          omega arith,
          omega arith,
          is ∙ ap stream (sym shift),
          ap (contains arrived) shift ∙ here,
        );
  }

  Drained-stop :
      (c : ℕ) (parked : List (ℕ × Packet))
      → Holds 0 c parked
      → lookup ((first + c) % 32768) parked ≡ none
      → Drained c parked ([], (first + c) % 32768, parked)
  unfolding segment
  Drained-stop c parked h e = record {
    count = 0;
    packets = refl;
    cursor = ap (λ i. (first + i) % 32768) (omega arith);
    rest = subst (λ i. Holds 1 i parked) (omega arith) (Holds-stop c parked h e);
    all_arrived = λ i lt. absurd (omega arith);
    kept = λ k p at. inr at;
  }

  -- One packet goes out, and the drain goes on from the next index.
  Drained-step :
      (c : ℕ) (parked : List (ℕ × Packet)) (p : Packet)
      → Holds 0 c parked
      → lookup ((first + c) % 32768) parked ≡ some p
      → (r : List Packet × ℕ × List (ℕ × Packet))
      → Drained (c + 1) (without ((first + c) % 32768) parked) r
      → Drained c parked (p ∷ r.0, r.1, r.2)
  unfolding segment
  Drained-step c parked p h at r d =
      let (small, _, near, is, here) = h.entry ((first + c) % 32768) p at in
      let zero_way : c + distance ((first + c) % 32768) (first + c) ≡ c = omega arith in
      record {
        count = suc d.count;
        packets = ap₂ ◌∷◌ (is ∙ ap stream zero_way) d.packets;
        cursor = d.cursor ∙ ap (λ i. (first + i) % 32768) (omega arith);
        rest = subst (λ i. Holds 1 i r.2) (omega arith) d.rest;
        all_arrived = elim [
          | zero ↦ λ lt. ap (contains arrived) (omega arith) ∙ here
          | suc i ↦ λ lt. ap (contains arrived) (omega arith) ∙ d.all_arrived i (omega arith)
        ];
        kept = λ k q found. elim (Bool-cases (k == (first + c) % 32768)) [
          | inl e ↦ inl (omega (arith, ==→eq k ((first + c) % 32768) e))
          | inr e ↦ elim (d.kept k q (lookup_other k q found e)) [
            | inl near ↦ inl (shifted k q found e near)
            | inr there ↦ inr there
          ]
        ];
      }
    where
      lookup_other :
          (k : ℕ) (q : Packet)
          → lookup k parked ≡ some q
          → (k == (first + c) % 32768) ≡ false
          → lookup k (without ((first + c) % 32768) parked) ≡ some q
      lookup_other k q found e = ground (arith, lookup-without ((first + c) % 32768) k parked)

      shifted :
          (k : ℕ) (q : Packet)
          → lookup k parked ≡ some q
          → (k == (first + c) % 32768) ≡ false
          → distance k (first + (c + 1)) < d.count
          → distance k (first + c) < suc d.count
      shifted k q found e near = omega arith

  next_cursor : (c : ℕ) → (first + (c + 1)) % 32768 ≡ next ((first + c) % 32768)
  next_cursor c = omega arith

  -- From parked packets of the stream the drain, with fuel for each, sends the packets of the
  -- stream from index `c` on, up to the first that is not parked, and loses none.
  pub Drained-drain :
      (fuel c : ℕ) (parked : List (ℕ × Packet))
      → length parked ≤ fuel
      → Holds 0 c parked
      → Drained c parked (drain fuel ((first + c) % 32768) parked)
  Drained-drain zero c [] small h = unfold drain in Drained-stop c [] h (unfold lookup in refl)
  Drained-drain zero c (x ∷ parked) small h = absurd (omega arith)
  Drained-drain (suc fuel) c parked small h =
      let cursor = (first + c) % 32768 in
      elim (Option-cases (lookup cursor parked)) [
        | inl e ↦ rw (drain-none fuel ((first + c) % 32768) parked e) (Drained-stop c parked h e)
        | inr (p, e) ↦ rw (drain-some fuel ((first + c) % 32768) parked p e) (
            Drained-step c parked p h e _ (
              subst
                (λ n.
                  Drained (c + 1) (without cursor parked) (drain fuel n (without cursor parked)))
                (next_cursor c)
                (Drained-drain fuel (c + 1) (without cursor parked)
                  (omega (arith, length-without_lt cursor parked p e)) (Holds-step c parked h))))
      ]
