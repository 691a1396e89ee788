-- ===== src/Transport/Delivery/Order.antt =====
-- In-order delivery: what the gate hands on is the stream of the sender.
use mathlib.Core.Path.{subst, ap₂}
use mathlib.Core.List.{append_assoc, append-nil}
use bmdwire.Prelude.{
  ltb→lt, ltb-ge, ℕ, zero, suc, ◌+◌, ◌<◌, ◌≤◌, ◌≡◌, ◌≢◌, refl, sym, ◌∙◌, ap, true, false, none,
  some, List, [], ◌∷◌, ◌++◌, map, length, lookup, remove, length-remove, contains-remove_ne,
  Bool-cases, inl, inr, contains, ltb, arith,
}
use bmdwire.Transport.Packet.{Packet}
use bmdwire.Transport.Delivery.{Delivery, gate, delivered}
use bmdwire.Transport.Delivery.Drain.{segment}
use bmdwire.Transport.Delivery.Synced.{IsStream, Near, Synced, Stepped}
use bmdwire.Transport.Delivery.Stream.{Stepped-gate}

-- The gate over the reliable packets of an established session: all that it hands on, in order.
pub deliver_all : Delivery → List Packet → List Packet
deliver_all d [] = []
deliver_all d (p ∷ ps) = let g = gate true d p in delivered g ++ deliver_all g.delivery ps

-- The first index from `j` on that has not arrived; fuel `length arrived + 1` is enough.
abbrev missing_from : ℕ → List ℕ → ℕ → ℕ
missing_from zero arrived j = j
missing_from (suc fuel) arrived j = elim (contains arrived j) [
  | true ↦ missing_from fuel arrived (j + 1)
  | false ↦ j
]

unfoldable pub first_missing : List ℕ → ℕ
first_missing arrived = missing_from (suc (length arrived)) arrived 0

-- Each arrival is near the first index that had not arrived before it.
abbrev pub AllNear : List ℕ → List ℕ → Type 0
AllNear arrived [] = Unit
AllNear arrived (i ∷ is) = Near (first_missing arrived) i × AllNear (arrived ++ (i ∷ [])) is

-- Indices that are all below `c` and in a list are no more than it has elements.
below-le-length : (c : ℕ) (xs : List ℕ) → ((j : ℕ) → j < c → contains xs j ≡ true) → c ≤ length xs
below-le-length zero xs h = omega arith
below-le-length (suc c) xs h = omega (
  arith,
  length-remove c xs (h c (omega arith)),
  below-le-length c (remove c xs)
      (λ j lt. contains-remove_ne c j xs (omega (arith, lt)) ∙ h j (omega (arith, lt))),
)

missing_from-eq :
    (fuel j c : ℕ) (xs : List ℕ)
    → j ≤ c
    → c < j + fuel
    → ((k : ℕ) → k < c → contains xs k ≡ true)
    → contains xs c ≡ false
    → missing_from fuel xs j ≡ c
missing_from-eq zero j c xs le lt below at = absurd (omega arith)
missing_from-eq (suc fuel) j c xs le lt below at = elim (Bool-cases (contains xs j)) [
  | inl e ↦
      rw (e, missing_from)
        (missing_from-eq fuel (j + 1) c xs (omega (arith, le, differ e)) (omega arith) below at)
  | inr e ↦ rw (e, missing_from) (stop e)
]
  where
    differ : contains xs j ≡ true → j ≢ c
    differ e eq = cc (ap (contains xs) eq)

    stop : contains xs j ≡ false → j ≡ c
    stop e = elim (Bool-cases (ltb j c)) [
      | inl b ↦ cc (below j (ltb→lt j c b))
      | inr b ↦ omega (arith, ltb-ge j c b)
    ]

first_missing-eq :
    (c : ℕ) (xs : List ℕ)
    → ((k : ℕ) → k < c → contains xs k ≡ true)
    → contains xs c ≡ false
    → first_missing xs ≡ c
unfolding first_missing
first_missing-eq c xs below at =
    missing_from-eq (suc (length xs)) 0 c xs (omega arith)
      (omega (arith, below-le-length c xs below)) below at

segment-append :
    (stream : ℕ → Packet) (c m n : ℕ)
    → segment stream c m ++ segment stream (c + m) n ≡ segment stream c (m + n)
unfolding segment
segment-append stream c zero n =
    ap (λ k. segment stream k n) (omega arith) ∙ ap (segment stream c) (omega arith)
segment-append stream c (suc m) n =
    ap (λ r. stream c ∷ r)
      (ap (λ k. segment stream (c + 1) m ++ segment stream k n) (omega arith)
        ∙ segment-append stream (c + 1) m n)
    ∙ ap (segment stream c) (suc-add m n)
  where
    suc-add : (m n : ℕ) → suc (m + n) ≡ suc m + n
    suc-add m n = omega arith

nothing : (k : ℕ) (p : Packet) → lookup k [] ≡ some p → ⊥
unfolding lookup
nothing k p at = cc

module _ (stream : ℕ → Packet) (first : ℕ) (st : IsStream stream first) where
  Synced-first_missing :
      (arrived : List ℕ) (c : ℕ) (d : Delivery)
      → Synced stream first arrived c d
      → first_missing arrived ≡ c
  Synced-first_missing arrived c d s =
      first_missing-eq c arrived s.below (elim (Bool-cases (contains arrived c)) [
        | inl e ↦ absurd (elim (s.complete c e) [
          | inl lt ↦ omega (arith, lt)
          | inr (lt, _, _) ↦ omega (arith, lt)
        ])
        | inr e ↦ e
      ])

  -- From a gate in step with the stream.
  deliver_from :
      (is arrived : List ℕ) (c : ℕ) (d : Delivery)
      → AllNear arrived is
      → Synced stream first arrived c d
      → (n : ℕ) × (deliver_all d (map stream is) ≡ segment stream c n)
        × (first_missing (arrived ++ is) ≡ c + n)
  unfolding deliver_all segment
  deliver_from [] arrived c d near s = (
    0,
    refl,
    ap first_missing (append-nil arrived) ∙ (Synced-first_missing arrived c d s ∙ omega arith),
  )
  deliver_from (i ∷ is) arrived c d near s =
      let g = gate true d (stream i) in
      let here : Near c i = subst (λ n. Near n i) (Synced-first_missing arrived c d s) near.0 in
      join (Stepped-gate stream first arrived c i d st s here)
        (λ r. deliver_from is (arrived ++ (i ∷ [])) (c + r.count) g.delivery near.1 r.synced)
    where
      join :
          Stepped stream first (arrived ++ (i ∷ [])) c (gate true d (stream i))
          → ((r : Stepped stream first (arrived ++ (i ∷ [])) c (gate true d (stream i)))
              → (n : ℕ) × (deliver_all (gate true d (stream i)).delivery (map stream is)
                  ≡ segment stream (c + r.count) n)
                × (first_missing ((arrived ++ (i ∷ [])) ++ is) ≡ c + r.count + n))
          → (n : ℕ) × (deliver_all d (map stream (i ∷ is)) ≡ segment stream c n)
            × (first_missing (arrived ++ (i ∷ is)) ≡ c + n)
      join r later =
          let (n, out, missing) = later r in
          (
            r.count + n,
            ap₂ ◌++◌ r.packets out ∙ segment-append stream c r.count n,
            ap first_missing (sym (append_assoc arrived (i ∷ []) is)) ∙ (missing ∙ omega arith),
          )

  -- The first packet that the gate sees sets the cursor.
  Synced-first :
      Synced stream first
        (0 ∷ [])
        1
        (gate true (record { deliver_next = none; parked = [] }) (stream 0)).delivery
  unfolding gate contains
  Synced-first = rw (st.is_reliable 0) (record {
    cursor = ap some (omega (arith, st.numbered 0));
    holds = record { entry = λ k p at. absurd (nothing k p at) };
    complete = λ j h. inl (ground arith);
    below = λ j lt. ground arith;
  })

  delivered-first :
      delivered (gate true (record { deliver_next = none; parked = [] }) (stream 0)) ≡ stream 0 ∷ []
  unfolding gate
  delivered-first = rw (st.is_reliable 0)

  -- Whatever the network does to the packets of a stream (loss, resends, duplicates, any order),
  -- as long as each arrival is near the first packet still missing: once its first packet is in,
  -- the gate hands on the packets of the stream up to the first index that has not arrived, each
  -- once and in order, and nothing else.
  pub deliver_all-eq-stream :
      (is : List ℕ)
      → AllNear (0 ∷ []) is
      → deliver_all (record { deliver_next = none; parked = [] }) (map stream (0 ∷ is))
        ≡ segment stream 0 (first_missing (0 ∷ is))
  unfolding deliver_all segment
  deliver_all-eq-stream is near =
      let g = gate true (record { deliver_next = none; parked = [] }) (stream 0) in
      let (n, out, missing) = deliver_from is (0 ∷ []) 1 g.delivery near Synced-first in
      ap₂ ◌++◌ delivered-first out ∙ ap (segment stream 0) {x = suc n} (omega (arith, missing))
