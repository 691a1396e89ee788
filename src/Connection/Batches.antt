-- ===== src/Connection/Batches.antt =====
-- The batches of `_drain_cmd_queue` (atemwire/connection.py): every command that can be sent, in
-- order, in packets within the budget.
use mathlib.Core.List.{append_assoc}
use bmdwire.Prelude.{
  ℕ, ◌+◌, ◌≤◌, ◌≡◌, refl, sym, ◌∙◌, ap, true, false, not, ◌&&◌, Option, none, some, List, [], ◌∷◌,
  ◌++◌, ltb, ltb-ge, is_empty, All, by_test, by_option, Bool-cases, inl, inr, arith,
}
use bmdwire.Connection.{Command, budget, is_accepted, sendable, cut_batches, batches}

-- The commands that can be sent.
unfoldable pub good : List Command → List Command
good [] = []
good (c ∷ cs) = let rest = good cs in elim (sendable c.size) [ none ↦ rest | some _ ↦ c ∷ rest ]

-- The size of a batch; a command that does not render has none.
unfoldable pub total_of : List Command → ℕ
total_of [] = 0
total_of (c ∷ cs) = (elim c.size [ none ↦ 0 | some size ↦ size ]) + total_of cs

unfoldable pub joined : List (List Command) → List Command
joined [] = []
joined (b ∷ bs) = b ++ joined bs

-- A batch is a packet: it has a command, its size is within the budget, and `send_commands` takes it.
abbrev pub IsPacket : List Command → Type 0
IsPacket batch =
    (is_empty batch ≡ false) × (total_of batch ≤ budget) × (is_accepted (total_of batch) ≡ true)

-- The batches are the commands that can be sent, in order, in packets.
pub record IsCutInto (batch cs : List Command) (out : List (List Command)) : Type 0 where
  pub kept : joined out ≡ batch ++ good cs
  pub packets : All IsPacket out

total_of-append : (xs ys : List Command) → total_of (xs ++ ys) ≡ total_of xs + total_of ys
unfolding total_of
total_of-append [] ys = omega arith
total_of-append (x ∷ xs) ys = omega (arith, total_of-append xs ys)

not_empty : (xs : List Command) (c : Command) → is_empty (xs ++ (c ∷ [])) ≡ false
not_empty [] c = refl
not_empty (x ∷ xs) c = refl

-- A command that can be sent is within the budget, and counts with its size.
sendable-some :
    (c : Command) (size : ℕ)
    → sendable c.size ≡ some size
    → (size ≤ budget) × (total_of (c ∷ []) ≡ size)
unfolding total_of
sendable-some c size e = by_size c.size e
  where
    by_size :
        (o : Option ℕ)
        → sendable o ≡ some size
        → (size ≤ budget) × (elim o as (λ _. ℕ) [ none ↦ 0 | some s ↦ s ] + 0 ≡ size)
    by_size none e = cc
    by_size (some s) e = ground arith

good-none : (c : Command) (cs : List Command) → sendable c.size ≡ none → good (c ∷ cs) ≡ good cs
unfolding good
good-none c cs e = rw (e, good) refl

good-some :
    (c : Command) (cs : List Command) (size : ℕ)
    → sendable c.size ≡ some size
    → good (c ∷ cs) ≡ c ∷ good cs
unfolding good
good-some c cs size e = rw (e, good) refl

empty_total : (batch : List Command) → is_empty batch ≡ true → total_of batch ≡ 0
unfolding total_of
empty_total [] e = refl
empty_total (b ∷ bs) e = cc

still_within :
    (batch : List Command) (total size : ℕ)
    → total_of batch ≡ total
    → size ≤ budget
    → (not (is_empty batch) && ltb budget (total + size)) ≡ false
    → total + size ≤ budget
still_within batch total size e h k = elim (Bool-cases (is_empty batch)) [
  | inl none_yet ↦ omega (arith, empty_total batch none_yet)
  | inr some_yet ↦ ltb-ge budget (total + size) (ground arith)
]

within :
    (batch : List Command) (total : ℕ)
    → is_empty batch ≡ false
    → total_of batch ≡ total
    → total ≤ budget
    → IsPacket batch
within batch total some_yet e h = (some_yet, omega (arith, e), ground (arith, e))

-- Invariant: the total is the size of the batch, and within the budget.
cut_batches-IsCutInto :
    (batch : List Command) (total : ℕ) (cs : List Command)
    → total_of batch ≡ total
    → total ≤ budget
    → IsCutInto batch cs (cut_batches batch total cs)
unfolding cut_batches joined good
cut_batches-IsCutInto [] total [] e h = record { kept = refl; packets = tt }
cut_batches-IsCutInto (b ∷ bs) total [] e h = record {
  kept = refl;
  packets = (within (b ∷ bs) total refl e h, tt);
}
cut_batches-IsCutInto batch total (c ∷ cs) e h =
    by_option (IsCutInto batch (c ∷ cs)) (sendable c.size) _ _
      (λ bad.
        let rest = cut_batches-IsCutInto batch total cs e h in
        record {
          kept = rest.kept ∙ ap (λ l. batch ++ l) (sym (good-none c cs bad));
          packets = rest.packets;
        })
      (λ size fine.
        let ok = sendable-some c size fine in
        let next = good-some c cs size fine in
        by_test (IsCutInto batch (c ∷ cs)) (not (is_empty batch) && ltb budget (total + size)) _ _
          (λ full.
            let rest = cut_batches-IsCutInto (c ∷ []) size cs ok.1 ok.0 in
            record {
              kept = ap (λ l. batch ++ l) (rest.kept ∙ sym next);
              packets = (within batch total (ground arith) e h, rest.packets);
            })
          (λ room.
            let rest =
              cut_batches-IsCutInto (batch ++ (c ∷ [])) (total + size) cs
                (omega (arith, total_of-append batch (c ∷ []), ok.1, e))
                (still_within batch total size e ok.0 room) in
            record {
              kept =
                  rest.kept
                  ∙ append_assoc batch (c ∷ []) (good cs)
                  ∙ ap (λ l. batch ++ l) (sym next);
              packets = rest.packets;
            }))

-- For all commands taken off the queue: the batches that go to `send_commands`, joined, are the
-- commands that render within the budget, each once and in their order; no batch is empty, and none
-- is larger than the budget of 1200 bytes, so that `send_commands` raises for none of them.
pub batches-IsCutInto : (pending : List Command) → IsCutInto [] pending (batches pending)
unfolding total_of
batches-IsCutInto pending = cut_batches-IsCutInto [] 0 pending refl (omega arith)
