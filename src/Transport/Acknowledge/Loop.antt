-- ===== src/Transport/Acknowledge/Loop.antt =====
-- The loop of `_update_ack_number` ends, and at the end of a gap-free run.
use bmdwire.Prelude.{
  ℕ, zero, suc, ◌+◌, ◌%◌, ◌<◌, ◌≤◌, ◌≡◌, refl, ◌∙◌, ap, true, false, List, length, contains, remove,
  length-remove, contains-remove_ne, Bool-cases, inl, inr, ◌⊎◌, arith,
}
use bmdwire.Transport.Seq.{next}
use bmdwire.Transport.Seen.{SeenWindow, has}
use bmdwire.Transport.Acknowledge.{advance}

-- The `count` sequence numbers after `ack` are all in the list.
abbrev pub Run : List ℕ → ℕ → ℕ → Type 0
Run xs ack count = (i : ℕ) → i < count → contains xs ((ack + 1 + i) % 32768) ≡ true

-- A run of at most 2^15 numbers is no longer than the list.
Run-length :
    (count : ℕ) (xs : List ℕ) (ack : ℕ) → count ≤ 32768 → Run xs ack count → count ≤ length xs
Run-length zero xs ack small run = omega arith
Run-length (suc count) xs ack small run = omega (
  arith,
  Run-length count (remove first xs) (ack + 1) (omega arith) rest,
  length-remove first xs here,
)
  where
    first : ℕ
    first = (ack + 1) % 32768

    here : contains xs first ≡ true
    here = ap (contains xs) (omega arith) ∙ run 0 (omega arith)

    rest : Run (remove first xs) (ack + 1) count
    rest i h =
        contains-remove_ne first ((ack + 1 + 1 + i) % 32768) xs (omega arith)
        ∙ (ap (contains xs) (omega arith) ∙ run (suc i) (omega arith))

-- What `advance` returns: the end of a run, from which it cannot go on or has no fuel left.
record Advanced (fuel : ℕ) (w : SeenWindow) (ack : ℕ) (result : ℕ) : Type 0 where
  steps : ℕ
  run : Run w.seen ack steps
  place : result ≡ (ack + steps) % 32768
  stopped : (has w (next result) ≡ false) ⊎ (steps ≡ fuel)

Advanced-advance :
    (fuel : ℕ) (w : SeenWindow) (ack : ℕ) → ack < 32768 → Advanced fuel w ack (advance fuel w ack)
unfolding advance has
Advanced-advance zero w ack small = record {
  steps = 0;
  run = λ i h. absurd (omega arith);
  place = omega arith;
  stopped = inr refl;
}
Advanced-advance (suc fuel) w ack small = elim (Bool-cases (contains w.seen (next ack))) [
  | inl more ↦
      let a = Advanced-advance fuel w (next ack) (omega arith) in
      rw more (record {
        steps = suc a.steps;
        run = elim [
          | zero ↦ λ h. ap (contains w.seen) (omega arith) ∙ more
          | suc i ↦ λ h. ap (contains w.seen) (omega arith) ∙ a.run i (omega arith)
        ];
        place = a.place ∙ omega arith;
        stopped = elim a.stopped [ inl e ↦ inl e | inr e ↦ inr (ap suc e) ];
      })
  | inr done ↦ rw done (record {
    steps = 0;
    run = λ i h. absurd (omega arith);
    place = omega arith;
    stopped = inl done;
  })
]

-- From an acknowledgement number below 2^15, with fewer than 2^15 numbers in the window, the loop
-- of `_update_ack_number` ends within its fuel: its result is reached over numbers that were all
-- received, and the number after it was not received.
pub advance_contiguous :
    (w : SeenWindow) (ack : ℕ)
    → ack < 32768
    → length w.seen < 32768
    → (count : ℕ) × (advance (suc (length w.seen)) w ack ≡ (ack + count) % 32768)
      × Run w.seen ack count
      × (has w (next (advance (suc (length w.seen)) w ack)) ≡ false)
advance_contiguous w ack small bounded = (a.steps, a.place, a.run, ended a.stopped)
  where
    a : Advanced (suc (length w.seen)) w ack (advance (suc (length w.seen)) w ack)
    a = Advanced-advance (suc (length w.seen)) w ack small

    full : a.steps ≡ suc (length w.seen) → ⊥
    full e = omega (arith, Run-length a.steps w.seen ack (omega arith) a.run)

    ended :
        (has w (next (advance (suc (length w.seen)) w ack)) ≡ false)
          ⊎ (a.steps ≡ suc (length w.seen))
        → has w (next (advance (suc (length w.seen)) w ack)) ≡ false
    ended (inl e) = e
    ended (inr e) = absurd (full e)
