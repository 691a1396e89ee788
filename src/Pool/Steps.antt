-- ===== src/Pool/Steps.antt =====
-- One event keeps the pool of atemwire/pool.py in balance.
use mathlib.Core.Path.{subst}
use bmdwire.Prelude.{
  ℕ, ◌+◌, ◌<◌, ◌≤◌, ◌≡◌, ◌≢◌, refl, sym, ◌∙◌, ap, Bool, true, false, ◌&&◌, Option, none, some, List,
  [], ◌∷◌, ltb, ◌==◌, contains, remove, All, arith, inl, inr, ==-ne, ==→eq, Bool-cases,
}
use bmdwire.Pool.{
  Entry, Pool, evict_dead, evict_if_dead, revive, join, get_instance, drop_reference,
  release_instance, is_active, is_tearing_down, delayed_disconnect, on_connection_died,
}
use bmdwire.Pool.Run.{
  World, Event, taken, released, fired, died, hold, step, count, IsFair, IsFairPool, IsBalanced,
}

count-unknown : (n : ℕ) (xs : List ℕ) → All (λ c. c < n) xs → count n xs ≡ 0
unfolding count
count-unknown n [] h = refl
count-unknown n (x ∷ xs) h = ground (arith, count-unknown n xs h.1, h.0)

pub count-remove_self :
    (c : ℕ) (xs : List ℕ) → contains xs c ≡ true → count c (remove c xs) + 1 ≡ count c xs
unfolding count contains remove
count-remove_self c [] h = cc
count-remove_self c (x ∷ xs) h = ground (arith, count-remove_self c xs)

count-remove_ne : (c d : ℕ) (xs : List ℕ) → c ≢ d → count d (remove c xs) ≡ count d xs
unfolding count remove
count-remove_ne c d [] h = refl
count-remove_ne c d (x ∷ xs) h = ground (arith, count-remove_ne c d xs h)

All-remove : (n c : ℕ) (xs : List ℕ) → All (λ x. x < n) xs → All (λ x. x < n) (remove c xs)
unfolding remove
All-remove n c [] h = tt
All-remove n c (x ∷ xs) h = elim (Bool-cases (x == c)) [
  | inl e ↦ rw e h.1
  | inr e ↦ rw e (h.0, All-remove n c xs h.1)
]

All-grow : (m n : ℕ) (xs : List ℕ) → m ≤ n → All (λ x. x < m) xs → All (λ x. x < n) xs
All-grow m n [] le h = tt
All-grow m n (x ∷ xs) le h = (omega (arith, le, h.0), All-grow m n xs le h.1)

-- Events at an address with an entry, and without.
abbrev with_entry : Option Entry → World → World
with_entry o w = record w { pool = record w.pool { instance_now = o } }

fired-IsBalanced :
    (o : Option Entry) (w : World)
    → IsBalanced (with_entry o w)
    → IsBalanced (step fired (with_entry o w))
unfolding step delayed_disconnect
fired-IsBalanced none w b = b
fired-IsBalanced (some e) w b = elim (Bool-cases (ltb 0 e.ref_count)) [
  | inl t ↦ rw t b
  | inr t ↦ rw t (elim (Bool-cases (is_tearing_down e.state)) [
    | inl d ↦ rw d b
    | inr d ↦ rw d (record { fair = tt; known = b.known })
  ])
]

died-IsBalanced :
    (c : ℕ) (o : Option Entry) (w : World)
    → IsBalanced (with_entry o w)
    → IsBalanced (step (died c) (with_entry o w))
unfolding step on_connection_died
died-IsBalanced c none w b = b
died-IsBalanced c (some e) w b = elim (Bool-cases (e.connection == c)) [
  | inl t ↦ rw t (record { fair = tt; known = b.known })
  | inr t ↦ rw t b
]

-- One reference less, of one holder less.
IsFair-drop :
    (e : Entry) (held : List ℕ)
    → contains held e.connection ≡ true
    → IsFair e held
    → IsFair (drop_reference e) (remove e.connection held)
unfolding drop_reference
IsFair-drop e held here fair = ground (arith, count-remove_self e.connection held here)

IsFair-other :
    (e : Entry) (c : ℕ) (held : List ℕ)
    → (e.connection == c) ≡ false
    → IsFair e held
    → IsFair e (remove c held)
IsFair-other e c held ne (counts, timer, state) = (
  counts ∙ sym (count-remove_ne c e.connection held (λ same. ==-ne e.connection c ne (sym same))),
  timer,
  state,
)

connection-drop : (e : Entry) → (drop_reference e).connection ≡ e.connection
unfolding drop_reference
connection-drop e = ground arith

released-IsFair :
    (c : ℕ) (o : Option Entry) (p : Pool) (held : List ℕ)
    → contains held c ≡ true
    → IsFairPool o p.created held
    → IsFairPool
        (release_instance (some c) (record p { instance_now = o })).instance_now
        p.created
        (remove c held)
unfolding release_instance
released-IsFair c none p held here fair = tt
released-IsFair c (some e) p held here (known, fair) = elim (Bool-cases (e.connection == c)) [
  | inr ne ↦ rw ne (known, IsFair-other e c held ne fair)
  | inl eq ↦ elim (Bool-cases (e.ref_count == 0)) [
    | inl zero_ ↦ absurd (
        omega (
          arith,
          fair.0,
          ==→eq e.ref_count 0 zero_,
          count-remove_self e.connection held (ap (contains held) (==→eq e.connection c eq) ∙ here),
        ))
    | inr some_ ↦
        rw (eq, some_)
          (
            omega (arith, connection-drop e, known),
            subst (λ k. IsFair (drop_reference e) (remove k held)) (==→eq e.connection c eq)
                (IsFair-drop e held (ap (contains held) (==→eq e.connection c eq) ∙ here) fair),
          )
  ]
]

created-release : (c : ℕ) (p : Pool) → (release_instance (some c) p).created ≡ p.created
unfolding release_instance
created-release c p = ground arith

released-IsBalanced :
    (c : ℕ) (o : Option Entry) (w : World)
    → IsBalanced (with_entry o w)
    → IsBalanced (step (released c) (with_entry o w))
unfolding step
released-IsBalanced c o w b = elim (Bool-cases (contains w.held c)) [
  | inr ne ↦ rw ne b
  | inl here ↦ rw here (record {
    fair =
        subst
          (λ n.
            IsFairPool (release_instance (some c) (record w.pool { instance_now = o })).instance_now
              n (remove c w.held))
          (sym (created-release c (record w.pool { instance_now = o })))
          (released-IsFair c o w.pool w.held here b.fair);
    known =
        subst (λ n. All (λ x. x < n) (remove c w.held))
          (sym (created-release c (record w.pool { instance_now = o })))
          (All-remove w.pool.created c w.held b.known);
  })
]

-- One reference more, of one holder more.
IsFair-join :
    (e : Entry) (held : List ℕ)
    → IsFair e held
    → IsFair
        (record (revive e) { ref_count = (revive e).ref_count + 1 })
        ((revive e).connection ∷ held)
unfolding revive count
IsFair-join e held fair = ground arith

connection-revive : (e : Entry) → (revive e).connection ≡ e.connection
unfolding revive
connection-revive e = ground arith

count-fresh : (n : ℕ) (held : List ℕ) → All (λ c. c < n) held → 1 ≡ count n (n ∷ held)
unfolding count
count-fresh n held h = ground (arith, count-unknown n held h)

-- A reference to an entry that is there, or to a fresh one.
join-IsBalanced :
    (o : Option Entry) (p : Pool) (held : List ℕ)
    → IsBalanced (record { pool = record p { instance_now = o }; held = held })
    → IsBalanced (record {
      pool = join (record p { instance_now = o });
      held = hold (join (record p { instance_now = o })) held;
    })
unfolding join
join-IsBalanced none p held b = record {
  fair = (omega arith, (count-fresh p.created held b.known, refl, refl));
  known = (omega arith, All-grow p.created (p.created + 1) held (omega arith) b.known);
}
join-IsBalanced (some e) p held b =
    let small : (revive e).connection < p.created = omega (arith, connection-revive e, b.fair.0) in
    record { fair = (small, IsFair-join e held b.fair.1); known = (small, b.known) }

evicted-IsBalanced :
    (dead : Bool) (o : Option Entry) (p : Pool) (held : List ℕ)
    → IsBalanced (record { pool = record p { instance_now = o }; held = held })
    → IsBalanced (record { pool = evict_if_dead dead (record p { instance_now = o }); held = held })
unfolding evict_if_dead evict_dead
evicted-IsBalanced dead none p held b = b
evicted-IsBalanced dead (some e) p held b = elim (Bool-cases (dead && is_active e.state)) [
  | inl t ↦ rw t (record { fair = tt; known = b.known })
  | inr t ↦ rw t b
]

pub taken-IsBalanced : (dead : Bool) (w : World) → IsBalanced w → IsBalanced (step (taken dead) w)
unfolding step get_instance
taken-IsBalanced dead w b =
    let p = evict_if_dead dead w.pool in
    join-IsBalanced p.instance_now p w.held
      (evicted-IsBalanced dead w.pool.instance_now w.pool w.held b)

pub step-IsBalanced : (e : Event) (w : World) → IsBalanced w → IsBalanced (step e w)
step-IsBalanced (taken dead) w b = taken-IsBalanced dead w b
step-IsBalanced (released c) w b = released-IsBalanced c w.pool.instance_now w b
step-IsBalanced fired w b = fired-IsBalanced w.pool.instance_now w b
step-IsBalanced (died c) w b = died-IsBalanced c w.pool.instance_now w b
