-- ===== src/Transfers/Enough.antt =====
-- The fuel of `trigger`: `_transfer_trigger` and `_release_then_continue` (atemwire/protocol.py) call
-- each other once for each clear at most.
use mathlib.Core.Path.{subst}
use mathlib.Core.Option.{some_inj}
use bmdwire.Prelude.{
  ℕ, zero, suc, no_fuel, ◌+◌, ◌<◌, ◌≡◌, refl, sym, ◌∙◌, ap, Bool, true, false, not, ◌&&◌, Option,
  none, some, List, [], ◌∷◌, length, lookup, assign, Bool-cases, by_test, Option-cases, inl, inr,
  ◌==◌, eq→==, if◌then◌else◌, arith, ltb,
}
use bmdwire.Transfers.Lane.{Lane, Task, queue_of, rest_of, is_head, is_held, macro_store, wake}
use bmdwire.Transfers.Waiting.{has_lock}
use bmdwire.Transfers.Trigger.{
  next_task, request_lock, start, release, dispatch_clear, advance, choose, gate, trigger_with,
  trigger, queued,
}
use bmdwire.Transfers.Filed.{IsNext, next_task-IsNext, IsFiled, IsFiled-head}

queued-assign :
    (k : ℕ) (us vs : List Task) (d : List (ℕ × List Task))
    → lookup k d ≡ some us
    → queued (assign k vs d) + length us ≡ queued d + length vs
unfolding queued assign lookup
queued-assign k us vs [] e = cc
queued-assign k us vs ((j, ws) ∷ d) e = elim (Bool-cases (j == k)) [
  | inl same ↦
      let here : ws ≡ us = some_inj.0 (sym (rw same refl) ∙ e) in rw (same, here) (omega arith)
  | inr other ↦
      let later : lookup k d ≡ some us = sym (rw other refl) ∙ e in
      let rest = queued-assign k us vs d later in rw other (omega arith)
]

found :
    (k : ℕ) (t : Task) (ts : List Task) (d : List (ℕ × List Task))
    → queue_of d k ≡ t ∷ ts
    → lookup k d ≡ some (t ∷ ts)
found k t ts d e = elim (Option-cases (lookup k d)) [
  | inl none_there ↦
      cc (e, ap (λ o. elim o as (λ _. List Task) [ none ↦ [] | some tasks ↦ tasks ]) none_there)
  | inr (us, there) ↦
      there
      ∙ ap some
          (ap (λ o. elim o as (λ _. List Task) [ none ↦ [] | some tasks ↦ tasks ]) (sym there) ∙ e)
]

-- The head of its queue leaves it: one task fewer is queued.
queued-pop :
    (d : List (ℕ × List Task)) (t : Task)
    → IsNext d t
    → queued (assign t.store (rest_of (queue_of d t.store)) d) < queued d
queued-pop d t (ts, e) =
    let fewer = queued-assign t.store (t ∷ ts) ts d (found t.store t ts d e) in rw e (omega arith)

-- A head that is next is one by its identity.
head_leaves :
    (d : List (ℕ × List Task)) (t : Task)
    → IsNext d t
    → queued (
        if is_head t (queue_of d t.store)
        then assign t.store (rest_of (queue_of d t.store)) d
        else d)
      < queued d
head_leaves d t (ts, e) =
    let here : is_head t (queue_of d t.store) ≡ true =
      ap (is_head t) e ∙ eq→== t.ident t.ident refl in
    rw here (queued-pop d t (ts, e))

release-queue : (now store : ℕ) (l : Lane) → (release now store l).transfer_queue ≡ l.transfer_queue
unfolding release
release-queue now store l =
    by_test {A = Lane} (λ m. m.transfer_queue ≡ l.transfer_queue) (has_lock store l) _ _ (λ _. refl)
      (λ _. refl)

-- Two triggers agree on the lanes with fewer tasks queued.
abbrev Agree : ℕ → (ℕ → Lane → Lane) → (ℕ → Lane → Lane) → Type 0
Agree n f g =
    (store : ℕ) (l : Lane)
    → IsFiled l.transfer_queue
    → queued l.transfer_queue < n
    → f store l ≡ g store l

same_option {ℓ κ} :
    {A : Type ℓ} {C : Type κ} (o : Option A) (x y : C) (f g : A → C)
    → (o ≡ none → x ≡ y)
    → ((a : A) → o ≡ some a → f a ≡ g a)
    → elim o as (λ _. C) [ none ↦ x | some a ↦ f a ]
      ≡ elim o as (λ _. C) [ none ↦ y | some a ↦ g a ]
same_option none x y f g h k = h refl
same_option (some a) x y f g h k = k a refl

module _ (f g : ℕ → Lane → Lane) (now : ℕ) where
  advance_same :
      (retry : Bool) (t : Task) (l : Lane)
      → Agree (queued l.transfer_queue) f g
      → IsFiled l.transfer_queue
      → IsNext l.transfer_queue t
      → advance f now retry t l ≡ advance g now retry t l
  unfolding advance
  advance_same retry t l h filed n =
      let after = release now t.store (dispatch_clear t l) in
      let queue = release-queue now t.store (dispatch_clear t l) in
      ap
        (λ m.
          if not (t.store == macro_store) && not (is_held l.locks t.store)
          then request_lock now t l
          else if l.transfer_requested
          then l
          else if t.clear
          then m
          else start retry t l)
        (h t.store after (subst IsFiled (sym queue) (IsFiled-head t l.transfer_queue filed)) (
          subst (λ d. queued d < queued l.transfer_queue) (sym queue)
            (head_leaves l.transfer_queue t n)))

  choose_same :
      (store : ℕ) (retry : Bool) (l : Lane)
      → Agree (queued l.transfer_queue) f g
      → IsFiled l.transfer_queue
      → choose f now store retry l ≡ choose g now store retry l
  unfolding choose
  choose_same store retry l h filed =
      same_option (next_task store l.transfer_queue) _ _ _ _ (λ _. refl)
        (λ t e. advance_same retry t l h filed (next_task-IsNext store l.transfer_queue t filed e))

  gate_same :
      (store : ℕ) (retry : Bool) (l : Lane)
      → Agree (queued l.transfer_queue) f g
      → IsFiled l.transfer_queue
      → gate f now store retry l ≡ gate g now store retry l
  unfolding gate
  gate_same store retry l h filed =
      same_option l.draining _ _ _ _
        (λ _.
          same_option l.try_again_due _ _ _ _ (λ _. choose_same store retry l h filed)
            (λ due _.
              ap (λ m. if ltb now due then wake due l else m)
                (choose_same store true (record l { try_again_due = none }) h filed)))
        (λ _ _. refl)

trigger_with_same :
    (n m now store : ℕ) (retry : Bool) (l : Lane)
    → IsFiled l.transfer_queue
    → queued l.transfer_queue < n
    → queued l.transfer_queue < m
    → trigger_with n now store retry l ≡ trigger_with m now store retry l
unfolding trigger_with
trigger_with_same zero m now store retry l filed a b =
    elim (no_fuel (queued l.transfer_queue) a) [ ]
trigger_with_same (suc n) zero now store retry l filed a b =
    elim (no_fuel (queued l.transfer_queue) b) [ ]
trigger_with_same (suc n) (suc m) now store retry l filed a b =
    gate_same (λ s. trigger_with n now s false) (λ s. trigger_with m now s false) now store retry l
      (λ s l' filed' fewer. trigger_with_same n m now s false l' filed' (omega arith) (omega arith))
      filed

-- The recursion of `_transfer_trigger` through `_release_then_continue` ends: when each task stands
-- in the queue of its store, `trigger`, whose fuel is one more than the tasks queued, gives the lane
-- that any more fuel gives.
pub trigger-trigger_with :
    (more now store : ℕ) (retry : Bool) (l : Lane)
    → IsFiled l.transfer_queue
    → trigger_with (suc (queued l.transfer_queue) + more) now store retry l
      ≡ trigger now store retry l
unfolding trigger
trigger-trigger_with more now store retry l filed =
    trigger_with_same (suc (queued l.transfer_queue) + more) (suc (queued l.transfer_queue)) now
      store retry l filed (omega arith) (omega arith)
