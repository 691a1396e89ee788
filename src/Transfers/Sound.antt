-- ===== src/Transfers/Sound.antt =====
-- What holds of the transfers between two events (atemwire/protocol.py), and that the trigger keeps
-- it.
use bmdwire.Prelude.{
  ℕ, zero, suc, ◌≡◌, ◌⊎◌, refl, Bool, true, false, not, ◌&&◌, Option, none, some, List, Bool-cases,
  by_test, by_option, ltb, inl, inr, ==→eq, ◌==◌, arith,
}
use bmdwire.Transfers.Lane.{Lane, Task, InFlight, Drain, macro_store, is_held}
use bmdwire.Transfers.Waiting.{has_lock}
use bmdwire.Transfers.Trigger.{
  request_lock, start, release, dispatch_clear, advance, choose, gate, trigger_with, trigger,
  release_then_continue, queued,
}
use bmdwire.Transfers.Filed.{IsFiled, IsNext, next_task-IsNext, IsFiled-head}

-- The store's lock is ours, or it has none.
abbrev pub IsOurs : List (ℕ × Bool) → ℕ → Type 0
IsOurs locks store = (store ≡ macro_store) ⊎ (is_held locks store ≡ true)

-- A transfer in flight is of the task at the head of its store's queue, and no clear; one that was
-- requested has its store's lock; and without one nothing was requested.
abbrev pub IsFlight : Option InFlight → Bool → List (ℕ × List Task) → List (ℕ × Bool) → Type 0
IsFlight none requested queues locks = requested ≡ false
IsFlight (some t) requested queues locks =
    IsNext queues t.task
    × (t.task.clear ≡ false)
    × ((requested ≡ false) ⊎ IsOurs locks t.task.store)

-- Nothing is in flight beside an abandoned download.
abbrev pub IsAlone : Option Drain → Option InFlight → Type 0
IsAlone none transfer = Unit
IsAlone (some d) transfer = transfer ≡ none

pub record IsSound (l : Lane) : Type 0 where
  pub filed : IsFiled l.transfer_queue
  pub flight : IsFlight l.transfer l.transfer_requested l.transfer_queue l.locks
  pub alone : IsAlone l.draining l.transfer

-- The parts of the state that this is about are the same.
pub record IsSame (l m : Lane) : Type 0 where
  pub queues : m.transfer_queue ≡ l.transfer_queue
  pub transfer : m.transfer ≡ l.transfer
  pub requested : m.transfer_requested ≡ l.transfer_requested
  pub locks : m.locks ≡ l.locks
  pub draining : m.draining ≡ l.draining

pub IsSound-same : (l m : Lane) → IsSame l m → IsSound l → IsSound m
IsSound-same l m e s = record {
  filed = rw (e.queues) s.filed;
  flight = rw (e.queues, e.transfer, e.requested, e.locks) s.flight;
  alone = rw (e.draining, e.transfer) s.alone;
}

request_lock-IsSame : (now : ℕ) (t : Task) (l : Lane) → IsSame l (request_lock now t l)
unfolding request_lock
request_lock-IsSame now t l = record {
  queues = ground arith;
  transfer = ground arith;
  requested = ground arith;
  locks = ground arith;
  draining = ground arith;
}

start-IsSound :
    (retry : Bool) (t : Task) (l : Lane)
    → IsFiled l.transfer_queue
    → l.draining ≡ none
    → IsNext l.transfer_queue t
    → t.clear ≡ false
    → IsOurs l.locks t.store
    → IsSound (start retry t l)
unfolding start
start-IsSound retry t l f d n c o = record { filed = f; flight = (n, c, inr o); alone = rw d tt }

-- A lane with nothing in flight nor requested.
pub record IsRest (l : Lane) : Type 0 where
  pub filed : IsFiled l.transfer_queue
  pub nothing : l.transfer ≡ none
  pub requested : l.transfer_requested ≡ false

pub IsAlone-none : (d : Option Drain) (t : Option InFlight) → t ≡ none → IsAlone d t
IsAlone-none none t e = tt
IsAlone-none (some d) t e = e

pub IsRest-IsSound : (l : Lane) → IsRest l → IsSound l
IsRest-IsSound l r = record {
  filed = r.filed;
  flight = rw r.nothing r.requested;
  alone = IsAlone-none l.draining l.transfer r.nothing;
}

pub release-IsRest :
    (now store : ℕ) (l : Lane)
    → IsFiled l.transfer_queue
    → l.transfer_requested ≡ false
    → IsRest (release now store l)
unfolding release
release-IsRest now store l f r = elim (Bool-cases (has_lock store l)) [
  | inl e ↦ rw e (record { filed = f; nothing = refl; requested = r })
  | inr e ↦ rw e (record { filed = f; nothing = refl; requested = r })
]

-- What the trigger that follows a clear is known to do.
abbrev Continues : (ℕ → Lane → Lane) → Type 0
Continues continue = (store : ℕ) (l : Lane) → IsSound l → IsSound (continue store l)

pub is_ours :
    (locks : List (ℕ × Bool)) (store : ℕ)
    → (not (store == macro_store) && not (is_held locks store)) ≡ false
    → IsOurs locks store
is_ours locks store h = elim (Bool-cases (store == macro_store)) [
  | inl e ↦ inl (==→eq store macro_store e)
  | inr e ↦ inr (ground arith)
]

module _ (continue : ℕ → Lane → Lane) (continues : Continues continue) (now : ℕ) where
  advance-IsSound :
      (retry : Bool) (t : Task) (l : Lane)
      → IsSound l
      → l.draining ≡ none
      → IsNext l.transfer_queue t
      → IsSound (advance continue now retry t l)
  unfolding advance
  advance-IsSound retry t l s d n =
      by_test IsSound _ _ _
        (λ e. IsSound-same l (request_lock now t l) (request_lock-IsSame now t l) s)
        (λ ours.
          by_test IsSound _ _ _ (λ e. s)
            (λ idle.
              by_test IsSound _ _ _
                (λ e. continues t.store (release now t.store (dispatch_clear t l)) (
                  IsRest-IsSound (release now t.store (dispatch_clear t l)) (
                    release-IsRest now t.store (dispatch_clear t l)
                      (IsFiled-head t l.transfer_queue s.filed) idle)))
                (λ e. start-IsSound retry t l s.filed d n e (is_ours l.locks t.store ours))))

  choose-IsSound :
      (store : ℕ) (retry : Bool) (l : Lane)
      → IsSound l
      → l.draining ≡ none
      → IsSound (choose continue now store retry l)
  unfolding choose
  choose-IsSound store retry l s d =
      by_option IsSound _ _ _ (λ e. record { filed = s.filed; flight = s.flight; alone = s.alone })
        (λ t e. advance-IsSound retry t l s d (next_task-IsNext store l.transfer_queue t s.filed e))

  gate-IsSound :
      (store : ℕ) (retry : Bool) (l : Lane) → IsSound l → IsSound (gate continue now store retry l)
  unfolding gate
  gate-IsSound store retry l s =
      by_option IsSound l.draining _ _
        (λ idle.
          by_option IsSound l.try_again_due _ _ (λ e. choose-IsSound store retry l s idle)
            (λ due e.
              by_test IsSound (ltb now due) _ _
                (λ early. record { filed = s.filed; flight = s.flight; alone = s.alone })
                (λ late.
                  choose-IsSound store true (record l { try_again_due = none })
                    (record { filed = s.filed; flight = s.flight; alone = s.alone }) idle)))
        (λ dr e. s)

trigger_with-IsSound :
    (fuel now store : ℕ) (retry : Bool) (l : Lane)
    → IsSound l
    → IsSound (trigger_with fuel now store retry l)
unfolding trigger_with
trigger_with-IsSound zero now store retry l s = s
trigger_with-IsSound (suc fuel) now store retry l s =
    gate-IsSound (λ n. trigger_with fuel now n false)
      (λ n m. trigger_with-IsSound fuel now n false m) now store retry l s

pub trigger-IsSound :
    (now store : ℕ) (retry : Bool) (l : Lane) → IsSound l → IsSound (trigger now store retry l)
unfolding trigger
trigger-IsSound now store retry l s =
    trigger_with-IsSound (suc (queued l.transfer_queue)) now store retry l s

pub release_then_continue-IsSound :
    (now store : ℕ) (request_next : Bool) (l : Lane)
    → IsFiled l.transfer_queue
    → l.transfer_requested ≡ false
    → IsSound (release_then_continue now store request_next l)
unfolding release_then_continue
release_then_continue-IsSound now store request_next l f r =
    let released = IsRest-IsSound (release now store l) (release-IsRest now store l f r) in
    by_test IsSound _ _ _ (λ e. released)
      (λ e. trigger-IsSound now store false (release now store l) released)
