-- ===== src/Transfers/Abort.antt =====
-- The ends of the transfers (atemwire/protocol.py): `abort_transfers`, `release_locks_now` and
-- `_reset_transfer_lane`.
use bmdwire.Prelude.{
  ℕ, ◌+◌, Bool, false, not, ◌&&◌, Option, none, some, is_some, List, [], ◌∷◌, ◌++◌, assign,
  is_empty, ltb, ◌==◌, if◌then◌else◌,
}
use bmdwire.Transfers.Lane.{Lane, InFlight, Command, lock, macro_store, is_held}

-- `DRAIN_STALL` and `DRAIN_MAX`
abbrev pub drain_stall : ℕ
drain_stall = 5000

abbrev pub drain_max : ℕ
drain_max = 120000

-- The locks after the release of those held, but the one kept.
unfoldable pub unlock_but : Option ℕ → List (ℕ × Bool) → List (ℕ × Bool)
unlock_but kept [] = []
unlock_but kept ((store, held) ∷ rest) =
    let rest' = unlock_but kept rest in
    if elim kept [ none ↦ false | some k ↦ store == k ]
    then (store, held) ∷ rest'
    else (store, false) ∷ rest'

-- The stores held, but the one kept.
unfoldable pub held_but : Option ℕ → List (ℕ × Bool) → List ℕ
held_but kept [] = []
held_but kept ((store, held) ∷ rest) =
    let rest' = held_but kept rest in
    if held && not (elim kept [ none ↦ false | some k ↦ store == k ]) then store ∷ rest' else rest'

unfoldable pub unlocks : List ℕ → List Command
unlocks [] = []
unlocks (store ∷ stores) = lock store false ∷ unlocks stores

-- Every store of the list is left its turn.
unfoldable pub yield_all : ℕ → List ℕ → Lane → Lane
yield_all now [] l = l
yield_all now (store ∷ stores) l = yield_all now stores (record l {
  yielding = assign store (record { since = now; announced = none }) l.yielding;
  own_release = assign store now l.own_release;
})

abbrev pub is_flowing : ℕ → Option ℕ → Bool
is_flowing now none = false
is_flowing now (some last) = ltb now (last + drain_stall)

-- The test of `abort_transfers` for a download that the switcher is sending.
unfoldable pub must_drain : ℕ → InFlight → Lane → Bool
must_drain now t l =
    not t.task.upload
    && not t.task.clear
    && not (t.task.store == macro_store)
    && l.transfer_requested
    && is_held l.locks t.task.store
    && is_flowing now l.last_data
    && not (is_some l.draining)

-- What every abort drops.
abbrev pub abandon : Lane → Lane
abandon l = record l {
  transfer_queue = [];
  transfer = none;
  transfer_requested = false;
  try_again_due = none;
  transfer_buffer = [];
}

-- An abort that drains its download.
unfoldable pub abort_and_drain : ℕ → InFlight → Lane → Lane
abort_and_drain now t l =
    let a = abandon l in
    record a {
      draining = some (record { tid = t.tid; store = t.task.store; since = now; last = now });
      lock_requested = [];
      wakes = a.wakes ++ ((now + drain_stall) ∷ []);
      locks = unlock_but (some t.task.store) a.locks;
      sent = a.sent ++ unlocks (held_but (some t.task.store) a.locks);
    }

-- An abort that gives every lock back.
unfoldable pub abort_and_release : ℕ → Lane → Lane
abort_and_release now l =
    let a = abandon l in
    yield_all now (held_but none a.locks) (record a {
      lock_requested = [];
      locks = unlock_but none a.locks;
      sent = a.sent ++ unlocks (held_but none a.locks);
    })

-- `abort_transfers`
unfoldable pub abort_transfers : ℕ → Lane → Lane
abort_transfers now l = elim l.transfer [
  | none ↦ abort_and_release now l
  | some t ↦ if must_drain now t l then abort_and_drain now t l else abort_and_release now l
]

-- `_reset_transfer_lane`: nothing is sent.
unfoldable pub reset_transfer_lane : Lane → Lane
reset_transfer_lane l = record (abandon l) {
  draining = none;
  locks = [];
  lock_requested = [];
  yielding = [];
  own_release = [];
  foreign_held = [];
  last_grant = [];
}

-- `release_locks_now`: the store of the macros is left as it is.
unfoldable pub release_locks_now : Lane → Lane
release_locks_now l =
    let held = held_but (some macro_store) l.locks in
    if is_empty (held_but none l.locks) then l else record l {
      locks = unlock_but (some macro_store) l.locks;
      sent = l.sent ++ unlocks held;
      lock_requested = [];
      yielding = [];
      own_release = [];
    }
