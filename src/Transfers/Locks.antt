-- ===== src/Transfers/Locks.antt =====
-- The handlers of LKOB and LKST, in `save_field_data` (atemwire/protocol.py).
use bmdwire.Prelude.{
  ℕ, ◌+◌, Bool, true, false, not, ◌&&◌, Option, none, some, is_some, lookup, without, assign,
  is_empty, ltb, if◌then◌else◌,
}
use bmdwire.Transfers.Lane.{Lane, is_held, queue_of, wake, discard, add}
use bmdwire.Transfers.Waiting.{lock_courtesy, lock_echo_window}
use bmdwire.Transfers.Trigger.{trigger}

-- LKOB: the lock is ours.
unfoldable pub lock_obtained : ℕ → ℕ → Lane → Lane
lock_obtained now store l = trigger now store false (record l {
  locks = assign store true l.locks;
  last_grant = assign store now l.last_grant;
  lock_requested = without store l.lock_requested;
})

-- The announcement of a grant of ours may come a frame late.
abbrev pub is_echo : ℕ → Option ℕ → Bool
is_echo now none = false
is_echo now (some granted) = not (ltb (granted + lock_echo_window) now)

-- A store that we were leaving free is another client's now.
abbrev pub lose_turn : ℕ → ℕ → Lane → Lane
lose_turn now store l =
    if is_some (lookup store l.yielding)
    then record l {
      yielding = assign store (record { since = now; announced = none }) l.yielding;
      own_release = without store l.own_release;
    }
    else l

-- LKST, the store taken.
unfoldable pub lock_taken : ℕ → ℕ → Lane → Lane
lock_taken now store l =
    if is_held l.locks store
    then l
    else lose_turn now store (record l {
      foreign_held = add store l.foreign_held;
      others_seen = if is_echo now (lookup store l.last_grant) then l.others_seen else some now;
    })

-- A release announced long after ours is another client's.
abbrev pub is_late : ℕ → Option ℕ → Bool
is_late now none = false
is_late now (some released) = ltb (released + lock_echo_window) now

-- The store is seen free: a turn starts, or the one that runs is announced.
unfoldable pub announce : ℕ → ℕ → Lane → Lane
announce now store l = elim (lookup store l.yielding) [
  | none ↦ record l {
    yielding = assign store (record { since = now; announced = some now }) l.yielding;
    own_release = without store l.own_release;
  }
  | some y ↦ elim y.announced [
    | some _ ↦ l
    | none ↦ record l {
      yielding = assign store (record y { announced = some now }) l.yielding;
      own_release =
          if is_late now (lookup store l.own_release)
          then without store l.own_release
          else l.own_release;
    }
  ]
]

abbrev pub has_queued : ℕ → Lane → Bool
has_queued store l = not (is_empty (queue_of l.transfer_queue store))

abbrev pub wake_for_turn : ℕ → ℕ → Lane → Lane
wake_for_turn now store l = if has_queued store l then wake (now + lock_courtesy) l else l

-- What a release changes, before the request for the store.
unfoldable pub seen_free : ℕ → ℕ → Lane → Lane
seen_free now store l =
    let free =
      wake_for_turn now store
        (announce now store (record l { foreign_held = discard store l.foreign_held })) in
    record free { lock_requested = without store free.lock_requested }

-- LKST, the store released. While we hold it, it is the echo of an earlier release of ours.
unfoldable pub lock_released : ℕ → ℕ → Lane → Lane
lock_released now store l =
    if is_held l.locks store
    then l
    else (let l' = seen_free now store l in
        if has_queued store l' && not l'.transfer_requested then trigger now store false l' else l')
