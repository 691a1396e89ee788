-- ===== src/Transfers/Waiting.antt =====
-- The turns of other clients at a store (atemwire/protocol.py): when it may be asked for again.
use bmdwire.Prelude.{
  ℕ, ◌+◌, Bool, false, not, ◌&&◌, Option, none, some, is_some, List, [], ◌∷◌, ◌++◌, lookup, without,
  assign, ltb, ◌==◌, if◌then◌else◌,
}
use bmdwire.Transfers.Lane.{Lane, Yield, macro_store, is_held, lock}

-- `LOCK_REREQUEST_SECONDS`, `LOCK_COURTESY`, `LOCK_QUIET`, `LOCK_HANDOVER` and `LOCK_ECHO_WINDOW`
abbrev pub lock_rerequest : ℕ
lock_rerequest = 1000

abbrev pub lock_courtesy : ℕ
lock_courtesy = 60

abbrev pub lock_quiet : ℕ
lock_quiet = 10000

abbrev pub lock_handover : ℕ
lock_handover = 100

abbrev pub lock_echo_window : ℕ
lock_echo_window = 250

-- `_others_recently`
abbrev pub others_recently : ℕ → Option ℕ → Bool
others_recently now none = false
others_recently now (some seen) = ltb now (seen + lock_quiet)

-- When a turn is over, by when it was announced, our own last release, and when others were seen.
unfoldable pub due_at : ℕ → Yield → Option ℕ → Option ℕ → ℕ
due_at now y own_release others_seen = elim y.announced [
  | none ↦ y.since + lock_quiet
  | some announced ↦
      if is_some own_release && others_recently now others_seen
      then announced + lock_courtesy + lock_handover
      else announced + lock_courtesy
]

-- `_yield_due`
abbrev pub yield_due : ℕ → ℕ → Yield → Lane → ℕ
yield_due now store y l = due_at now y (lookup store l.own_release) l.others_seen

-- `_end_yield`
abbrev pub end_yield : ℕ → Lane → Lane
end_yield store l = record l {
  yielding = without store l.yielding;
  own_release = without store l.own_release;
}

-- The loop of `_someone_at_work`
unfoldable pub push_back : ℕ → List (ℕ × Yield) → List (ℕ × Yield)
push_back now [] = []
push_back now ((store, y) ∷ rest) = elim y.announced [
  | none ↦ (store, record y { since = now }) ∷ push_back now rest
  | some _ ↦ (store, y) ∷ push_back now rest
]

-- `_someone_at_work`
abbrev pub someone_at_work : ℕ → Lane → Lane
someone_at_work now l = record l { others_seen = some now; yielding = push_back now l.yielding }

-- The release of `_release_then_continue`: the store is given back, and left its turn.
abbrev pub give_back : ℕ → ℕ → Lane → Lane
give_back now store l = record l {
  locks = assign store false l.locks;
  sent = l.sent ++ (lock store false ∷ []);
  yielding = assign store (record { since = now; announced = none }) l.yielding;
  own_release = assign store now l.own_release;
}

-- `store != 0xffff and self.locks.get(store)`
abbrev pub has_lock : ℕ → Lane → Bool
has_lock store l = not (store == macro_store) && is_held l.locks store

-- A request younger than `LOCK_REREQUEST_SECONDS` is on the wire.
abbrev pub is_asked : ℕ → Option ℕ → Bool
is_asked now none = false
is_asked now (some asked) = ltb now (asked + lock_rerequest)
