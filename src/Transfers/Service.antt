-- ===== src/Transfers/Service.antt =====
-- The timed work of the transfers (atemwire/protocol.py): `_service_drain` and `_service_yields`.
use bmdwire.Prelude.{
  ℕ, ◌+◌, min, Bool, true, false, not, ◌||◌, Option, none, some, List, [], ◌∷◌, lookup, contains,
  ltb, leb, if◌then◌else◌,
}
use bmdwire.Transfers.Lane.{Lane, Yield, is_held, wake}
use bmdwire.Transfers.Waiting.{yield_due, end_yield}
use bmdwire.Transfers.Trigger.{trigger}
use bmdwire.Transfers.Fields.{end_drain}
use bmdwire.Transfers.Locks.{has_queued}
use bmdwire.Transfers.Abort.{drain_stall, drain_max}

-- `_service_drain`
unfoldable pub service_drain : ℕ → Lane → Lane
service_drain now l = elim l.draining [
  | none ↦ l
  | some d ↦
      if leb (d.last + drain_stall) now || leb (d.since + drain_max) now
      then end_drain now l
      else wake (min (d.last + drain_stall) (d.since + drain_max)) l
]

-- The store is busy: its release asks for us.
abbrev pub is_taken : ℕ → Lane → Bool
is_taken store l = l.transfer_requested || is_held l.locks store || contains l.foreign_held store

-- One store of the loop of `_service_yields`; the source's `_yield_due` would raise for a store
-- whose yield is gone.
unfoldable pub service_yield : ℕ → ℕ → Lane → Lane
service_yield now store l = elim (lookup store l.yielding) [
  | none ↦ l
  | some y ↦
      let due = yield_due now store y l in
      if not (has_queued store l)
      then (if leb due now then end_yield store l else l)
      else if is_taken store l
      then l
      else if ltb now due
      then wake due l
      else trigger now store false l
]

unfoldable pub service_stores : ℕ → List (ℕ × Yield) → Lane → Lane
service_stores now [] l = l
service_stores now ((store, _) ∷ rest) l = service_stores now rest (service_yield now store l)

abbrev pub is_due : ℕ → Option ℕ → Bool
is_due now none = false
is_due now (some due) = leb due now

-- A retry whose pause is over.
unfoldable pub service_retry : ℕ → Lane → Lane
service_retry now l = elim l.transfer [
  | none ↦ l
  | some t ↦
      if is_due now l.try_again_due
      then trigger now t.task.store true (record l { try_again_due = none })
      else l
]

-- `_service_yields`
unfoldable pub service_yields : ℕ → Lane → Lane
service_yields now l =
    let l' = service_retry now (service_drain now l) in service_stores now l'.yielding l'
