-- ===== src/Transfers/Fields.antt =====
-- The handlers of the switcher's messages about transfers, in `save_field_data`
-- (atemwire/protocol.py): FTDa, FTDE and FTDC.
use bmdwire.Prelude.{
  ℕ, ◌+◌, ◌-◌, ◌*◌, ◌^◌, min, Bool, true, false, Option, none, some, List, [], ◌∷◌, ◌++◌, lookup,
  without, assign, ltb, ◌==◌, if◌then◌else◌,
}
use bmdwire.Transfers.Lane.{
  Lane, Task, InFlight, Drain, transfer_ack, upload_done, download_done, file_transfer_error, send,
  raise, wake, pop_task, pop_head,
}
use bmdwire.Transfers.Waiting.{someone_at_work}
use bmdwire.Transfers.Trigger.{trigger, release_then_continue}

-- `_end_drain`
unfoldable pub end_drain : ℕ → Lane → Lane
end_drain now l = elim l.draining [
  | none ↦ l
  | some d ↦ release_then_continue now d.store true (record l { draining = none })
]

abbrev pub is_drained : ℕ → Option Drain → Bool
is_drained tid none = false
is_drained tid (some d) = d.tid == tid

abbrev pub hear_drain : ℕ → Option Drain → Option Drain
hear_drain now none = none
hear_drain now (some d) = some (record d { last = now })

-- FTDa: a chunk of a download is acknowledged, and an abandoned one's is dropped.
unfoldable pub file_chunk : ℕ → ℕ → List ℕ → Lane → Lane
file_chunk now tid chunk l =
    if is_drained tid l.draining
    then send (transfer_ack tid ∷ []) (record l { draining = hear_drain now l.draining })
    else elim l.transfer [
      | none ↦ l
      | some t ↦
          if tid == t.tid
          then send (transfer_ack tid ∷ []) (record l {
            last_data = some now;
            transfer_buffer = l.transfer_buffer ++ (chunk ∷ []);
          })
          else l
    ]

-- `_fail_transfer`: the task goes, and its lock is given back.
unfoldable pub fail_transfer : ℕ → ℕ → Lane → Lane
fail_transfer now status l = raise (file_transfer_error status) (elim l.transfer [
  | none ↦ record l { try_again_due = none }
  | some t ↦
      release_then_continue now t.task.store true
        (record (pop_head t.task l) { try_again_due = none; transfer = none; transfer_buffer = [] })
])

-- `TRY_AGAIN_FIRST`, `TRY_AGAIN_MAX` and `TRY_AGAIN_ATTEMPTS`
abbrev pub try_again_first : ℕ
try_again_first = 50

abbrev pub try_again_max : ℕ
try_again_max = 1000

abbrev pub try_again_attempts : ℕ
try_again_attempts = 20

abbrev pub tries_of : ℕ → List (ℕ × ℕ) → ℕ
tries_of ident counts = elim (lookup ident counts) [ none ↦ 0 | some n ↦ n ]

-- The pause before the given attempt.
unfoldable pub pause : ℕ → ℕ
pause tries = min try_again_max (try_again_first * 2 ^ (tries - 1))

-- FTDE 1, try again.
unfoldable pub refuse : ℕ → InFlight → Lane → Lane
refuse now t l =
    let tries = tries_of t.task.ident l.try_again + 1 in
    let l' = record l { try_again = assign t.task.ident tries l.try_again } in
    if ltb try_again_attempts tries
    then fail_transfer now 1 l'
    else wake (now + pause tries) (record l' { try_again_due = some (now + pause tries) })

-- FTDE for the transfer in flight, by its status: 5 is a lock that is not ours after all, and 6
-- another session's request.
unfoldable pub transfer_failed : ℕ → ℕ → InFlight → Lane → Lane
transfer_failed now status t l =
    let store = t.task.store in
    if status == 1
    then refuse now t l
    else if status == 5
    then trigger now store true (record l { locks = assign store false l.locks })
    else if status == 6
    then release_then_continue now store false
        (record l { lock_requested = without store l.lock_requested; others_seen = some now })
    else fail_transfer now status l

-- FTDE
unfoldable pub transfer_error : ℕ → ℕ → ℕ → Lane → Lane
transfer_error now tid status l =
    if is_drained tid l.draining then end_drain now l else elim l.transfer [
      | none ↦ l
      | some t ↦
          if tid == t.tid
          then transfer_failed now status t (record l { transfer_requested = false })
          else l
    ]

abbrev pub join : List (List ℕ) → List ℕ
join [] = []
join (xs ∷ xss) = xs ++ join xss

-- What the end of a transfer announces: a still is decoded, and one that does not decode announces
-- nothing.
unfoldable pub announce_done : (List ℕ → Option (List ℕ)) → Task → List ℕ → Lane → Lane
announce_done rle_decode t raw l =
    if t.upload
    then raise (upload_done t.store t.slot) l
    else if t.store == 0
    then elim (rle_decode raw) [
      | none ↦ l
      | some pixels ↦ raise (download_done t.store t.slot pixels) l
    ]
    else raise (download_done t.store t.slot raw) l

-- FTDC of the transfer in flight.
unfoldable pub finish : (List ℕ → Option (List ℕ)) → ℕ → Task → Lane → Lane
finish rle_decode now t l = announce_done rle_decode t (join l.transfer_buffer) (
    release_then_continue now t.store true
      (record (pop_task t.store l) { transfer_buffer = []; transfer_requested = false }))

-- FTDC; another session's means that it is at work.
unfoldable pub data_complete : (List ℕ → Option (List ℕ)) → ℕ → ℕ → Lane → Lane
data_complete rle_decode now tid l =
    if is_drained tid l.draining then end_drain now l else elim l.transfer [
      | none ↦ someone_at_work now l
      | some t ↦ if tid == t.tid then finish rle_decode now t.task l else someone_at_work now l
    ]
