-- ===== src/Transfers/Run.antt =====
-- The whole of the transfers: every event that `AtemProtocol` (atemwire/protocol.py) handles, in any
-- order, from a new protocol.
use bmdwire.Prelude.{ℕ, refl, Bool, true, false, Option, none, some, List, [], ◌∷◌}
use bmdwire.Transfers.Lane.{Lane, Task, new_lane}
use bmdwire.Transfers.Chunks.{continue_data, queue_flushed}
use bmdwire.Transfers.Fields.{file_chunk, transfer_error, data_complete}
use bmdwire.Transfers.Locks.{lock_obtained, lock_taken, lock_released}
use bmdwire.Transfers.Requests.{download, download_task, queue_clear, upload, dequeue_clear}
use bmdwire.Transfers.Abort.{abort_transfers, reset_transfer_lane}
use bmdwire.Transfers.Service.{service_yields}
use bmdwire.Transfers.Sound.{IsSound}
use bmdwire.Transfers.Handled.{
  lock_obtained-IsSound, lock_taken-IsSound, lock_released-IsSound, continue_data-IsSound,
  file_chunk-IsSound,
}
use bmdwire.Transfers.Ended.{
  transfer_error-IsSound, data_complete-IsSound, queue_flushed-IsSound, IsSoundIf,
}
use bmdwire.Transfers.Asked.{
  enqueue_task-IsSound, upload-IsSound, dequeue_clear-IsSound, abort_transfers-IsSound,
  reset_transfer_lane-IsSound, service_yields-IsSound,
}

-- What happens to the lane: the switcher's fields (LKOB, LKST, FTCD, FTDa, FTDE, FTDC), the markers of
-- the transport (the queue flushed, a wakeup), and what the callers ask. A clear is taken back by the
-- task that `queue_clear` returned.
pub data Happening : Type 0 where
  obtained : ℕ → Happening
  lock_state : ℕ → Bool → Happening
  budget : ℕ → ℕ → Happening
  chunk : ℕ → List ℕ → Happening
  failed : ℕ → ℕ → Happening
  completed : ℕ → Happening
  flushed : Happening
  wakeup : Happening
  downloading : ℕ → ℕ → ℕ → Happening
  clearing : ℕ → ℕ → ℕ → Happening
  uploading : ℕ → Option Task → Happening
  taken_back : ℕ → ℕ → ℕ → Happening
  aborted : Happening
  reset : Happening

-- The task of a clear
abbrev pub clear_task : ℕ → ℕ → ℕ → Task
clear_task ident store slot = record (download_task ident store slot) { clear = true }

abbrev pub or_else : Lane → Option Lane → Lane
or_else l none = l
or_else l (some l') = l'

-- One event; the `TypeError` of `_queue_flushed` comes before any change.
unfoldable pub handle : (List ℕ → Option (List ℕ)) → ℕ → Happening → Lane → Lane
handle rle_decode now (obtained store) l = lock_obtained now store l
handle rle_decode now (lock_state store true) l = lock_taken now store l
handle rle_decode now (lock_state store false) l = lock_released now store l
handle rle_decode now (budget size count) l = continue_data size count l
handle rle_decode now (chunk tid bytes) l = file_chunk now tid bytes l
handle rle_decode now (failed tid status) l = transfer_error now tid status l
handle rle_decode now (completed tid) l = data_complete rle_decode now tid l
handle rle_decode now flushed l = or_else l (queue_flushed l)
handle rle_decode now wakeup l = service_yields now l
handle rle_decode now (downloading ident store slot) l = download now ident store slot l
handle rle_decode now (clearing ident store slot) l = queue_clear now ident store slot l
handle rle_decode now (uploading store t) l = upload now store t l
handle rle_decode now (taken_back ident store slot) l =
    (dequeue_clear (clear_task ident store slot) l).1
handle rle_decode now aborted l = abort_transfers now l
handle rle_decode now reset l = reset_transfer_lane l

unfoldable pub run : (List ℕ → Option (List ℕ)) → List (ℕ × Happening) → Lane → Lane
run rle_decode [] l = l
run rle_decode ((now, h) ∷ rest) l = run rle_decode rest (handle rle_decode now h l)

or_else-IsSound : (l : Lane) (o : Option Lane) → IsSound l → IsSoundIf o → IsSound (or_else l o)
or_else-IsSound l none s t = s
or_else-IsSound l (some l') s t = t

module _ (rle_decode : List ℕ → Option (List ℕ)) where
  handle-IsSound :
      (now : ℕ) (h : Happening) (l : Lane) → IsSound l → IsSound (handle rle_decode now h l)
  unfolding handle download queue_clear
  handle-IsSound now (obtained store) l s = lock_obtained-IsSound now store l s
  handle-IsSound now (lock_state store true) l s = lock_taken-IsSound now store l s
  handle-IsSound now (lock_state store false) l s = lock_released-IsSound now store l s
  handle-IsSound now (budget size count) l s = continue_data-IsSound size count l s
  handle-IsSound now (chunk tid bytes) l s = file_chunk-IsSound now tid bytes l s
  handle-IsSound now (failed tid status) l s = transfer_error-IsSound now tid status l s
  handle-IsSound now (completed tid) l s = data_complete-IsSound rle_decode now tid l s
  handle-IsSound now flushed l s = or_else-IsSound l (queue_flushed l) s (queue_flushed-IsSound l s)
  handle-IsSound now wakeup l s = service_yields-IsSound now l s
  handle-IsSound now (downloading ident store slot) l s =
      enqueue_task-IsSound now (download_task ident store slot) l s
  handle-IsSound now (clearing ident store slot) l s =
      enqueue_task-IsSound now (clear_task ident store slot) l s
  handle-IsSound now (uploading store t) l s = upload-IsSound now store t l s
  handle-IsSound now (taken_back ident store slot) l s =
      dequeue_clear-IsSound (clear_task ident store slot) l refl s
  handle-IsSound now aborted l s = abort_transfers-IsSound now l
  handle-IsSound now reset l s = reset_transfer_lane-IsSound l

  run-keeps :
      (events : List (ℕ × Happening)) (l : Lane) → IsSound l → IsSound (run rle_decode events l)
  unfolding run
  run-keeps [] l s = s
  run-keeps ((now, h) ∷ rest) l s = run-keeps rest _ (handle-IsSound now h l s)

  -- From a new protocol, whatever events come in whatever order and at whatever times: each task
  -- stands in the one queue of its store; a transfer in flight is of the task at the head of its
  -- store's queue, and is no clear; one that was requested, and not answered yet, is for a store whose
  -- lock counts as held, or for the macros; with nothing in flight nothing counts as requested; and no
  -- transfer is in flight beside an abandoned download that drains. This holds after every event,
  -- the clean-up of the locks at the end of the queues included.
  pub run-IsSound :
      (first_transfer_id : ℕ) (events : List (ℕ × Happening))
      → IsSound (run rle_decode events (new_lane first_transfer_id))
  run-IsSound first_transfer_id events =
      run-keeps events (new_lane first_transfer_id)
        (record { filed = tt; flight = refl; alone = tt })
