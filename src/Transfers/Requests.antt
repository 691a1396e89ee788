-- ===== src/Transfers/Requests.antt =====
-- What callers ask of the transfers (atemwire/protocol.py): `download`, `queue_clear`,
-- `dequeue_clear` and `upload`.
use bmdwire.Prelude.{
  ℕ, Bool, true, false, not, ◌&&◌, ◌||◌, Option, none, some, List, [], ◌∷◌, length, assign, ◌==◌,
  if◌then◌else◌,
}
use bmdwire.Transfers.Lane.{Lane, Task, queue_of, append_task, open_queue}
use bmdwire.Transfers.Trigger.{trigger}

-- A task at the end of its queue, and the trigger.
unfoldable pub enqueue_task : ℕ → Task → Lane → Lane
enqueue_task now t l = trigger now t.store false (append_task t l)

-- `download`, with the identity of the new task
abbrev pub download_task : ℕ → ℕ → ℕ → Task
download_task ident store slot = record {
  ident = ident;
  store = store;
  slot = slot;
  upload = false;
  clear = false;
  payload = [];
  data_length = 0;
}

unfoldable pub download : ℕ → ℕ → ℕ → ℕ → Lane → Lane
download now ident store slot l = enqueue_task now (download_task ident store slot) l

-- `queue_clear`
unfoldable pub queue_clear : ℕ → ℕ → ℕ → ℕ → Lane → Lane
queue_clear now ident store slot l =
    enqueue_task now (record (download_task ident store slot) { clear = true }) l

-- `upload` from its data: sent as it is or compressed, with the length of what it decodes to; `none`
-- is data that is said to be compressed and does not decode.
unfoldable pub upload_task :
    (List ℕ → List ℕ) → (List ℕ → Option (List ℕ)) → Bool → Bool → ℕ → ℕ → ℕ → List ℕ → Option Task
upload_task rle_encode rle_decode compress compressed ident store slot bytes =
    elim (if compressed then rle_decode bytes else some bytes) [
      | none ↦ none
      | some plain ↦ some (record {
        ident = ident;
        store = store;
        slot = slot;
        upload = true;
        clear = false;
        payload = if compress then rle_encode bytes else bytes;
        data_length = length plain;
      })
    ]

unfoldable pub upload : ℕ → ℕ → Option Task → Lane → Lane
upload now store none l = open_queue store l
upload now store (some t) l = enqueue_task now t l

-- `t is task`: one identity is one object, and `clear` is set when it is made.
abbrev pub is_same : Task → Task → Bool
is_same a b = a.ident == b.ident && (if a.clear then b.clear else not b.clear)

unfoldable pub remove_task : Task → List Task → List Task
remove_task task [] = []
remove_task task (t ∷ ts) =
    let rest = remove_task task ts in if is_same t task then rest else t ∷ rest

unfoldable pub has_task : Task → List Task → Bool
has_task task [] = false
has_task task (t ∷ ts) = is_same t task || has_task task ts

-- `dequeue_clear`
unfoldable pub dequeue_clear : Task → Lane → Bool × Lane
dequeue_clear task l =
    let tasks = queue_of l.transfer_queue task.store in
    if has_task task tasks
    then (
      true,
      record l { transfer_queue = assign task.store (remove_task task tasks) l.transfer_queue },
    )
    else (false, l)
