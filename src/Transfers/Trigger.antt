-- ===== src/Transfers/Trigger.antt =====
-- `_transfer_trigger` and `_release_then_continue` (atemwire/protocol.py): the next step of the
-- transfers. Each calls the other, after a clear has taken a task from its queue: the number of
-- tasks queued, and one more, is fuel enough.
use bmdwire.Prelude.{
  ℕ, zero, suc, ◌+◌, ◌%◌, Bool, true, false, not, ◌&&◌, Option, none, some, List, [], ◌∷◌, ◌++◌,
  length, lookup, assign, contains, ltb, ◌==◌, if◌then◌else◌,
}
use bmdwire.Transfers.Lane.{
  Lane, Task, Command, lock, partial_lock, clear_still, download_request, upload_request, file_data,
  clear_dispatched, macro_store, is_held, queue_of, send, raise, wake, pop_head,
}
use bmdwire.Transfers.Waiting.{yield_due, end_yield, give_back, has_lock, is_asked}

-- The first task of the first queue that has one.
unfoldable pub first_queued : List (ℕ × List Task) → Option Task
first_queued [] = none
first_queued ((store, tasks) ∷ rest) =
    let later = first_queued rest in elim tasks [ [] ↦ later | t ∷ _ ↦ some t ]

-- The preferred queue, then any queue.
unfoldable pub next_task : ℕ → List (ℕ × List Task) → Option Task
next_task store queues = elim (queue_of queues store) [ [] ↦ first_queued queues | t ∷ _ ↦ some t ]

-- The releases of the stores held.
unfoldable pub releases : List (ℕ × Bool) → List Command
releases [] = []
releases ((store, held) ∷ rest) =
    let later = releases rest in if held then lock store false ∷ later else later

-- "All transfers done, clean locks": the locks stay marked as held.
abbrev pub clean_locks : Lane → Lane
clean_locks l = send (releases l.locks) l

-- The request for the lock, full for a clear.
abbrev pub lock_request : Task → Command
lock_request t = if t.clear then lock t.store true else partial_lock t.store t.slot

abbrev pub ask : ℕ → Task → Lane → Lane
ask now t l = if is_asked now (lookup t.store l.lock_requested) then l else record l {
  lock_requested = assign t.store now l.lock_requested;
  sent = l.sent ++ (lock_request t ∷ []);
}

-- "Request a lock if needed": not in another client's turn, nor in the one that we leave free.
unfoldable pub request_lock : ℕ → Task → Lane → Lane
request_lock now t l =
    if contains l.foreign_held t.store then l else elim (lookup t.store l.yielding) [
      | none ↦ ask now t l
      | some y ↦
          let due = yield_due now t.store y l in
          if ltb now due then wake due l else ask now t (end_yield t.store l)
    ]

-- The requests of a transfer with its id: an empty upload has its metadata sent with it.
abbrev pub upload_mode : ℕ → ℕ
upload_mode store = if store == macro_store then 0x0300 else 1

unfoldable pub requests : ℕ → Task → List Command
requests tid t =
    if t.upload
    then upload_request tid t.store t.slot t.data_length (upload_mode t.store)
      ∷ (if t.data_length == 0 then file_data tid t ∷ [] else [])
    else download_request tid t.store t.slot ∷ []

-- "Assign a transfer id and start the transfer": a new id, in 1..0xFFFF, or the last one's again.
abbrev pub attempt_id : Bool → ℕ → ℕ
attempt_id retry last = if retry then last else last % 0xffff + 1

unfoldable pub start : Bool → Task → Lane → Lane
start retry t l =
    let tid = attempt_id retry l.transfer_id in
    record l {
      transfer_id = tid;
      transfer = some (record {
        task = t;
        tid = tid;
        metadata_sent = t.upload && t.data_length == 0;
        offset = 0;
      });
      transfer_buffer = if t.upload then l.transfer_buffer else [];
      transfer_requested = true;
      last_data = none;
      sent = l.sent ++ requests tid t;
    }

-- The release of a store that is held, and nothing in flight any more.
unfoldable pub release : ℕ → ℕ → Lane → Lane
release now store l =
    let ended = record l { transfer = none } in
    if has_lock store l then give_back now store ended else ended

-- A clear, with the lock held: its task leaves the queue, and the command goes out.
abbrev pub dispatch_clear : Task → Lane → Lane
dispatch_clear t l =
    raise (clear_dispatched t.store t.slot) (send (clear_still t.slot ∷ []) (pop_head t l))

-- The part of `_transfer_trigger` from the choice of the task on; `continue` is the trigger that
-- follows a clear.
unfoldable pub advance : (ℕ → Lane → Lane) → ℕ → Bool → Task → Lane → Lane
advance continue now retry t l =
    if not (t.store == macro_store) && not (is_held l.locks t.store)
    then request_lock now t l
    else if l.transfer_requested
    then l
    else if t.clear
    then continue t.store (release now t.store (dispatch_clear t l))
    else start retry t l

-- The part of `_transfer_trigger` after its two tests.
unfoldable pub choose : (ℕ → Lane → Lane) → ℕ → ℕ → Bool → Lane → Lane
choose continue now store retry l = elim (next_task store l.transfer_queue) [
  | none ↦ clean_locks l
  | some t ↦ advance continue now retry t l
]

-- The tests of `_transfer_trigger`: an abandoned download, and a pause before a retry.
unfoldable pub gate : (ℕ → Lane → Lane) → ℕ → ℕ → Bool → Lane → Lane
gate continue now store retry l = elim l.draining [
  | some _ ↦ l
  | none ↦ elim l.try_again_due [
    | none ↦ choose continue now store retry l
    | some due ↦
        if ltb now due
        then wake due l
        else choose continue now store true (record l { try_again_due = none })
  ]
]

-- `_transfer_trigger`, with fuel for the clears
unfoldable pub trigger_with : ℕ → ℕ → ℕ → Bool → Lane → Lane
trigger_with zero now store retry l = l
trigger_with (suc fuel) now store retry l =
    gate (λ s. trigger_with fuel now s false) now store retry l

-- The number of tasks queued.
unfoldable pub queued : List (ℕ × List Task) → ℕ
queued [] = 0
queued ((store, tasks) ∷ rest) = length tasks + queued rest

-- `_transfer_trigger`
unfoldable pub trigger : ℕ → ℕ → Bool → Lane → Lane
trigger now store retry l = trigger_with (suc (queued l.transfer_queue)) now store retry l

-- `_release_then_continue`; without `request_next` a release is not followed by a request.
unfoldable pub release_then_continue : ℕ → ℕ → Bool → Lane → Lane
release_then_continue now store request_next l =
    let released = release now store l in
    if has_lock store l && not request_next then released else trigger now store false released
