-- ===== src/Transfers/Lane.antt =====
-- The state of the transfers of `AtemProtocol` (atemwire/protocol.py, atemwire/_transfer.py), and
-- the changes that its methods share. Times are in milliseconds.
use bmdwire.Prelude.{
  ℕ, Bool, false, Option, none, some, List, [], ◌∷◌, ◌++◌, lookup, assign, contains, ◌==◌,
  if◌then◌else◌,
}

-- The store of the macros, which has no lock.
abbrev pub macro_store : ℕ
macro_store = 0xffff

-- `TransferTask`. `ident` is the object's identity. The attributes that each attempt sets anew are
-- those of `InFlight`, `payload` is `data`; the hash, the name and the description are only passed on.
pub record Task : Type 0 where
  pub ident : ℕ
  pub store : ℕ
  pub slot : ℕ
  pub upload : Bool
  pub clear : Bool
  pub payload : List ℕ
  pub data_length : ℕ

-- `self.transfer`, with the attributes of the attempt.
pub record InFlight : Type 0 where
  pub task : Task
  pub tid : ℕ
  pub metadata_sent : Bool
  pub offset : ℕ

-- The commands that the machinery sends. `file_data` carries the hash, the name and the description
-- of the task.
pub data Command : Type 0 where
  lock : ℕ → Bool → Command
  partial_lock : ℕ → ℕ → Command
  clear_still : ℕ → Command
  download_request : ℕ → ℕ → ℕ → Command
  upload_request : ℕ → ℕ → ℕ → ℕ → ℕ → Command
  file_data : ℕ → Task → Command
  transfer_ack : ℕ → Command
  transfer_data : ℕ → List ℕ → Command

-- The events that it raises.
pub data Raised : Type 0 where
  upload_done : ℕ → ℕ → Raised
  download_done : ℕ → ℕ → List ℕ → Raised
  file_transfer_error : ℕ → Raised
  clear_dispatched : ℕ → ℕ → Raised

-- An entry of `_yielding`.
pub record Yield : Type 0 where
  pub since : ℕ
  pub announced : Option ℕ

-- `_draining`
pub record Drain : Type 0 where
  pub tid : ℕ
  pub store : ℕ
  pub since : ℕ
  pub last : ℕ

-- `transfer_budget`
pub record Budget : Type 0 where
  pub size : ℕ
  pub count : ℕ

-- `try_again` counts by the identity of the task; `sent`, `raised` and `wakes` are the commands sent,
-- the events raised and the calls of `wake_at`, in order.
pub record Lane : Type 0 where
  pub transfer_queue : List (ℕ × List Task)
  pub transfer : Option InFlight
  pub transfer_requested : Bool
  pub transfer_id : ℕ
  pub try_again_due : Option ℕ
  pub try_again : List (ℕ × ℕ)
  pub draining : Option Drain
  pub last_data : Option ℕ
  pub transfer_buffer : List (List ℕ)
  pub transfer_budget : Option Budget
  pub locks : List (ℕ × Bool)
  pub lock_requested : List (ℕ × ℕ)
  pub yielding : List (ℕ × Yield)
  pub foreign_held : List ℕ
  pub own_release : List (ℕ × ℕ)
  pub others_seen : Option ℕ
  pub last_grant : List (ℕ × ℕ)
  pub sent : List Command
  pub raised : List Raised
  pub wakes : List ℕ

-- The part of `__init__` for the transfers, with the random first id. The budget there is `[]`, which
-- no more than None has a chunk cut.
abbrev pub new_lane : ℕ → Lane
new_lane first_transfer_id = record {
  transfer_queue = [];
  transfer = none;
  transfer_requested = false;
  transfer_id = first_transfer_id;
  try_again_due = none;
  try_again = [];
  draining = none;
  last_data = none;
  transfer_buffer = [];
  transfer_budget = none;
  locks = [];
  lock_requested = [];
  yielding = [];
  foreign_held = [];
  own_release = [];
  others_seen = none;
  last_grant = [];
  sent = [];
  raised = [];
  wakes = [];
}

-- `self.locks.get(store)`, as a truth value
abbrev pub is_held : List (ℕ × Bool) → ℕ → Bool
is_held locks store = elim (lookup store locks) [ none ↦ false | some held ↦ held ]

-- `self.transfer_queue.get(store) or []`
abbrev pub queue_of : List (ℕ × List Task) → ℕ → List Task
queue_of queues store = elim (lookup store queues) [ none ↦ [] | some tasks ↦ tasks ]

-- `send_commands`: the commands never fill a packet here.
abbrev pub send : List Command → Lane → Lane
send commands l = record l { sent = l.sent ++ commands }

-- `_raise`; the handlers are the callers' own.
abbrev pub raise : Raised → Lane → Lane
raise event l = record l { raised = l.raised ++ (event ∷ []) }

-- `_wake_at`
abbrev pub wake : ℕ → Lane → Lane
wake when l = record l { wakes = l.wakes ++ (when ∷ []) }

-- `xs.discard(k)` of a set, kept as a list without repetitions
unfoldable pub discard : ℕ → List ℕ → List ℕ
discard k [] = []
discard k (x ∷ xs) = let rest = discard k xs in if x == k then rest else x ∷ rest

-- `xs.add(k)`
abbrev pub add : ℕ → List ℕ → List ℕ
add k xs = if contains xs k then xs else k ∷ xs

-- A task at the end of its store's queue.
abbrev pub append_task : Task → Lane → Lane
append_task t l = record l {
  transfer_queue = assign t.store (queue_of l.transfer_queue t.store ++ (t ∷ [])) l.transfer_queue;
}

-- `queue[0] is task`
abbrev pub is_head : Task → List Task → Bool
is_head t [] = false
is_head t (head ∷ _) = head.ident == t.ident

abbrev pub rest_of : List Task → List Task
rest_of [] = []
rest_of (t ∷ ts) = ts

-- `self.transfer_queue[store] = queue[1:]`
abbrev pub pop_task : ℕ → Lane → Lane
pop_task store l = record l {
  transfer_queue = assign store (rest_of (queue_of l.transfer_queue store)) l.transfer_queue;
}

-- The same, if the task is the queue's head.
abbrev pub pop_head : Task → Lane → Lane
pop_head t l = record l {
  transfer_queue =
      if is_head t (queue_of l.transfer_queue t.store)
      then assign t.store (rest_of (queue_of l.transfer_queue t.store)) l.transfer_queue
      else l.transfer_queue;
}

-- `if store not in self.transfer_queue: self.transfer_queue[store] = []`
abbrev pub open_queue : ℕ → Lane → Lane
open_queue store l = record l {
  transfer_queue = assign store (queue_of l.transfer_queue store) l.transfer_queue;
}
