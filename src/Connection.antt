-- ===== src/Connection.antt =====
-- The commands that wait on a connection (atemwire/connection.py): `_drain_cmd_queue`.
pub mod Batches
mod Tests
use bmdwire.Prelude.{
  ℕ, ◌+◌, Bool, true, false, not, ◌&&◌, Option, none, some, List, [], ◌∷◌, ◌++◌, ltb, is_empty,
  if◌then◌else◌,
}

-- `BUDGET`
abbrev pub budget : ℕ
budget = 1200

-- `send_commands` raises for longer data.
abbrev pub is_accepted : ℕ → Bool
is_accepted size = not (ltb 1300 size)

-- A command: its identity, and the length of what `get_command` renders, `none` if it raises.
pub record Command : Type 0 where
  pub ident : ℕ
  pub size : Option ℕ

-- A command that is sent, with its size; the others are logged and dropped.
abbrev pub sendable : Option ℕ → Option ℕ
sendable none = none
sendable (some size) = if ltb budget size then none else some size

-- The loop that cuts the commands into batches: the batch so far, and its size.
unfoldable pub cut_batches : List Command → ℕ → List Command → List (List Command)
cut_batches batch total [] = if is_empty batch then [] else batch ∷ []
cut_batches batch total (c ∷ cs) = elim (sendable c.size) [
  | none ↦ cut_batches batch total cs
  | some size ↦
      let closed = cut_batches (c ∷ []) size cs in
      let longer = cut_batches (batch ++ (c ∷ [])) (total + size) cs in
      if not (is_empty batch) && ltb budget (total + size) then batch ∷ closed else longer
]

-- `chunks`, for the commands taken off the queue
abbrev pub batches : List Command → List (List Command)
batches pending = cut_batches [] 0 pending
