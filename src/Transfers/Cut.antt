-- ===== src/Transfers/Cut.antt =====
-- The chunks that `_queue_chunks` (atemwire/protocol.py) cuts from the data of an upload.
use bmdwire.Prelude.{ℕ, ◌+◌, ◌-◌, ◌*◌, ◌≤◌, ◌≡◌, ◌⊎◌, List, ◌++◌, length, drop, All}
use bmdwire.Transfers.Fields.{join}

-- The chunks are the data from the old offset to the new one; each is at most of the size; with what
-- is left they are the budget's count; each takes the offset on by what a chunk holds at least; and
-- only the end of the data or of the budget stops them.
pub record IsCut (count size : ℕ) (payload : List ℕ) (offset : ℕ) (r : List (List ℕ) × ℕ × ℕ)
    : Type 0 where
  pub joined : join r.0 ++ drop r.1 payload ≡ drop offset payload
  pub sized : All (λ chunk. length chunk ≤ size) r.0
  pub counted : length r.0 + r.2 ≡ count
  pub advanced : offset + length r.0 * (size - 16) ≤ r.1
  pub ended : (r.2 ≡ 0) ⊎ (length payload ≤ r.1)
