-- ===== src/Transfers/Chunks.antt =====
-- The data of an upload (atemwire/protocol.py): `_queue_chunks`, `_send_file_metadata`,
-- `_queue_flushed`, and the handler of FTCD. The chunks go to `queue_packet` and are sent by the
-- `drain_queue` at the end, so they count as sent here, in order.
use bmdwire.Prelude.{
  ℕ, zero, suc, ◌+◌, ◌-◌, ◌*◌, ◌/◌, Bool, true, false, not, ◌&&◌, Option, none, some, List, [], ◌∷◌,
  ◌++◌, length, take, drop, ltb, leb, ◌==◌, if◌then◌else◌,
}
use bmdwire.Transfers.Lane.{Lane, InFlight, Budget, Command, file_data, transfer_data}

-- `a == b` on byte strings
unfoldable pub same_bytes : List ℕ → List ℕ → Bool
same_bytes [] [] = true
same_bytes (x ∷ xs) (y ∷ ys) = let rest = same_bytes xs ys in x == y && rest
same_bytes _ _ = false

-- The header of a run, in the encoding of the stills.
abbrev pub marker : List ℕ
marker = 0xfe ∷ 0xfe ∷ 0xfe ∷ 0xfe ∷ 0xfe ∷ 0xfe ∷ 0xfe ∷ 0xfe ∷ []

-- How many bytes of the chunk are left for the next one, so that no run is cut after its header or
-- after its count: `chunk[-8:]` and `chunk[-16:-8]` against the header.
unfoldable pub held_over : List ℕ → ℕ
held_over chunk =
    if same_bytes (drop (length chunk - 8) chunk) marker
    then 8
    else if same_bytes
        (take (length chunk - 8 - (length chunk - 16)) (drop (length chunk - 16) chunk)) marker
    then 16
    else 0

-- The bytes that a chunk takes, of those from the offset on.
unfoldable pub used : ℕ → List ℕ → ℕ
used size rest = size - held_over (take size rest)

-- The loop of `_queue_chunks`: the chunks, the new offset, and what is left of the budget's count.
unfoldable pub cut_chunks : ℕ → ℕ → List ℕ → ℕ → List (List ℕ) × ℕ × ℕ
cut_chunks zero size payload offset = ([], offset, 0)
cut_chunks (suc count) size payload offset =
    let n = used size (drop offset payload) in
    let (chunks, offset', count') = cut_chunks count size payload (offset + n) in
    if leb (length payload) offset
    then ([], offset, suc count)
    else (take n (drop offset payload) ∷ chunks, offset', count')

abbrev pub chunk_commands : ℕ → List (List ℕ) → List Command
chunk_commands tid [] = []
chunk_commands tid (chunk ∷ chunks) = transfer_data tid chunk ∷ chunk_commands tid chunks

-- The budget after the loop: its last chunk ends it.
abbrev pub budget_left : Budget → ℕ → Option Budget
budget_left b left =
    if left == 0 && not (b.count == 0) then none else some (record b { count = left })

-- The chunks of an upload in flight.
unfoldable pub upload_chunks : Budget → InFlight → Lane → Lane
upload_chunks b t l =
    let (chunks, offset, left) = cut_chunks b.count b.size t.task.payload t.offset in
    record l {
      transfer = some (record t { offset = offset });
      transfer_budget = budget_left b left;
      sent = l.sent ++ chunk_commands t.tid chunks;
    }

-- `_queue_chunks`
unfoldable pub queue_chunks : Lane → Lane
queue_chunks l = elim l.transfer_budget [
  | none ↦ l
  | some b ↦ elim l.transfer [
    | none ↦ l
    | some t ↦ if t.task.upload then upload_chunks b t l else l
  ]
]

-- `_send_file_metadata`
abbrev pub send_file_metadata : InFlight → Lane → Lane
send_file_metadata t l = record l {
  transfer = some (record t { metadata_sent = true });
  sent = l.sent ++ (file_data t.tid t.task ∷ []);
}

-- The metadata of an upload that has not sent it.
unfoldable pub metadata_first : Lane → Lane
metadata_first l = elim l.transfer [
  | none ↦ l
  | some t ↦ if t.task.upload && not t.metadata_sent then send_file_metadata t l else l
]

-- The handler of FTCD, a budget: its size is rounded down to whole words.
unfoldable pub continue_data : ℕ → ℕ → Lane → Lane
continue_data size count l = queue_chunks (
    metadata_first
      (record l { transfer_budget = some (record { size = size / 8 * 8; count = count }) }))

-- `_queue_flushed`; `none` is the `TypeError` of a transfer without data, a download.
unfoldable pub queue_flushed : Lane → Option Lane
queue_flushed l = elim l.transfer [
  | none ↦ some l
  | some t ↦
      if not t.task.upload
      then none
      else if ltb t.offset (length t.task.payload)
      then some (queue_chunks l)
      else if t.metadata_sent
      then some l
      else some (send_file_metadata t l)
]
