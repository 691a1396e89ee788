-- ===== src/Protocol.antt =====
-- The fields of a packet (atemwire/protocol.py): `decode_packet`, `_save_field_guarded`, the turn of
-- `loop` for a packet, and `_check_dump_complete`.
pub mod Framing
pub mod Turn
pub mod Dump
pub mod Commands
mod Tests
use bmdwire.Prelude.{
  ℕ, zero, suc, ◌+◌, ◌-◌, ◌*◌, Bool, true, false, not, Option, none, some, List, [], ◌∷◌, ◌++◌,
  length, take, drop, ltb, ◌==◌, if◌then◌else◌,
}
use bmdwire.Messages.{of16, be16}

-- A field: its code and its contents.
pub record Wire : Type 0 where
  pub code : List ℕ
  pub raw : List ℕ

-- How `decode_packet` ends: at the end of the data, with the `ConnectionError` of a zero length, or
-- with the `struct.error` of a header that is cut off.
pub data Ended : Type 0 where
  finished zero_length cut_off : Ended

-- The loop of `decode_packet` on the data from the offset on: what it yields, and how it ends. A
-- length below 8 gives an empty field, and one beyond the end a field cut short.
unfoldable pub decode_from : ℕ → List ℕ → List Wire × Ended
decode_from zero rest = ([], Ended.finished)
decode_from (suc fuel) [] = ([], Ended.finished)
decode_from (suc fuel) (b ∷ bs) =
    let rest = b ∷ bs in
    let datalen = of16 rest in
    let (wires, ended) = decode_from fuel (drop datalen rest) in
    if ltb (length rest) 8
    then ([], Ended.cut_off)
    else if datalen == 0
    then ([], Ended.zero_length)
    else (
      record { code = take 4 (drop 4 rest); raw = take (datalen - 8) (drop 8 rest) } ∷ wires,
      ended,
    )

-- `decode_packet`: each field takes a byte at least.
unfoldable pub decode_packet : List ℕ → List Wire × Ended
decode_packet bytes = decode_from (length bytes) bytes

-- What became of a field: it was handled, an exception was logged and the field dropped, or a
-- `ConnectionError` was raised.
pub data Saved : Type 0 where
  kept dropped broken : Saved

-- How a packet ends: with all its fields, with a new session, or with an exception that leaves `loop`.
pub data Outcome : Type 0 where
  done restarted escaped : Outcome

abbrev pub outcome_of : Ended → Outcome
outcome_of Ended.finished = Outcome.done
outcome_of Ended.zero_length = Outcome.restarted
outcome_of Ended.cut_off = Outcome.escaped

-- The end of the turn: a `ConnectionError` is followed by `restart`, which resets the state and
-- connects anew.
abbrev pub turn_end : {S : Type 0} → (S → S) → Outcome → S → S × Outcome
turn_end restart Outcome.done s = (s, Outcome.done)
turn_end restart Outcome.restarted s = (restart s, Outcome.restarted)
turn_end restart Outcome.escaped s = (s, Outcome.escaped)

-- The loop over the fields of a packet, each saved before the next is decoded. `save` is
-- `save_field_data` with the exception that it raised, on the state of the protocol.
module _ {S : Type 0} (save : Wire → S → S × Saved) where
  unfoldable pub save_fields : List Wire → Ended → S → S × Outcome
  save_fields [] ended s = (s, outcome_of ended)
  save_fields (w ∷ ws) ended s =
      let (s', saved) = save w s in
      let rest = save_fields ws ended s' in
      elim saved [
        | Saved.kept ↦ rest
        | Saved.dropped ↦ rest
        | Saved.broken ↦ (s', Outcome.restarted)
      ]

  -- The turn of `loop` for a packet
  unfoldable pub packet_turn : (S → S) → List ℕ → S → S × Outcome
  packet_turn restart bytes s =
      let fields = decode_packet bytes in
      let saved = save_fields fields.0 fields.1 s in turn_end restart saved.1 saved.0
