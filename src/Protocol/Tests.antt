-- ===== src/Protocol/Tests.antt =====
-- Packets and dumps (atemwire/protocol.py) at concrete inputs.
use bmdwire.Prelude.{
  ℕ, ◌+◌, ◌≡◌, inl, inr, refl, true, false, Option, some, List, [], ◌∷◌, ◌++◌, length, ◌==◌,
  if◌then◌else◌, ◌>>=◌, arith,
}
use bmdwire.Messages.{Value, pos, number, truth, has_scale, to_wire, bytes_in, encode, get_command}
use bmdwire.Messages.RoundTrip.{fits, is_apart, is_clear}
use bmdwire.Messages.Commands.{is_laid_out, IsPayload}
use bmdwire.Messages.Layouts.Lock.{lock_command}
use bmdwire.Protocol.{
  Wire, Ended, Saved, decode_packet, decode_from, outcome_of, packet_turn, turn_end,
}
use bmdwire.Protocol.Framing.{frames, decode_packet-frames}
use bmdwire.Protocol.Turn.{save_each, packet_turn-frames}
use bmdwire.Protocol.Dump.{carries_on, carries_on-enough}
use bmdwire.Protocol.Commands.{wire_of, decode_packet-get_command}

-- Two fields, and the start of a third whose length is zero.
abbrev two_wires : List Wire
two_wires =
    record { code = 76 ∷ 75 ∷ 79 ∷ 66 ∷ []; raw = 0 ∷ 3 ∷ [] }
    ∷ record { code = 73 ∷ 110 ∷ 67 ∷ 109 ∷ []; raw = [] }
    ∷ []

abbrev zero_header : List ℕ
zero_header = 0 ∷ 0 ∷ 0 ∷ 0 ∷ 0 ∷ 0 ∷ 0 ∷ 0 ∷ []

-- Counts the fields; one of two bytes does not parse.
abbrev count_fields : Wire → ℕ → ℕ × Saved
count_fields w n = (n + 1, if length w.raw == 2 then Saved.dropped else Saved.kept)

abbrev release_of_stills : List (Option Value)
release_of_stills = some (number (pos 0)) ∷ some (truth false) ∷ []

decode_packet-frames_example :
    decode_packet (frames two_wires ++ zero_header)
    ≡ (two_wires ++ (decode_packet zero_header).0, (decode_packet zero_header).1)
decode_packet-frames_example =
    decode_packet-frames two_wires zero_header ((refl, omega arith), ((refl, omega arith), tt))

packet_turn-frames_example :
    packet_turn count_fields (λ n. 0) (frames two_wires ++ zero_header) 0
    ≡ turn_end
        (λ n. 0)
        (outcome_of (decode_packet zero_header).1)
        (save_each count_fields two_wires 0)
unfolding decode_packet decode_from
packet_turn-frames_example =
    packet_turn-frames count_fields (λ n. 0) two_wires zero_header 0
      ((refl, omega arith), ((refl, omega arith), tt)) refl (inr refl, (inl refl, tt))

carries_on-enough_example : carries_on (false ∷ false ∷ false ∷ false ∷ []) 0 ≡ true
carries_on-enough_example =
    carries_on-enough (false ∷ false ∷ false ∷ false ∷ []) 0 (omega arith) (omega arith)

decode_packet-get_command_example :
    (raw : List ℕ) × IsPayload lock_command release_of_stills raw
    × ((get_command lock_command release_of_stills >>= λ out. some (decode_packet out))
        ≡ some (wire_of lock_command raw ∷ [], Ended.finished))
unfolding fits bytes_in to_wire has_scale encode is_laid_out is_apart is_clear
decode_packet-get_command_example =
    decode_packet-get_command lock_command release_of_stills refl refl (omega arith)
