-- ===== src/Protocol/Commands.antt =====
-- A command (atemwire/messages/_dsl.py) as the other side of the protocol reads it
-- (atemwire/protocol.py).
use mathlib.Core.Path.{subst}
use mathlib.Core.List.{append-nil}
use bmdwire.Prelude.{
  ℕ, ◌+◌, ◌<◌, ◌≡◌, refl, sym, ◌∙◌, ap, true, Option, some, List, [], ◌∷◌, length, take, ltb, ◌>>=◌,
  arith,
}
use bmdwire.Messages.{Layout, Value, get_command, packet_body, codes, padded}
use bmdwire.Messages.Bytes.{length-padded}
use bmdwire.Messages.RoundTrip.{fits}
use bmdwire.Messages.Commands.{is_laid_out, IsPayload, packet_body-IsPayload}
use bmdwire.Protocol.{Wire, Ended, decode_from, decode_packet}
use bmdwire.Protocol.Framing.{frame, IsWire, decode_packet-frame}

-- The field that a command is on the wire
abbrev pub wire_of : Layout → List ℕ → Wire
wire_of c raw = record { code = padded 4 (take 4 (codes c.code)); raw = raw }

get_command-frame :
    (c : Layout) (vs : List (Option Value)) (raw : List ℕ)
    → packet_body c vs ≡ some raw
    → length raw + 8 < 65536
    → get_command c vs ≡ some (frame (wire_of c raw))
unfolding get_command frame
get_command-frame c vs raw e small =
    let in_range : ltb (length raw + 8) 65536 ≡ true = ground arith in rw (e, in_range) refl

one_frame : (w : Wire) → IsWire w → decode_packet (frame w) ≡ (w ∷ [], Ended.finished)
unfolding decode_packet decode_from
one_frame w h = ap decode_packet (sym (append-nil (frame w))) ∙ decode_packet-frame w [] h

-- For a class whose fields and mask have bytes of their own and whose size fits a packet, and values
-- that pack into its fields: `get_command` makes a packet that `decode_packet` takes apart again into
-- one field, with the class's code, and a payload in which a reader sees each value that was given as
-- its field shows it (for a field with a factor the value times the factor, rounded to an integer,
-- over the factor; else an integer as it is, the truth of a value, or the text of its UTF-8 bytes cut
-- to the field's size and to the first NUL, with U+FFFD for bytes that are no character).
pub decode_packet-get_command :
    (c : Layout) (vs : List (Option Value))
    → is_laid_out c ≡ true
    → fits c.fields vs ≡ true
    → c.size + 8 < 65536
    → (raw : List ℕ) × IsPayload c vs raw
      × ((get_command c vs >>= λ out. some (decode_packet out))
          ≡ some (wire_of c raw ∷ [], Ended.finished))
decode_packet-get_command c vs laid_out f small =
    let (raw, p) = packet_body-IsPayload c vs laid_out f in
    let short : length raw + 8 < 65536 = subst (λ n. n + 8 < 65536) (sym p.long) small in
    (
      raw,
      p,
      rw (get_command-frame c vs raw p.made short)
          (ap some (one_frame (wire_of c raw) (length-padded 4 (take 4 (codes c.code)), short))),
    )
