-- ===== src/Protocol/Turn.antt =====
-- The turn of `loop` for a packet (atemwire/protocol.py): which fields land, and how it ends.
use mathlib.Core.List.{append-nil}
use bmdwire.Prelude.{ℕ, ◌≡◌, refl, ◌∙◌, ap, List, [], ◌∷◌, ◌++◌, All, ◌⊎◌, inl, inr}
use bmdwire.Protocol.{
  Wire, Ended, Saved, outcome_of, decode_packet, save_fields, packet_turn, turn_end,
}
use bmdwire.Protocol.Framing.{frames, IsWire, decode_packet-frames}

module _ {S : Type 0} (save : Wire → S → S × Saved) where
  -- Every field is saved, in order.
  unfoldable pub save_each : List Wire → S → S
  save_each [] s = s
  save_each (w ∷ ws) s = save_each ws (save w s).0

  -- No field of them raises a `ConnectionError`.
  abbrev pub AllSound : List Wire → S → Type 0
  AllSound [] s = Unit
  AllSound (w ∷ ws) s =
      (((save w s).1 ≡ Saved.kept) ⊎ ((save w s).1 ≡ Saved.dropped)) × AllSound ws (save w s).0

  save_fields-save_each :
      (ws : List Wire) (ended : Ended) (s : S)
      → AllSound ws s
      → save_fields save ws ended s ≡ (save_each ws s, outcome_of ended)
  unfolding save_fields save_each
  save_fields-save_each [] ended s h = refl
  save_fields-save_each (w ∷ ws) ended s (inl e, h) =
      rw (e, save_fields) (save_fields-save_each ws ended (save w s).0 h)
  save_fields-save_each (w ∷ ws) ended s (inr e, h) =
      rw (e, save_fields) (save_fields-save_each ws ended (save w s).0 h)

  -- A packet of frames, with a rest behind them that holds no whole field, none of whose fields raises
  -- a `ConnectionError`: every field is handed to `save_field_data` in order, those after a field that
  -- could not be parsed too; and by the rest the turn ends well, if it is empty, with a new session,
  -- if it begins with a length of zero, or with an exception that leaves `loop`, if it is too short
  -- for a header.
  pub packet_turn-frames :
      (restart : S → S) (ws : List Wire) (rest : List ℕ) (s : S)
      → All IsWire ws
      → (decode_packet rest).0 ≡ []
      → AllSound ws s
      → packet_turn save restart (frames ws ++ rest) s
        ≡ turn_end restart (outcome_of (decode_packet rest).1) (save_each ws s)
  unfolding packet_turn
  packet_turn-frames restart ws rest s wires empty h =
      let fields : decode_packet (frames ws ++ rest) ≡ (ws, (decode_packet rest).1) =
        decode_packet-frames ws rest wires
        ∙ ap (λ l. (ws ++ l, (decode_packet rest).1)) empty
        ∙ ap (λ l. (l, (decode_packet rest).1)) (append-nil ws) in
      ap (λ p. turn_end restart (save_fields save p.0 p.1 s).1 (save_fields save p.0 p.1 s).0)
        fields
      ∙ ap (λ r. turn_end restart r.1 r.0) (save_fields-save_each ws (decode_packet rest).1 s h)
