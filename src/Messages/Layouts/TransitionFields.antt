-- ===== src/Messages/Layouts/TransitionFields.antt =====
-- Layouts of atemwire/messages/transition.py.
use bmdwire.Prelude.{none, [], ◌∷◌}
use bmdwire.Messages.{Kind, Layout, field}

-- `TransitionPreviewField`
abbrev pub transition_preview_field : Layout
transition_preview_field = record {
  code = "TrPr";
  size = 0;
  mask_at = none;
  mask_type = Kind.u8;
  fields = field "index" Kind.u8 0 none 1 ∷ field "enabled" Kind.boolean 1 none 1 ∷ [];
}

-- `TransitionPositionField`
abbrev pub transition_position_field : Layout
transition_position_field = record {
  code = "TrPs";
  size = 0;
  mask_at = none;
  mask_type = Kind.u8;
  fields =
      field "index" Kind.u8 0 none 1
      ∷ field "in_transition" Kind.boolean 1 none 1
      ∷ field "frames_remaining" Kind.u8 2 none 1
      ∷ field "position" Kind.u16 4 none 1
      ∷ [];
}

-- `TransitionMixField`
abbrev pub transition_mix_field : Layout
transition_mix_field = record {
  code = "TMxP";
  size = 0;
  mask_at = none;
  mask_type = Kind.u8;
  fields = field "index" Kind.u8 0 none 1 ∷ field "rate" Kind.u8 1 none 1 ∷ [];
}

-- `TransitionDipField`
abbrev pub transition_dip_field : Layout
transition_dip_field = record {
  code = "TDpP";
  size = 0;
  mask_at = none;
  mask_type = Kind.u8;
  fields =
      field "index" Kind.u8 0 none 1
      ∷ field "rate" Kind.u8 1 none 1
      ∷ field "source" Kind.u16 2 none 1
      ∷ [];
}

-- `TransitionWipeField`
abbrev pub transition_wipe_field : Layout
transition_wipe_field = record {
  code = "TWpP";
  size = 0;
  mask_at = none;
  mask_type = Kind.u8;
  fields =
      field "index" Kind.u8 0 none 1
      ∷ field "rate" Kind.u8 1 none 1
      ∷ field "pattern" Kind.u8 2 none 1
      ∷ field "width" Kind.u16 4 none 1
      ∷ field "source" Kind.u16 6 none 1
      ∷ field "symmetry" Kind.u16 8 none 1
      ∷ field "softness" Kind.u16 10 none 1
      ∷ field "positionx" Kind.u16 12 none 1
      ∷ field "positiony" Kind.u16 14 none 1
      ∷ field "reverse" Kind.boolean 16 none 1
      ∷ field "flipflop" Kind.boolean 17 none 1
      ∷ [];
}

-- `TransitionDveField`
abbrev pub transition_dve_field : Layout
transition_dve_field = record {
  code = "TDvP";
  size = 0;
  mask_at = none;
  mask_type = Kind.u8;
  fields =
      field "index" Kind.u8 0 none 1
      ∷ field "logo_rate" Kind.u8 1 none 1
      ∷ field "rate" Kind.u8 2 none 1
      ∷ field "style" Kind.u8 3 none 1
      ∷ field "fill_source" Kind.u16 4 none 1
      ∷ field "key_source" Kind.u16 6 none 1
      ∷ field "key_enable" Kind.boolean 8 none 1
      ∷ field "key_premultiplied" Kind.boolean 9 none 1
      ∷ field "key_clip" Kind.u16 10 none 1
      ∷ field "key_gain" Kind.u16 12 none 1
      ∷ field "key_invert" Kind.boolean 14 none 1
      ∷ field "reverse" Kind.boolean 15 none 1
      ∷ field "flipflop" Kind.boolean 16 none 1
      ∷ [];
}

-- `TransitionStingerField`
abbrev pub transition_stinger_field : Layout
transition_stinger_field = record {
  code = "TStP";
  size = 0;
  mask_at = none;
  mask_type = Kind.u8;
  fields =
      field "index" Kind.u8 0 none 1
      ∷ field "mediaplayer" Kind.u8 1 none 1
      ∷ field "key_premultiplied" Kind.boolean 2 none 1
      ∷ field "key_clip" Kind.u16 4 none 1
      ∷ field "key_gain" Kind.u16 6 none 1
      ∷ field "key_invert" Kind.boolean 8 none 1
      ∷ field "preroll" Kind.u16 10 none 1
      ∷ field "duration" Kind.u16 12 none 1
      ∷ field "triggerpoint" Kind.u16 14 none 1
      ∷ field "rate" Kind.u16 16 none 1
      ∷ [];
}
