-- ===== src/Messages/Layouts/TransitionCommands.antt =====
-- Layouts of atemwire/messages/transition.py.
use bmdwire.Prelude.{none, some, [], ◌∷◌}
use bmdwire.Messages.{Kind, Layout, field}

-- `TransitionSettingsCommand`
abbrev pub transition_settings_command : Layout
transition_settings_command = record {
  code = "CTTp";
  size = 4;
  mask_at = some 0;
  mask_type = Kind.u8;
  fields =
      field "index" Kind.u8 1 none 1
      ∷ field "style" Kind.u8 2 (some 0) 1
      ∷ field "next_transition" Kind.u8 3 (some 1) 1
      ∷ [];
}

-- `MixSettingsCommand`
abbrev pub mix_settings_command : Layout
mix_settings_command = record {
  code = "CTMx";
  size = 4;
  mask_at = none;
  mask_type = Kind.u8;
  fields = field "index" Kind.u8 0 none 1 ∷ field "rate" Kind.u8 1 none 1 ∷ [];
}

-- `DipSettingsCommand`
abbrev pub dip_settings_command : Layout
dip_settings_command = record {
  code = "CTDp";
  size = 8;
  mask_at = some 0;
  mask_type = Kind.u8;
  fields =
      field "index" Kind.u8 1 none 1
      ∷ field "rate" Kind.u8 2 (some 0) 1
      ∷ field "source" Kind.u16 4 (some 1) 1
      ∷ [];
}

-- `WipeSettingsCommand`
abbrev pub wipe_settings_command : Layout
wipe_settings_command = record {
  code = "CTWp";
  size = 20;
  mask_at = some 0;
  mask_type = Kind.u16;
  fields =
      field "index" Kind.u8 2 none 1
      ∷ field "rate" Kind.u8 3 (some 0) 1
      ∷ field "pattern" Kind.u8 4 (some 1) 1
      ∷ field "width" Kind.u16 6 (some 2) 1
      ∷ field "source" Kind.u16 8 (some 3) 1
      ∷ field "symmetry" Kind.u16 10 (some 4) 1
      ∷ field "softness" Kind.u16 12 (some 5) 1
      ∷ field "positionx" Kind.u16 14 (some 6) 1
      ∷ field "positiony" Kind.u16 16 (some 7) 1
      ∷ field "reverse" Kind.boolean 18 (some 8) 1
      ∷ field "flipflop" Kind.boolean 19 (some 9) 1
      ∷ [];
}

-- `StingerSettingsCommand`
abbrev pub stinger_settings_command : Layout
stinger_settings_command = record {
  code = "CTSt";
  size = 20;
  mask_at = some 0;
  mask_type = Kind.u16;
  fields =
      field "index" Kind.u8 2 none 1
      ∷ field "mediaplayer" Kind.u8 3 (some 0) 1
      ∷ field "key_premultiplied" Kind.boolean 4 (some 1) 1
      ∷ field "key_clip" Kind.u16 6 (some 2) 1
      ∷ field "key_gain" Kind.u16 8 (some 3) 1
      ∷ field "key_invert" Kind.boolean 10 (some 4) 1
      ∷ field "preroll" Kind.u16 12 (some 5) 1
      ∷ field "duration" Kind.u16 14 (some 6) 1
      ∷ field "triggerpoint" Kind.u16 16 (some 7) 1
      ∷ field "rate" Kind.u16 18 (some 8) 1
      ∷ [];
}

-- `DveSettingsCommand`
abbrev pub dve_settings_command : Layout
dve_settings_command = record {
  code = "CTDv";
  size = 20;
  mask_at = some 0;
  mask_type = Kind.u16;
  fields =
      field "index" Kind.u8 2 none 1
      ∷ field "logo_rate" Kind.u8 3 (some 0) 1
      ∷ field "rate" Kind.u8 4 (some 1) 1
      ∷ field "style" Kind.u8 5 (some 2) 1
      ∷ field "fill_source" Kind.u16 6 (some 3) 1
      ∷ field "key_source" Kind.u16 8 (some 4) 1
      ∷ field "key_enable" Kind.boolean 10 (some 5) 1
      ∷ field "key_premultiplied" Kind.boolean 11 (some 6) 1
      ∷ field "key_clip" Kind.u16 12 (some 7) 1
      ∷ field "key_gain" Kind.u16 14 (some 8) 1
      ∷ field "key_invert" Kind.boolean 16 (some 9) 1
      ∷ field "reverse" Kind.boolean 17 (some 10) 1
      ∷ field "flipflop" Kind.boolean 18 (some 11) 1
      ∷ [];
}

-- `TransitionPreviewCommand`
abbrev pub transition_preview_command : Layout
transition_preview_command = record {
  code = "CTPr";
  size = 4;
  mask_at = none;
  mask_type = Kind.u8;
  fields = field "index" Kind.u8 0 none 1 ∷ field "enabled" Kind.boolean 1 none 1 ∷ [];
}

-- `TransitionPositionCommand`
abbrev pub transition_position_command : Layout
transition_position_command = record {
  code = "CTPs";
  size = 4;
  mask_at = none;
  mask_type = Kind.u8;
  fields = field "index" Kind.u8 0 none 1 ∷ field "position" Kind.u16 2 none 1 ∷ [];
}
