-- ===== src/Messages/Layouts/DownstreamKeyer.antt =====
-- Layouts of atemwire/messages/downstream_keyer.py.
use bmdwire.Prelude.{none, some, [], ◌∷◌}
use bmdwire.Messages.{Kind, Layout, field}

-- `DkeyOnairCommand`
abbrev pub dkey_onair_command : Layout
dkey_onair_command = record {
  code = "CDsL";
  size = 4;
  mask_at = none;
  mask_type = Kind.u8;
  fields = field "index" Kind.u8 0 none 1 ∷ field "on_air" Kind.boolean 1 none 1 ∷ [];
}

-- `DkeyAutoCommand`
abbrev pub dkey_auto_command : Layout
dkey_auto_command = record {
  code = "DDsA";
  size = 4;
  mask_at = none;
  mask_type = Kind.u8;
  fields = field "index" Kind.u8 0 none 1 ∷ [];
}

-- `DkeyRateCommand`
abbrev pub dkey_rate_command : Layout
dkey_rate_command = record {
  code = "CDsR";
  size = 4;
  mask_at = none;
  mask_type = Kind.u8;
  fields = field "index" Kind.u8 0 none 1 ∷ field "rate" Kind.u8 1 none 1 ∷ [];
}

-- `DkeyTieCommand`
abbrev pub dkey_tie_command : Layout
dkey_tie_command = record {
  code = "CDsT";
  size = 4;
  mask_at = none;
  mask_type = Kind.u8;
  fields = field "index" Kind.u8 0 none 1 ∷ field "tie" Kind.boolean 1 none 1 ∷ [];
}

-- `DkeySetFillCommand`
abbrev pub dkey_set_fill_command : Layout
dkey_set_fill_command = record {
  code = "CDsF";
  size = 4;
  mask_at = none;
  mask_type = Kind.u8;
  fields = field "index" Kind.u8 0 none 1 ∷ field "source" Kind.u16 2 none 1 ∷ [];
}

-- `DkeySetKeyCommand`
abbrev pub dkey_set_key_command : Layout
dkey_set_key_command = record {
  code = "CDsC";
  size = 4;
  mask_at = none;
  mask_type = Kind.u8;
  fields = field "index" Kind.u8 0 none 1 ∷ field "source" Kind.u16 2 none 1 ∷ [];
}

-- `DkeyGainCommand`
abbrev pub dkey_gain_command : Layout
dkey_gain_command = record {
  code = "CDsG";
  size = 12;
  mask_at = some 0;
  mask_type = Kind.u8;
  fields =
      field "index" Kind.u8 1 none 1
      ∷ field "premultiplied" Kind.boolean 2 (some 0) 1
      ∷ field "clip" Kind.u16 4 (some 1) 1
      ∷ field "gain" Kind.u16 6 (some 2) 1
      ∷ field "invert" Kind.boolean 8 (some 3) 1
      ∷ [];
}

-- `DkeyMaskCommand`
abbrev pub dkey_mask_command : Layout
dkey_mask_command = record {
  code = "CDsM";
  size = 12;
  mask_at = some 0;
  mask_type = Kind.u8;
  fields =
      field "index" Kind.u8 1 none 1
      ∷ field "enabled" Kind.boolean 2 (some 0) 1
      ∷ field "top" Kind.i16 4 (some 1) 1
      ∷ field "bottom" Kind.i16 6 (some 2) 1
      ∷ field "left" Kind.i16 8 (some 3) 1
      ∷ field "right" Kind.i16 10 (some 4) 1
      ∷ [];
}

-- `DkeyPropertiesBaseField`
abbrev pub dkey_properties_base_field : Layout
dkey_properties_base_field = record {
  code = "DskB";
  size = 0;
  mask_at = none;
  mask_type = Kind.u8;
  fields =
      field "index" Kind.u8 0 none 1
      ∷ field "fill_source" Kind.u16 2 none 1
      ∷ field "key_source" Kind.u16 4 none 1
      ∷ [];
}

-- `DkeyPropertiesField`
abbrev pub dkey_properties_field : Layout
dkey_properties_field = record {
  code = "DskP";
  size = 0;
  mask_at = none;
  mask_type = Kind.u8;
  fields =
      field "index" Kind.u8 0 none 1
      ∷ field "tie" Kind.boolean 1 none 1
      ∷ field "rate" Kind.u8 2 none 1
      ∷ field "premultiplied" Kind.boolean 3 none 1
      ∷ field "clip" Kind.u16 4 none 1
      ∷ field "gain" Kind.u16 6 none 1
      ∷ field "invert_key" Kind.boolean 8 none 1
      ∷ field "masked" Kind.boolean 9 none 1
      ∷ field "top" Kind.i16 10 none 1
      ∷ field "bottom" Kind.i16 12 none 1
      ∷ field "left" Kind.i16 14 none 1
      ∷ field "right" Kind.i16 16 none 1
      ∷ [];
}

-- `DkeyStateField`
abbrev pub dkey_state_field : Layout
dkey_state_field = record {
  code = "DskS";
  size = 0;
  mask_at = none;
  mask_type = Kind.u8;
  fields =
      field "index" Kind.u8 0 none 1
      ∷ field "on_air" Kind.boolean 1 none 1
      ∷ field "is_transitioning" Kind.boolean 2 none 1
      ∷ field "is_autotransitioning" Kind.boolean 3 none 1
      ∷ field "frames_remaining" Kind.u8 4 none 1
      ∷ [];
}
