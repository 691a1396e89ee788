-- ===== src/Messages/Layouts/UpstreamKeyerCommands.antt =====
-- Layouts of atemwire/messages/upstream_keyer.py.
use bmdwire.Prelude.{none, some, [], ◌∷◌}
use bmdwire.Messages.{Kind, Layout, field}

-- `KeyOnAirCommand`
abbrev pub key_on_air_command : Layout
key_on_air_command = record {
  code = "CKOn";
  size = 4;
  mask_at = none;
  mask_type = Kind.u8;
  fields =
      field "index" Kind.u8 0 none 1
      ∷ field "keyer" Kind.u8 1 none 1
      ∷ field "enabled" Kind.boolean 2 none 1
      ∷ [];
}

-- `KeyFillCommand`
abbrev pub key_fill_command : Layout
key_fill_command = record {
  code = "CKeF";
  size = 4;
  mask_at = none;
  mask_type = Kind.u8;
  fields =
      field "index" Kind.u8 0 none 1
      ∷ field "keyer" Kind.u8 1 none 1
      ∷ field "source" Kind.u16 2 none 1
      ∷ [];
}

-- `KeyCutCommand`
abbrev pub key_cut_command : Layout
key_cut_command = record {
  code = "CKeC";
  size = 4;
  mask_at = none;
  mask_type = Kind.u8;
  fields =
      field "index" Kind.u8 0 none 1
      ∷ field "keyer" Kind.u8 1 none 1
      ∷ field "source" Kind.u16 2 none 1
      ∷ [];
}

-- `KeyTypeCommand`
abbrev pub key_type_command : Layout
key_type_command = record {
  code = "CKTp";
  size = 8;
  mask_at = some 0;
  mask_type = Kind.u8;
  fields =
      field "index" Kind.u8 1 none 1
      ∷ field "keyer" Kind.u8 2 none 1
      ∷ field "type" Kind.u8 3 (some 0) 1
      ∷ field "fly_enabled" Kind.boolean 4 (some 1) 1
      ∷ [];
}

-- `KeyPropertiesDveCommand`
abbrev pub key_properties_dve_command : Layout
key_properties_dve_command = record {
  code = "CKDV";
  size = 64;
  mask_at = some 0;
  mask_type = Kind.u32;
  fields =
      field "index" Kind.u8 4 none 1
      ∷ field "keyer" Kind.u8 5 none 1
      ∷ field "size_x" Kind.i32 8 (some 0) 1
      ∷ field "size_y" Kind.i32 12 (some 1) 1
      ∷ field "pos_x" Kind.i32 16 (some 2) 1
      ∷ field "pos_y" Kind.i32 20 (some 3) 1
      ∷ field "rotation" Kind.i32 24 (some 4) 1
      ∷ field "border_enabled" Kind.boolean 28 (some 5) 1
      ∷ field "shadow_enabled" Kind.boolean 29 (some 6) 1
      ∷ field "border_bevel_enabled" Kind.u8 30 (some 7) 1
      ∷ field "outer_width" Kind.u16 32 (some 8) 1
      ∷ field "inner_width" Kind.u16 34 (some 9) 1
      ∷ field "outer_softness" Kind.u8 36 (some 10) 1
      ∷ field "inner_softness" Kind.u8 37 (some 11) 1
      ∷ field "bevel_softness" Kind.u8 38 (some 12) 1
      ∷ field "bevel_position" Kind.u8 39 (some 13) 1
      ∷ field "border_opacity" Kind.u8 40 (some 14) 1
      ∷ field "border_hue" Kind.u16 42 (some 15) 1
      ∷ field "border_saturation" Kind.u16 44 (some 16) 1
      ∷ field "border_luma" Kind.u16 46 (some 17) 1
      ∷ field "angle" Kind.u16 48 (some 18) 1
      ∷ field "altitude" Kind.u8 50 (some 19) 1
      ∷ field "mask_enabled" Kind.boolean 51 (some 20) 1
      ∷ field "mask_top" Kind.i16 52 (some 21) 1
      ∷ field "mask_bottom" Kind.i16 54 (some 22) 1
      ∷ field "mask_left" Kind.i16 56 (some 23) 1
      ∷ field "mask_right" Kind.i16 58 (some 24) 1
      ∷ field "rate" Kind.u8 60 (some 25) 1
      ∷ [];
}

-- `KeyPropertiesMaskCommand`
abbrev pub key_properties_mask_command : Layout
key_properties_mask_command = record {
  code = "CKMs";
  size = 12;
  mask_at = some 0;
  mask_type = Kind.u8;
  fields =
      field "index" Kind.u8 1 none 1
      ∷ field "keyer" Kind.u8 2 none 1
      ∷ field "enabled" Kind.boolean 3 (some 0) 1
      ∷ field "top" Kind.i16 4 (some 1) 1
      ∷ field "bottom" Kind.i16 6 (some 2) 1
      ∷ field "left" Kind.i16 8 (some 3) 1
      ∷ field "right" Kind.i16 10 (some 4) 1
      ∷ [];
}

-- `KeyPropertiesPatternCommand`
abbrev pub key_properties_pattern_command : Layout
key_properties_pattern_command = record {
  code = "CKPt";
  size = 16;
  mask_at = some 0;
  mask_type = Kind.u8;
  fields =
      field "index" Kind.u8 1 none 1
      ∷ field "keyer" Kind.u8 2 none 1
      ∷ field "pattern" Kind.u8 3 (some 0) 1
      ∷ field "size" Kind.u16 4 (some 1) 1
      ∷ field "symmetry" Kind.u16 6 (some 2) 1
      ∷ field "softness" Kind.u16 8 (some 3) 1
      ∷ field "position_x" Kind.u16 10 (some 4) 1
      ∷ field "position_y" Kind.u16 12 (some 5) 1
      ∷ field "invert_pattern" Kind.boolean 14 (some 6) 1
      ∷ [];
}

-- `KeyPropertiesAdvancedChromaColorpickerCommand`
abbrev pub key_properties_advanced_chroma_colorpicker_command : Layout
key_properties_advanced_chroma_colorpicker_command = record {
  code = "CACC";
  size = 20;
  mask_at = some 0;
  mask_type = Kind.u8;
  fields =
      field "index" Kind.u8 1 none 1
      ∷ field "keyer" Kind.u8 2 none 1
      ∷ field "cursor" Kind.boolean 3 (some 0) 1
      ∷ field "preview" Kind.boolean 4 (some 1) 1
      ∷ field "x" Kind.i16 6 (some 2) 1
      ∷ field "y" Kind.i16 8 (some 3) 1
      ∷ field "size" Kind.u16 10 (some 4) 1
      ∷ field "Y" Kind.u16 12 (some 5) 1
      ∷ field "Cb" Kind.i16 14 (some 6) 1
      ∷ field "Cr" Kind.i16 16 (some 7) 1
      ∷ [];
}

-- `KeyPropertiesAdvancedChromaCommand`
abbrev pub key_properties_advanced_chroma_command : Layout
key_properties_advanced_chroma_command = record {
  code = "CACK";
  size = 28;
  mask_at = some 0;
  mask_type = Kind.u16;
  fields =
      field "index" Kind.u8 2 none 1
      ∷ field "keyer" Kind.u8 3 none 1
      ∷ field "foreground" Kind.u16 4 (some 0) 1
      ∷ field "background" Kind.u16 6 (some 1) 1
      ∷ field "key_edge" Kind.u16 8 (some 2) 1
      ∷ field "spill" Kind.u16 10 (some 3) 1
      ∷ field "flare" Kind.u16 12 (some 4) 1
      ∷ field "brightness" Kind.i16 14 (some 5) 1
      ∷ field "contrast" Kind.i16 16 (some 6) 1
      ∷ field "saturation" Kind.u16 18 (some 7) 1
      ∷ field "red" Kind.i16 20 (some 8) 1
      ∷ field "green" Kind.i16 22 (some 9) 1
      ∷ field "blue" Kind.i16 24 (some 10) 1
      ∷ [];
}

-- `KeyPropertiesLumaCommand`
abbrev pub key_properties_luma_command : Layout
key_properties_luma_command = record {
  code = "CKLm";
  size = 12;
  mask_at = some 0;
  mask_type = Kind.u8;
  fields =
      field "index" Kind.u8 1 none 1
      ∷ field "keyer" Kind.u8 2 none 1
      ∷ field "premultiplied" Kind.boolean 3 (some 0) 1
      ∷ field "clip" Kind.u16 4 (some 1) 1
      ∷ field "gain" Kind.u16 6 (some 2) 1
      ∷ field "invert_key" Kind.boolean 8 (some 3) 1
      ∷ [];
}

-- `KeyerKeyframeSetCommand`
abbrev pub keyer_keyframe_set_command : Layout
keyer_keyframe_set_command = record {
  code = "SFKF";
  size = 4;
  mask_at = none;
  mask_type = Kind.u8;
  fields =
      field "index" Kind.u8 0 none 1
      ∷ field "keyer" Kind.u8 1 none 1
      ∷ field "keyframe" Kind.u8 2 none 1
      ∷ [];
}

-- `KeyerKeyframeRunCommand`
abbrev pub keyer_keyframe_run_command : Layout
keyer_keyframe_run_command = record {
  code = "RFlK";
  size = 8;
  mask_at = some 0;
  mask_type = Kind.u8;
  fields =
      field "index" Kind.u8 1 none 1
      ∷ field "keyer" Kind.u8 2 none 1
      ∷ field "run_to" Kind.u8 4 none 1
      ∷ field "direction" Kind.u8 5 (some 1) 1
      ∷ [];
}
