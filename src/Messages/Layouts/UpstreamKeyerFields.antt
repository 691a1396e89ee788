-- ===== src/Messages/Layouts/UpstreamKeyerFields.antt =====
-- Layouts of atemwire/messages/upstream_keyer.py.
use bmdwire.Prelude.{none, [], ◌∷◌}
use bmdwire.Messages.{Kind, Layout, field}

-- `KeyOnAirField`
abbrev pub key_on_air_field : Layout
key_on_air_field = record {
  code = "KeOn";
  size = 0;
  mask_at = none;
  mask_type = Kind.u8;
  fields =
      field "index" Kind.u8 0 none 1
      ∷ field "keyer" Kind.u8 1 none 1
      ∷ field "enabled" Kind.boolean 2 none 1
      ∷ [];
}

-- `KeyPropertiesBaseField`
abbrev pub key_properties_base_field : Layout
key_properties_base_field = record {
  code = "KeBP";
  size = 0;
  mask_at = none;
  mask_type = Kind.u8;
  fields =
      field "index" Kind.u8 0 none 1
      ∷ field "keyer" Kind.u8 1 none 1
      ∷ field "type" Kind.u8 2 none 1
      ∷ field "enabled" Kind.boolean 3 none 1
      ∷ field "fly_enabled" Kind.boolean 5 none 1
      ∷ field "fill_source" Kind.u16 6 none 1
      ∷ field "key_source" Kind.u16 8 none 1
      ∷ field "mask_enabled" Kind.boolean 10 none 1
      ∷ field "mask_top" Kind.i16 12 none 1
      ∷ field "mask_bottom" Kind.i16 14 none 1
      ∷ field "mask_left" Kind.i16 16 none 1
      ∷ field "mask_right" Kind.i16 18 none 1
      ∷ [];
}

-- `KeyPropertiesLumaField`
abbrev pub key_properties_luma_field : Layout
key_properties_luma_field = record {
  code = "KeLm";
  size = 0;
  mask_at = none;
  mask_type = Kind.u8;
  fields =
      field "index" Kind.u8 0 none 1
      ∷ field "keyer" Kind.u8 1 none 1
      ∷ field "premultiplied" Kind.boolean 2 none 1
      ∷ field "clip" Kind.u16 4 none 1
      ∷ field "gain" Kind.u16 6 none 1
      ∷ field "key_inverted" Kind.boolean 8 none 1
      ∷ [];
}

-- `KeyPropertiesAdvancedChromaField`
abbrev pub key_properties_advanced_chroma_field : Layout
key_properties_advanced_chroma_field = record {
  code = "KACk";
  size = 0;
  mask_at = none;
  mask_type = Kind.u8;
  fields =
      field "index" Kind.u8 0 none 1
      ∷ field "keyer" Kind.u8 1 none 1
      ∷ field "foreground" Kind.u16 2 none 1
      ∷ field "background" Kind.u16 4 none 1
      ∷ field "key_edge" Kind.u16 6 none 1
      ∷ field "spill_suppress" Kind.u16 8 none 1
      ∷ field "flare_suppress" Kind.u16 10 none 1
      ∷ field "brightness" Kind.i16 12 none 1
      ∷ field "contrast" Kind.i16 14 none 1
      ∷ field "saturation" Kind.u16 16 none 1
      ∷ field "red" Kind.i16 18 none 1
      ∷ field "green" Kind.i16 20 none 1
      ∷ field "blue" Kind.i16 22 none 1
      ∷ [];
}
