-- ===== src/Messages/Layouts/Supersource.antt =====
-- Layouts of atemwire/messages/supersource.py.
use bmdwire.Prelude.{none, some, [], ◌∷◌}
use bmdwire.Messages.{Kind, Layout, field}

-- `SupersourceBoxPropertiesCommand`
abbrev pub supersource_box_properties_command : Layout
supersource_box_properties_command = record {
  code = "CSBP";
  size = 24;
  mask_at = some 0;
  mask_type = Kind.u16;
  fields =
      field "index" Kind.u8 2 none 1
      ∷ field "box" Kind.u8 3 none 1
      ∷ field "enabled" Kind.boolean 4 (some 0) 1
      ∷ field "source" Kind.u16 6 (some 1) 1
      ∷ field "x" Kind.i16 8 (some 2) 1
      ∷ field "y" Kind.i16 10 (some 3) 1
      ∷ field "size" Kind.u16 12 (some 4) 1
      ∷ field "masked" Kind.boolean 14 (some 5) 1
      ∷ field "top" Kind.u16 16 (some 6) 1
      ∷ field "bottom" Kind.u16 18 (some 7) 1
      ∷ field "left" Kind.u16 20 (some 8) 1
      ∷ field "right" Kind.u16 22 (some 9) 1
      ∷ [];
}

-- `SupersourcePropertiesCommand`
abbrev pub supersource_properties_command : Layout
supersource_properties_command = record {
  code = "CSSc";
  size = 16;
  mask_at = some 0;
  mask_type = Kind.u8;
  fields =
      field "index" Kind.u8 1 none 1
      ∷ field "fill_source" Kind.u16 2 (some 0) 1
      ∷ field "key_source" Kind.u16 4 (some 1) 1
      ∷ field "layer" Kind.u8 6 (some 2) 1
      ∷ field "premultiplied" Kind.boolean 7 (some 3) 1
      ∷ field "clip" Kind.u16 8 (some 4) 1
      ∷ field "gain" Kind.u16 10 (some 5) 1
      ∷ field "invert" Kind.boolean 12 (some 6) 1
      ∷ [];
}
