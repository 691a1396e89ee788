-- ===== src/Messages/Layouts/ColorGenerator.antt =====
-- Layouts of atemwire/messages/color_generator.py.
use bmdwire.Prelude.{none, some, [], ◌∷◌}
use bmdwire.Messages.{Kind, Layout, field}

-- `ColorGeneratorCommand`
abbrev pub color_generator_command : Layout
color_generator_command = record {
  code = "CClV";
  size = 8;
  mask_at = some 0;
  mask_type = Kind.u8;
  fields =
      field "index" Kind.u8 1 none 1
      ∷ field "hue" Kind.u16 2 (some 0) 10
      ∷ field "saturation" Kind.u16 4 (some 1) 1000
      ∷ field "luma" Kind.u16 6 (some 2) 1000
      ∷ [];
}

-- `ColorGeneratorField`
abbrev pub color_generator_field : Layout
color_generator_field = record {
  code = "ColV";
  size = 0;
  mask_at = none;
  mask_type = Kind.u8;
  fields =
      field "index" Kind.u8 0 none 1
      ∷ field "hue" Kind.u16 2 none 10
      ∷ field "saturation" Kind.u16 4 none 1000
      ∷ field "luma" Kind.u16 6 none 1000
      ∷ [];
}
