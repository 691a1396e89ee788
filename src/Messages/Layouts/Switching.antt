-- ===== src/Messages/Layouts/Switching.antt =====
-- Layouts of atemwire/messages/switching.py.
use bmdwire.Prelude.{none, [], ◌∷◌}
use bmdwire.Messages.{Kind, Layout, field}

-- `CutCommand`
abbrev pub cut_command : Layout
cut_command = record {
  code = "DCut";
  size = 4;
  mask_at = none;
  mask_type = Kind.u8;
  fields = field "index" Kind.u8 0 none 1 ∷ [];
}

-- `AutoCommand`
abbrev pub auto_command : Layout
auto_command = record {
  code = "DAut";
  size = 4;
  mask_at = none;
  mask_type = Kind.u8;
  fields = field "index" Kind.u8 0 none 1 ∷ [];
}

-- `ProgramInputCommand`
abbrev pub program_input_command : Layout
program_input_command = record {
  code = "CPgI";
  size = 4;
  mask_at = none;
  mask_type = Kind.u8;
  fields = field "index" Kind.u8 0 none 1 ∷ field "source" Kind.u16 2 none 1 ∷ [];
}

-- `PreviewInputCommand`
abbrev pub preview_input_command : Layout
preview_input_command = record {
  code = "CPvI";
  size = 4;
  mask_at = none;
  mask_type = Kind.u8;
  fields = field "index" Kind.u8 0 none 1 ∷ field "source" Kind.u16 2 none 1 ∷ [];
}

-- `AuxSourceCommand`
abbrev pub aux_source_command : Layout
aux_source_command = record {
  code = "CAuS";
  size = 4;
  mask_at = none;
  mask_type = Kind.u8;
  fields =
      field "mask" Kind.u8 0 none 1
      ∷ field "index" Kind.u8 1 none 1
      ∷ field "source" Kind.u16 2 none 1
      ∷ [];
}

-- `ProgramBusInputField`
abbrev pub program_bus_input_field : Layout
program_bus_input_field = record {
  code = "PrgI";
  size = 0;
  mask_at = none;
  mask_type = Kind.u8;
  fields = field "index" Kind.u8 0 none 1 ∷ field "source" Kind.u16 2 none 1 ∷ [];
}

-- `PreviewBusInputField`
abbrev pub preview_bus_input_field : Layout
preview_bus_input_field = record {
  code = "PrvI";
  size = 0;
  mask_at = none;
  mask_type = Kind.u8;
  fields =
      field "index" Kind.u8 0 none 1
      ∷ field "source" Kind.u16 2 none 1
      ∷ field "in_program" Kind.boolean 4 none 1
      ∷ [];
}

-- `AuxOutputSourceField`
abbrev pub aux_output_source_field : Layout
aux_output_source_field = record {
  code = "AuxS";
  size = 0;
  mask_at = none;
  mask_type = Kind.u8;
  fields = field "index" Kind.u8 0 none 1 ∷ field "source" Kind.u16 2 none 1 ∷ [];
}
