-- ===== src/Messages/Layouts/Macros.antt =====
-- Layouts of atemwire/messages/macros.py.
use bmdwire.Prelude.{none, [], ◌∷◌}
use bmdwire.Messages.{Kind, Layout, field}

-- `MacroActionCommand`
abbrev pub macro_action_command : Layout
macro_action_command = record {
  code = "MAct";
  size = 4;
  mask_at = none;
  mask_type = Kind.u8;
  fields = field "index" Kind.u16 0 none 1 ∷ field "action" Kind.u8 2 none 1 ∷ [];
}

-- `MacroSleepCommand`
abbrev pub macro_sleep_command : Layout
macro_sleep_command = record {
  code = "MSlp";
  size = 4;
  mask_at = none;
  mask_type = Kind.u8;
  fields = field "frames" Kind.u32 0 none 1 ∷ [];
}

-- `MacroRecordStatusField`
abbrev pub macro_record_status_field : Layout
macro_record_status_field = record {
  code = "MRcS";
  size = 0;
  mask_at = none;
  mask_type = Kind.u8;
  fields = field "is_recording" Kind.boolean 0 none 1 ∷ field "index" Kind.u16 2 none 1 ∷ [];
}
