-- ===== src/Messages/Layouts/FadeToBlack.antt =====
-- Layouts of atemwire/messages/fade_to_black.py.
use bmdwire.Prelude.{none, [], ◌∷◌}
use bmdwire.Messages.{Kind, Layout, field}

-- `FadeToBlackCommand`
abbrev pub fade_to_black_command : Layout
fade_to_black_command = record {
  code = "FtbA";
  size = 4;
  mask_at = none;
  mask_type = Kind.u8;
  fields = field "index" Kind.u8 0 none 1 ∷ [];
}

-- `FadeToBlackConfigCommand`
abbrev pub fade_to_black_config_command : Layout
fade_to_black_config_command = record {
  code = "FtbC";
  size = 4;
  mask_at = none;
  mask_type = Kind.u8;
  fields =
      field "mask" Kind.u8 0 none 1
      ∷ field "index" Kind.u8 1 none 1
      ∷ field "frames" Kind.u8 2 none 1
      ∷ [];
}

-- `FadeToBlackStateField`
abbrev pub fade_to_black_state_field : Layout
fade_to_black_state_field = record {
  code = "FtbS";
  size = 0;
  mask_at = none;
  mask_type = Kind.u8;
  fields =
      field "index" Kind.u8 0 none 1
      ∷ field "done" Kind.boolean 1 none 1
      ∷ field "transitioning" Kind.boolean 2 none 1
      ∷ field "frames_remaining" Kind.u8 3 none 1
      ∷ [];
}

-- `FadeToBlackField`
abbrev pub fade_to_black_field : Layout
fade_to_black_field = record {
  code = "FtbP";
  size = 0;
  mask_at = none;
  mask_type = Kind.u8;
  fields = field "index" Kind.u8 0 none 1 ∷ field "rate" Kind.u8 1 none 1 ∷ [];
}
