-- ===== src/Messages/Layouts/Fairlight.antt =====
-- Layouts of atemwire/messages/fairlight.py.
use bmdwire.Prelude.{none, [], ◌∷◌}
use bmdwire.Messages.{Kind, Layout, field}

-- `SendFairlightLevelsCommand`
abbrev pub send_fairlight_levels_command : Layout
send_fairlight_levels_command = record {
  code = "SFLN";
  size = 4;
  mask_at = none;
  mask_type = Kind.u8;
  fields = field "enable" Kind.boolean 0 none 1 ∷ [];
}
