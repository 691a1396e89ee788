-- ===== src/Messages/Layouts/Media.antt =====
-- Layouts of atemwire/messages/media.py.
use bmdwire.Prelude.{none, [], ◌∷◌}
use bmdwire.Messages.{Kind, Layout, field}

-- `ClearStillCommand`
abbrev pub clear_still_command : Layout
clear_still_command = record {
  code = "CSTL";
  size = 4;
  mask_at = none;
  mask_type = Kind.u8;
  fields = field "slot" Kind.u8 0 none 1 ∷ [];
}

-- `MediaplayerSelectCommand`
abbrev pub mediaplayer_select_command : Layout
mediaplayer_select_command = record {
  code = "MPSS";
  size = 8;
  mask_at = none;
  mask_type = Kind.u8;
  fields =
      field "mask" Kind.u8 0 none 1
      ∷ field "index" Kind.u8 1 none 1
      ∷ field "source_type" Kind.u8 2 none 1
      ∷ field "still" Kind.u8 3 none 1
      ∷ field "clip" Kind.u8 4 none 1
      ∷ [];
}
