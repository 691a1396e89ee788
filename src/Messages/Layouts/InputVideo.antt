-- ===== src/Messages/Layouts/InputVideo.antt =====
-- Layouts of atemwire/messages/input_video.py.
use bmdwire.Prelude.{none, [], ◌∷◌}
use bmdwire.Messages.{Kind, Layout, field}

-- `VideoModeCommand`
abbrev pub video_mode_command : Layout
video_mode_command = record {
  code = "CVdM";
  size = 4;
  mask_at = none;
  mask_type = Kind.u8;
  fields = field "mode" Kind.u8 0 none 1 ∷ [];
}
