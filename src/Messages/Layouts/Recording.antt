-- ===== src/Messages/Layouts/Recording.antt =====
-- Layouts of atemwire/messages/recording.py.
use bmdwire.Prelude.{none, some, [], ◌∷◌}
use bmdwire.Messages.{Kind, Layout, field}

-- `RecordingDurationField`
abbrev pub recording_duration_field : Layout
recording_duration_field = record {
  code = "RTMR";
  size = 0;
  mask_at = none;
  mask_type = Kind.u8;
  fields =
      field "hours" Kind.u8 0 none 1
      ∷ field "minutes" Kind.u8 1 none 1
      ∷ field "seconds" Kind.u8 2 none 1
      ∷ field "frames" Kind.u8 3 none 1
      ∷ field "has_dropped_frames" Kind.boolean 4 none 1
      ∷ [];
}

-- `RecordingSettingsSetCommand`
abbrev pub recording_settings_set_command : Layout
recording_settings_set_command = record {
  code = "CRMS";
  size = 144;
  mask_at = some 0;
  mask_type = Kind.u8;
  fields =
      field "filename" (Kind.string 128) 1 (some 0) 1
      ∷ field "disk1" Kind.u32 132 (some 1) 1
      ∷ field "disk2" Kind.u32 136 (some 2) 1
      ∷ field "record_in_camera" Kind.boolean 140 (some 3) 1
      ∷ [];
}

-- `RecorderStatusCommand`
abbrev pub recorder_status_command : Layout
recorder_status_command = record {
  code = "RcTM";
  size = 4;
  mask_at = none;
  mask_type = Kind.u8;
  fields = field "recording" Kind.boolean 0 none 1 ∷ [];
}
