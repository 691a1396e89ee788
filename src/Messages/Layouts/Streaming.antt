-- ===== src/Messages/Layouts/Streaming.antt =====
-- Layouts of atemwire/messages/streaming.py.
use bmdwire.Prelude.{none, some, [], ◌∷◌}
use bmdwire.Messages.{Kind, Layout, field}

-- `StreamingAudioBitrateField`
abbrev pub streaming_audio_bitrate_field : Layout
streaming_audio_bitrate_field = record {
  code = "STAB";
  size = 0;
  mask_at = none;
  mask_type = Kind.u8;
  fields = field "min" Kind.u32 0 none 1 ∷ field "max" Kind.u32 4 none 1 ∷ [];
}

-- `StreamingServiceField`
abbrev pub streaming_service_field : Layout
streaming_service_field = record {
  code = "SRSU";
  size = 0;
  mask_at = none;
  mask_type = Kind.u8;
  fields =
      field "name" (Kind.string 64) 0 none 1
      ∷ field "url" (Kind.string 512) 64 none 1
      ∷ field "key" (Kind.string 512) 576 none 1
      ∷ field "min" Kind.u32 1088 none 1
      ∷ field "max" Kind.u32 1092 none 1
      ∷ [];
}

-- `StreamingStatusField`
abbrev pub streaming_status_field : Layout
streaming_status_field = record {
  code = "StRS";
  size = 0;
  mask_at = none;
  mask_type = Kind.u8;
  fields = field "status" Kind.i16 0 none 1 ∷ [];
}

-- `StreamingStatsField`
abbrev pub streaming_stats_field : Layout
streaming_stats_field = record {
  code = "SRSS";
  size = 0;
  mask_at = none;
  mask_type = Kind.u8;
  fields = field "bitrate" Kind.u32 0 none 1 ∷ field "cache" Kind.u16 4 none 1 ∷ [];
}

-- `StreamingServiceSetCommand`
abbrev pub streaming_service_set_command : Layout
streaming_service_set_command = record {
  code = "CRSS";
  size = 1100;
  mask_at = some 0;
  mask_type = Kind.u8;
  fields =
      field "name" (Kind.string 64) 1 (some 0) 1
      ∷ field "url" (Kind.string 512) 65 (some 1) 1
      ∷ field "key" (Kind.string 512) 577 (some 2) 1
      ∷ field "bitrate_min" Kind.u32 1092 (some 3) 1
      ∷ field "bitrate_max" Kind.u32 1096 (some 3) 1
      ∷ [];
}

-- `StreamingAudioBitrateCommand`
abbrev pub streaming_audio_bitrate_command : Layout
streaming_audio_bitrate_command = record {
  code = "STAB";
  size = 8;
  mask_at = none;
  mask_type = Kind.u8;
  fields = field "bitrate_min" Kind.u32 0 none 1 ∷ field "bitrate_max" Kind.u32 4 none 1 ∷ [];
}

-- `StreamingStatusSetCommand`
abbrev pub streaming_status_set_command : Layout
streaming_status_set_command = record {
  code = "StrR";
  size = 4;
  mask_at = none;
  mask_type = Kind.u8;
  fields = field "streaming" Kind.boolean 0 none 1 ∷ [];
}
