-- ===== src/Messages/Layouts/SystemInfo.antt =====
-- Layouts of atemwire/messages/system_info.py.
use bmdwire.Prelude.{none, [], ◌∷◌}
use bmdwire.Messages.{Kind, Layout, field}

-- `TimeField`
abbrev pub time_field : Layout
time_field = record {
  code = "Time";
  size = 0;
  mask_at = none;
  mask_type = Kind.u8;
  fields =
      field "hours" Kind.u8 0 none 1
      ∷ field "minutes" Kind.u8 1 none 1
      ∷ field "seconds" Kind.u8 2 none 1
      ∷ field "frames" Kind.u8 3 none 1
      ∷ field "dropframe" Kind.boolean 4 none 1
      ∷ [];
}

-- `TimeConfigField`
abbrev pub time_config_field : Layout
time_config_field = record {
  code = "TCCc";
  size = 0;
  mask_at = none;
  mask_type = Kind.u8;
  fields = field "mode" Kind.u8 0 none 1 ∷ [];
}

-- `ProductNameField`
abbrev pub product_name_field : Layout
product_name_field = record {
  code = "_pin";
  size = 0;
  mask_at = none;
  mask_type = Kind.u8;
  fields = field "name" (Kind.string 40) 0 none 1 ∷ field "model" Kind.u8 40 none 1 ∷ [];
}

-- `DeviceIdentityField`
abbrev pub device_identity_field : Layout
device_identity_field = record {
  code = "WhoI";
  size = 0;
  mask_at = none;
  mask_type = Kind.u8;
  fields =
      field "device_id" (Kind.string 32) 0 none 1
      ∷ field "ip" (Kind.string 16) 32 none 1
      ∷ field "hostname" (Kind.string 64) 48 none 1
      ∷ field "name" (Kind.string 64) 112 none 1
      ∷ [];
}

-- `MixerEffectConfigField`
abbrev pub mixer_effect_config_field : Layout
mixer_effect_config_field = record {
  code = "_MeC";
  size = 0;
  mask_at = none;
  mask_type = Kind.u8;
  fields = field "index" Kind.u8 0 none 1 ∷ field "keyers" Kind.u8 1 none 1 ∷ [];
}

-- `MediaplayerSlotsField`
abbrev pub mediaplayer_slots_field : Layout
mediaplayer_slots_field = record {
  code = "_mpl";
  size = 0;
  mask_at = none;
  mask_type = Kind.u8;
  fields = field "stills" Kind.u8 0 none 1 ∷ field "clips" Kind.u8 1 none 1 ∷ [];
}

-- `MediaplayerSelectedField`
abbrev pub mediaplayer_selected_field : Layout
mediaplayer_selected_field = record {
  code = "MPCE";
  size = 0;
  mask_at = none;
  mask_type = Kind.u8;
  fields =
      field "index" Kind.u8 0 none 1
      ∷ field "source_type" Kind.u8 1 none 1
      ∷ field "slot" Kind.u8 2 none 1
      ∷ [];
}

-- `AutoInputVideoModeField`
abbrev pub auto_input_video_mode_field : Layout
auto_input_video_mode_field = record {
  code = "AiVM";
  size = 0;
  mask_at = none;
  mask_type = Kind.u8;
  fields = field "enabled" Kind.boolean 0 none 1 ∷ field "detected" Kind.boolean 1 none 1 ∷ [];
}

-- `Sdi3GLevelField`
abbrev pub sdi3_g_level_field : Layout
sdi3_g_level_field = record {
  code = "V3sl";
  size = 0;
  mask_at = none;
  mask_type = Kind.u8;
  fields = field "level" Kind.u8 0 none 1 ∷ [];
}

-- `TransferCompleteField`
abbrev pub transfer_complete_field : Layout
transfer_complete_field = record {
  code = "*XFC";
  size = 0;
  mask_at = none;
  mask_type = Kind.u8;
  fields =
      field "store" Kind.u16 0 none 1
      ∷ field "slot" Kind.u16 2 none 1
      ∷ field "upload" Kind.boolean 4 none 1
      ∷ [];
}

-- `AutoInputVideoModeCommand`
abbrev pub auto_input_video_mode_command : Layout
auto_input_video_mode_command = record {
  code = "AiVM";
  size = 4;
  mask_at = none;
  mask_type = Kind.u8;
  fields = field "enable" Kind.boolean 0 none 1 ∷ [];
}

-- `SetTimeOfDayCommand`
abbrev pub set_time_of_day_command : Layout
set_time_of_day_command = record {
  code = "SToD";
  size = 8;
  mask_at = none;
  mask_type = Kind.u8;
  fields = field "timestamp" Kind.u32 0 none 1 ∷ [];
}
