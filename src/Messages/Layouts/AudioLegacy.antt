-- ===== src/Messages/Layouts/AudioLegacy.antt =====
-- Layouts of atemwire/messages/audio_legacy.py.
use bmdwire.Prelude.{none, some, [], ◌∷◌}
use bmdwire.Messages.{Kind, Layout, field}

-- `AudioMixerMasterPropertiesField`
abbrev pub audio_mixer_master_properties_field : Layout
audio_mixer_master_properties_field = record {
  code = "AMMO";
  size = 0;
  mask_at = none;
  mask_type = Kind.u8;
  fields = field "volume" Kind.u16 0 none 1 ∷ field "afv" Kind.boolean 4 none 1 ∷ [];
}

-- `AudioMixerMonitorPropertiesField`
abbrev pub audio_mixer_monitor_properties_field : Layout
audio_mixer_monitor_properties_field = record {
  code = "AMmO";
  size = 0;
  mask_at = none;
  mask_type = Kind.u8;
  fields =
      field "enabled" Kind.boolean 0 none 1
      ∷ field "volume" Kind.u16 2 none 1
      ∷ field "mute" Kind.boolean 4 none 1
      ∷ field "solo" Kind.boolean 5 none 1
      ∷ field "solo_source" Kind.u16 6 none 1
      ∷ field "dim" Kind.boolean 8 none 1
      ∷ field "dim_volume" Kind.u16 10 none 1
      ∷ [];
}

-- `AudioInputCommand`
abbrev pub audio_input_command : Layout
audio_input_command = record {
  code = "CAMI";
  size = 12;
  mask_at = some 0;
  mask_type = Kind.u8;
  fields =
      field "source" Kind.u16 2 none 1
      ∷ field "mix_option" Kind.u8 4 (some 0) 1
      ∷ field "volume" Kind.u16 6 (some 1) 1
      ∷ field "balance" Kind.i16 8 (some 2) 1
      ∷ [];
}

-- `AudioMasterPropertiesCommand`
abbrev pub audio_master_properties_command : Layout
audio_master_properties_command = record {
  code = "CAMM";
  size = 8;
  mask_at = some 0;
  mask_type = Kind.u8;
  fields = field "volume" Kind.u16 2 (some 0) 1 ∷ field "afv" Kind.boolean 6 (some 2) 1 ∷ [];
}

-- `AudioMonitorPropertiesCommand`
abbrev pub audio_monitor_properties_command : Layout
audio_monitor_properties_command = record {
  code = "CAMm";
  size = 12;
  mask_at = some 0;
  mask_type = Kind.u8;
  fields =
      field "enabled" Kind.boolean 1 (some 0) 1
      ∷ field "volume" Kind.u16 2 (some 1) 1
      ∷ field "mute" Kind.boolean 4 (some 2) 1
      ∷ field "solo" Kind.boolean 5 (some 3) 1
      ∷ field "solo_source" Kind.u16 6 (some 4) 1
      ∷ field "dim" Kind.boolean 8 (some 5) 1
      ∷ field "dim_volume" Kind.u16 10 (some 6) 1
      ∷ [];
}

-- `SendAudioLevelsCommand`
abbrev pub send_audio_levels_command : Layout
send_audio_levels_command = record {
  code = "SALN";
  size = 4;
  mask_at = none;
  mask_type = Kind.u8;
  fields = field "enable" Kind.boolean 0 none 1 ∷ [];
}
