-- ===== src/Messages/Layouts.antt =====
-- The classes of atemwire/messages that are layouts and nothing else: the commands, in the order of
-- their files.
pub mod AudioLegacy
pub mod ColorGenerator
pub mod DownstreamKeyer
pub mod FadeToBlack
pub mod Fairlight
pub mod FileTransfer
pub mod InputVideo
pub mod Lock
pub mod Macros
pub mod Media
pub mod Multiviewer
pub mod Recording
pub mod Streaming
pub mod Supersource
pub mod Switching
pub mod SystemInfo
pub mod TransitionCommands
pub mod TransitionFields
pub mod UpstreamKeyerCommands
pub mod UpstreamKeyerFields
use bmdwire.Prelude.{List, [], ◌∷◌}
use bmdwire.Messages.{Layout}
use bmdwire.Messages.Layouts.AudioLegacy.{
  audio_input_command, audio_master_properties_command, audio_monitor_properties_command,
  send_audio_levels_command,
}
use bmdwire.Messages.Layouts.ColorGenerator.{color_generator_command}
use bmdwire.Messages.Layouts.DownstreamKeyer.{
  dkey_onair_command, dkey_auto_command, dkey_rate_command, dkey_tie_command, dkey_set_fill_command,
  dkey_set_key_command, dkey_gain_command, dkey_mask_command,
}
use bmdwire.Messages.Layouts.FadeToBlack.{fade_to_black_command, fade_to_black_config_command}
use bmdwire.Messages.Layouts.Fairlight.{send_fairlight_levels_command}
use bmdwire.Messages.Layouts.FileTransfer.{
  transfer_download_request_command, transfer_upload_request_command, transfer_ack_command,
}
use bmdwire.Messages.Layouts.InputVideo.{video_mode_command}
use bmdwire.Messages.Layouts.Lock.{lock_command, partial_lock_command}
use bmdwire.Messages.Layouts.Macros.{macro_action_command, macro_sleep_command}
use bmdwire.Messages.Layouts.Media.{clear_still_command, mediaplayer_select_command}
use bmdwire.Messages.Layouts.Multiviewer.{multiview_input_command, multiview_properties_command}
use bmdwire.Messages.Layouts.Recording.{recording_settings_set_command, recorder_status_command}
use bmdwire.Messages.Layouts.Streaming.{
  streaming_service_set_command, streaming_audio_bitrate_command, streaming_status_set_command,
}
use bmdwire.Messages.Layouts.Supersource.{
  supersource_box_properties_command, supersource_properties_command,
}
use bmdwire.Messages.Layouts.Switching.{
  cut_command, auto_command, program_input_command, preview_input_command, aux_source_command,
}
use bmdwire.Messages.Layouts.SystemInfo.{auto_input_video_mode_command, set_time_of_day_command}
use bmdwire.Messages.Layouts.TransitionCommands.{
  transition_settings_command, mix_settings_command, dip_settings_command, wipe_settings_command,
  stinger_settings_command, dve_settings_command, transition_preview_command,
  transition_position_command,
}
use bmdwire.Messages.Layouts.UpstreamKeyerCommands.{
  key_on_air_command, key_fill_command, key_cut_command, key_type_command,
  key_properties_dve_command, key_properties_mask_command, key_properties_pattern_command,
  key_properties_advanced_chroma_colorpicker_command, key_properties_advanced_chroma_command,
  key_properties_luma_command, keyer_keyframe_set_command, keyer_keyframe_run_command,
}

-- Every `Send` class here
abbrev pub commands : List Layout
commands =
    audio_input_command ∷ audio_master_properties_command ∷ audio_monitor_properties_command
    ∷ send_audio_levels_command ∷ color_generator_command ∷ dkey_onair_command ∷ dkey_auto_command
    ∷ dkey_rate_command ∷ dkey_tie_command ∷ dkey_set_fill_command ∷ dkey_set_key_command
    ∷ dkey_gain_command ∷ dkey_mask_command ∷ fade_to_black_command ∷ fade_to_black_config_command
    ∷ send_fairlight_levels_command ∷ transfer_download_request_command
    ∷ transfer_upload_request_command ∷ transfer_ack_command ∷ video_mode_command ∷ lock_command
    ∷ partial_lock_command ∷ macro_action_command ∷ macro_sleep_command ∷ clear_still_command
    ∷ mediaplayer_select_command ∷ multiview_input_command ∷ multiview_properties_command
    ∷ recording_settings_set_command ∷ recorder_status_command ∷ streaming_service_set_command
    ∷ streaming_audio_bitrate_command ∷ streaming_status_set_command
    ∷ supersource_box_properties_command ∷ supersource_properties_command ∷ cut_command
    ∷ auto_command ∷ program_input_command ∷ preview_input_command ∷ aux_source_command
    ∷ auto_input_video_mode_command ∷ set_time_of_day_command ∷ transition_settings_command
    ∷ mix_settings_command ∷ dip_settings_command ∷ wipe_settings_command ∷ stinger_settings_command
    ∷ dve_settings_command ∷ transition_preview_command ∷ transition_position_command
    ∷ key_on_air_command ∷ key_fill_command ∷ key_cut_command ∷ key_type_command
    ∷ key_properties_dve_command ∷ key_properties_mask_command ∷ key_properties_pattern_command
    ∷ key_properties_advanced_chroma_colorpicker_command ∷ key_properties_advanced_chroma_command
    ∷ key_properties_luma_command ∷ keyer_keyframe_set_command ∷ keyer_keyframe_run_command ∷ []
