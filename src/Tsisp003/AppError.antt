-- ===== src/Tsisp003/AppError.antt =====
-- APP::ERROR of include/tsisp003/TsiSp003Const.h: what the application layer answers to a message
-- that it refuses.
use gc.Common.{ℕ}

pub data AppError : Type 0 where
  app_no_error device_controller_offline syntax_error length_error data_chksum_error : AppError
  text_non_asc frame_too_large unknown_mi mi_not_supported power_is_off : AppError
  undefined_device_number font_not_supported colour_not_supported overlays_not_supported : AppError
  dimming_level_not_supported frm_msg_pln_active facility_switch_override : AppError
  conspicuity_not_supported transition_time_not_supported frm_msg_pln_undefined : AppError
  plan_not_enabled plan_enabled size_mismatch frame_too_small har_strategy_stopped : AppError
  har_strategy_undefined har_strategy_error har_voice_error har_voice_not_supported : AppError
  har_hardware_error time_expired collour_depth_not_supported : AppError
  incomplete_colou_frame_definition incorrect_password interlocking_invalid_setting : AppError
  interlocking_missing_signs interlocking_not_active interloccking_active user_defined_fe : AppError
  failed : AppError

-- The byte that stands for an error in a Reject message.
unfoldable pub code : AppError → ℕ
code app_no_error = 0x00
code device_controller_offline = 0x01
code syntax_error = 0x02
code length_error = 0x03
code data_chksum_error = 0x04
code text_non_asc = 0x05
code frame_too_large = 0x06
code unknown_mi = 0x07
code mi_not_supported = 0x08
code power_is_off = 0x09
code undefined_device_number = 0x0a
code font_not_supported = 0x0b
code colour_not_supported = 0x0c
code overlays_not_supported = 0x0d
code dimming_level_not_supported = 0x0e
code frm_msg_pln_active = 0x0f
code facility_switch_override = 0x10
code conspicuity_not_supported = 0x11
code transition_time_not_supported = 0x12
code frm_msg_pln_undefined = 0x13
code plan_not_enabled = 0x14
code plan_enabled = 0x15
code size_mismatch = 0x16
code frame_too_small = 0x17
code har_strategy_stopped = 0x18
code har_strategy_undefined = 0x19
code har_strategy_error = 0x1a
code har_voice_error = 0x1b
code har_voice_not_supported = 0x1c
code har_hardware_error = 0x1d
code time_expired = 0x1e
code collour_depth_not_supported = 0x1f
code incomplete_colou_frame_definition = 0x20
code incorrect_password = 0x21
code interlocking_invalid_setting = 0x22
code interlocking_missing_signs = 0x23
code interlocking_not_active = 0x24
code interloccking_active = 0x25
code user_defined_fe = 0xfe
code failed = 0xff
