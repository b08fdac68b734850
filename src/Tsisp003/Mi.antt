-- ===== src/Tsisp003/Mi.antt =====
-- MI::CODE of include/tsisp003/TsiSp003Const.h: the code of a message of the application layer, its
-- first byte.
use gc.Common.{ℕ}

abbrev pub reject : ℕ
reject = 0x00

abbrev pub ack : ℕ
ack = 0x01

abbrev pub start_session : ℕ
start_session = 0x02

abbrev pub password_seed : ℕ
password_seed = 0x03

abbrev pub password : ℕ
password = 0x04

abbrev pub heartbeat_poll : ℕ
heartbeat_poll = 0x05

abbrev pub sign_status_reply : ℕ
sign_status_reply = 0x06

abbrev pub end_session : ℕ
end_session = 0x07

abbrev pub system_reset : ℕ
system_reset = 0x08

abbrev pub update_time : ℕ
update_time = 0x09

abbrev pub sign_set_text_frame : ℕ
sign_set_text_frame = 0x0a

abbrev pub sign_set_graphics_frame : ℕ
sign_set_graphics_frame = 0x0b

abbrev pub sign_set_message : ℕ
sign_set_message = 0x0c

abbrev pub sign_set_plan : ℕ
sign_set_plan = 0x0d

abbrev pub sign_display_frame : ℕ
sign_display_frame = 0x0e

abbrev pub sign_display_message : ℕ
sign_display_message = 0x0f

abbrev pub enable_plan : ℕ
enable_plan = 0x10

abbrev pub disable_plan : ℕ
disable_plan = 0x11

abbrev pub request_enabled_plans : ℕ
request_enabled_plans = 0x12

abbrev pub report_enabled_plans : ℕ
report_enabled_plans = 0x13

abbrev pub sign_set_dimming_level : ℕ
sign_set_dimming_level = 0x14

abbrev pub power_on_off : ℕ
power_on_off = 0x15

abbrev pub disable_enable_device : ℕ
disable_enable_device = 0x16

abbrev pub sign_request_stored_fmp : ℕ
sign_request_stored_fmp = 0x17

abbrev pub retrieve_fault_log : ℕ
retrieve_fault_log = 0x18

abbrev pub fault_log_reply : ℕ
fault_log_reply = 0x19

abbrev pub reset_fault_log : ℕ
reset_fault_log = 0x1a

abbrev pub sign_extended_status_request : ℕ
sign_extended_status_request = 0x1b

abbrev pub sign_extended_status_reply : ℕ
sign_extended_status_reply = 0x1c

abbrev pub sign_set_high_resolution_graphics_frame : ℕ
sign_set_high_resolution_graphics_frame = 0x1d

abbrev pub sign_configuration_request : ℕ
sign_configuration_request = 0x21

abbrev pub sign_configuration_reply : ℕ
sign_configuration_reply = 0x22

abbrev pub sign_display_atomic_frames : ℕ
sign_display_atomic_frames = 0x2b

abbrev pub har_status_reply : ℕ
har_status_reply = 0x40

abbrev pub har_set_voice_data_incomplete : ℕ
har_set_voice_data_incomplete = 0x41

abbrev pub har_set_voice_data_complete : ℕ
har_set_voice_data_complete = 0x42

abbrev pub har_set_strategy : ℕ
har_set_strategy = 0x43

abbrev pub har_activate_strategy : ℕ
har_activate_strategy = 0x44

abbrev pub har_set_plan : ℕ
har_set_plan = 0x45

abbrev pub har_request_stored_vsp : ℕ
har_request_stored_vsp = 0x46

abbrev pub har_set_voice_data_ack : ℕ
har_set_voice_data_ack = 0x47

abbrev pub har_set_voice_data_nak : ℕ
har_set_voice_data_nak = 0x48

abbrev pub environmental_weather_status_reply : ℕ
environmental_weather_status_reply = 0x80

abbrev pub request_environmental_weather_values : ℕ
request_environmental_weather_values = 0x81

abbrev pub environmental_weather_values : ℕ
environmental_weather_values = 0x82

abbrev pub environmental_weather_threshold_definition : ℕ
environmental_weather_threshold_definition = 0x83

abbrev pub request_threshold_definition : ℕ
request_threshold_definition = 0x84

abbrev pub request_environmental_weather_event_log : ℕ
request_environmental_weather_event_log = 0x85

abbrev pub environmental_weather_event_log_reply : ℕ
environmental_weather_event_log_reply = 0x86

abbrev pub reset_environmental_weather_event_log : ℕ
reset_environmental_weather_event_log = 0x87

abbrev pub user_defined_cmd_fa : ℕ
user_defined_cmd_fa = 0xfa

abbrev pub user_defined_cmd_fe : ℕ
user_defined_cmd_fe = 0xfe

abbrev pub user_defined_cmd_ff : ℕ
user_defined_cmd_ff = 0xff
