-- ===== src/Sign/DeviceError/Codes.antt =====
-- DEV::ERROR of include/tsisp003/TsiSp003Const.h, and the tables of src/sign/DeviceError.cpp.
use gc.Common.{ℕ, List, [], ◌∷◌}

abbrev pub dev_no_error : ℕ
dev_no_error = 0x00

abbrev pub power_failure : ℕ
power_failure = 0x01

abbrev pub communications_timeout_error : ℕ
communications_timeout_error = 0x02

abbrev pub memory_error : ℕ
memory_error = 0x03

abbrev pub battery_failure : ℕ
battery_failure = 0x04

abbrev pub internal_communications_failure : ℕ
internal_communications_failure = 0x05

abbrev pub sign_single_led_failure : ℕ
sign_single_led_failure = 0x07

abbrev pub sign_multi_led_failure : ℕ
sign_multi_led_failure = 0x08

abbrev pub over_temperature_alarm : ℕ
over_temperature_alarm = 0x09

abbrev pub conspicuity_device_failure : ℕ
conspicuity_device_failure = 0x0b

abbrev pub sign_luminance_controller_failure : ℕ
sign_luminance_controller_failure = 0x0c

abbrev pub controller_reset_via_watchdog : ℕ
controller_reset_via_watchdog = 0x0d

abbrev pub battery_low : ℕ
battery_low = 0x0e

abbrev pub powered_off_by_command : ℕ
powered_off_by_command = 0x0f

abbrev pub facility_switch_override : ℕ
facility_switch_override = 0x10

abbrev pub sign_display_driver_failure : ℕ
sign_display_driver_failure = 0x11

abbrev pub equipment_over_temperature : ℕ
equipment_over_temperature = 0x14

abbrev pub display_timeout_error : ℕ
display_timeout_error = 0x1c

abbrev pub under_local_control : ℕ
under_local_control = 0x20

abbrev pub main_processor_communications_error : ℕ
main_processor_communications_error = 0x21

abbrev pub internal_power_supply_fault : ℕ
internal_power_supply_fault = 0x28

-- From the lowest priority to the highest.
abbrev pub sign_error : List ℕ
sign_error =
    under_local_control ∷ powered_off_by_command ∷ sign_single_led_failure
    ∷ sign_luminance_controller_failure ∷ conspicuity_device_failure
    ∷ main_processor_communications_error ∷ internal_power_supply_fault ∷ over_temperature_alarm
    ∷ sign_multi_led_failure ∷ sign_display_driver_failure ∷ internal_communications_failure ∷ []

abbrev pub ctrller_error : List ℕ
ctrller_error =
    communications_timeout_error ∷ display_timeout_error ∷ equipment_over_temperature
    ∷ controller_reset_via_watchdog ∷ battery_low ∷ battery_failure ∷ facility_switch_override
    ∷ memory_error ∷ power_failure ∷ []
