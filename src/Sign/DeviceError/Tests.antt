-- ===== src/Sign/DeviceError/Tests.antt =====
-- Instances for src/sign/DeviceError.cpp.
use gc.Common.{◌≡◌, refl, some, arith}
use gc.Utils.Bits.{init}
use gc.Utils.Bits.Laws.{init-IsValid}
use gc.Sign.DeviceError.{DeviceError, place}
use gc.Sign.DeviceError.Codes
use gc.Sign.DeviceError.Laws.{IsReady}

abbrev fresh_sign : DeviceError
fresh_sign = record { dev_err = Codes.sign_error; err_bit = init 32 }

fresh_sign-IsReady : IsReady fresh_sign
unfolding init
fresh_sign-IsReady = record { bits = init-IsValid 32; room = omega arith }

led_place : place Codes.sign_error Codes.sign_single_led_failure ≡ some 2
unfolding place
led_place = refl

driver_place : place Codes.sign_error Codes.sign_display_driver_failure ≡ some 9
unfolding place
driver_place = refl
