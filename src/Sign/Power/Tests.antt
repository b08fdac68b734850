-- ===== src/Sign/Power/Tests.antt =====
-- Instances for the power of a group of src/sign/Group.cpp.
use gc.Common.{◌≡◌, refl, true, false, arith}
use gc.Module.BootTimer
use gc.Module.BootTimer.{Timespec, is_expired, is_clear}
use gc.Sign.Display.{fs_auto}
use gc.Sign.Display.Tests.{shown}
use gc.Sign.Power.{Power, pwr_off, pwr_on, pwr_rising, is_power_on, power_func, combine}
use gc.Sign.Power.Laws.{power_func-rises}

abbrev noon : Timespec
noon = record { sec = 1000; nsec = 0 }

abbrev later : Timespec
later = record { sec = 1003; nsec = 5 }

abbrev down : Power
down = record {
  cmd_pwr = pwr_rising;
  fs_pwr = pwr_on;
  main_pwr = pwr_off;
  pwr_up_tmr = BootTimer.clear;
}

abbrev rising : Power
rising = record down { main_pwr = pwr_rising; pwr_up_tmr = record { sec = 1003; nsec = 0 } }

comes_on : is_power_on (power_func later 3 fs_auto false (rising, shown)).0 ≡ true
unfolding power_func combine is_expired is_clear
comes_on = refl

none_set : is_clear down.pwr_up_tmr ≡ true
unfolding is_clear
none_set = refl

power_func-rises_example :
    is_power_on (power_func later 3 fs_auto false (power_func noon 3 fs_auto false (down, shown))).0
    ≡ true
power_func-rises_example =
    power_func-rises noon later 3 fs_auto fs_auto down shown refl refl refl none_set (omega arith)
      (omega arith) (omega arith) (omega arith) (omega arith)
