-- ===== src/Module/BootTimer.antt =====
-- Class BootTimer of src/module/BootTimer.cpp and include/module/BootTimer.h: a deadline on the boot
-- clock. What clock_gettime returns is an argument.
pub mod Deadline
mod Tests
use gc.Common.{
  ℕ, ◌+◌, ◌-◌, ◌*◌, ◌/◌, ◌%◌, ◌^◌, Bool, true, false, ◌&&◌, ◌||◌, ltb, leb, ◌==◌, if◌then◌else◌,
}

-- LONG_MAX of the 32-bit target, which is the type of a time_t there.
abbrev pub long_max : ℕ
long_max = 2 ^ 31 - 1

-- A time of the clock, and a deadline.
pub record Timespec : Type 0 where
  pub sec : ℕ
  pub nsec : ℕ

-- A timer that is clear never expires.
abbrev pub clear : Timespec
clear = record { sec = long_max; nsec = 0 }

-- The carry out of the nanoseconds, as the source tests it.
abbrev carry : ℕ → ℕ → Timespec
carry sec nsec =
    if ltb 1000000000 nsec
    then record { sec = sec + 1; nsec = nsec - 1000000000 }
    else record { sec = sec; nsec = nsec }

-- The callers pass no negative time.
unfoldable pub set_ms : Timespec → ℕ → Timespec
set_ms now ms =
    if ms == long_max then clear else carry (ms / 1000 + now.sec) (ms % 1000 * 1000000 + now.nsec)

unfoldable pub set_us : Timespec → ℕ → Timespec
set_us now us =
    if us == long_max then clear else carry (us / 1000000 + now.sec) (us % 1000 * 1000 + now.nsec)

unfoldable pub is_expired : Timespec → Timespec → Bool
is_expired now timer =
    if timer.sec == long_max
    then false
    else ltb timer.sec now.sec || (now.sec == timer.sec && leb timer.nsec now.nsec)

unfoldable pub is_clear : Timespec → Bool
is_clear timer = timer.nsec == 0 && timer.sec == long_max
