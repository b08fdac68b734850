-- ===== src/Module/BootTimer/Deadline.antt =====
-- When the timers of src/module/BootTimer.cpp expire.
use gc.Common.{ℕ, ◌+◌, ◌-◌, ◌*◌, ◌/◌, ◌%◌, ◌≤◌, ◌<◌, ◌≡◌, ◌↔◌, true, arith}
use gc.Module.BootTimer.{Timespec, long_max, set_ms, set_us, is_expired}

-- A time of the clock in nanoseconds.
abbrev pub nanoseconds : Timespec → ℕ
nanoseconds t = t.sec * 1000000000 + t.nsec

-- A timer set to ms milliseconds, less than the greatest number, is expired at another reading of
-- the clock exactly if ms milliseconds have gone by, also where the deadline falls on a full
-- second, if both readings have less than a second of nanoseconds and the deadline lies before the
-- last second of the clock.
pub set_ms-is_expired :
    (now later : Timespec) (ms : ℕ)
    → now.nsec < 1000000000
    → later.nsec < 1000000000
    → ms < long_max
    → ms / 1000 + now.sec + 1 < long_max
    → (is_expired later (set_ms now ms) ≡ true)
      ↔ (nanoseconds now + ms * 1000000 ≤ nanoseconds later)
unfolding set_ms is_expired
set_ms-is_expired now later ms hn hl lt h = ground arith

-- A timer set to us microseconds, less than the greatest number, is expired at another reading of
-- the clock exactly if us microseconds less the whole milliseconds that stand below the last full
-- second have gone by, if both readings have less than a second of nanoseconds and the deadline
-- lies before the last second of the clock.
pub set_us-is_expired :
    (now later : Timespec) (us : ℕ)
    → now.nsec < 1000000000
    → later.nsec < 1000000000
    → us < long_max
    → us / 1000000 + now.sec + 1 < long_max
    → (is_expired later (set_us now us) ≡ true)
      ↔ (nanoseconds now + (us - us / 1000 % 1000 * 1000) * 1000 ≤ nanoseconds later)
unfolding set_us is_expired
set_us-is_expired now later us hn hl lt h = ground arith
