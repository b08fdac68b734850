-- ===== src/Module/BootTimer/Tests.antt =====
-- Instances for src/module/BootTimer.cpp.
use gc.Module.BootTimer.{Timespec}

abbrev now : Timespec
now = record { sec = 10; nsec = 999000000 }

abbrev later : Timespec
later = record { sec = 11; nsec = 0 }
