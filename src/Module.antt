-- ===== src/Module.antt =====
-- src/module and include/module: timers, buffers and filters.
pub mod BootTimer
pub mod Debounce
pub mod RingBuf
pub mod FacilitySwitch
