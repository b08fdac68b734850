-- ===== src/Sign.antt =====
-- The groups of signs of src/sign: the schedule of plans, the choice of what is displayed, and power.
pub mod Schedule
pub mod Display
pub mod Power
pub mod Command
pub mod DeviceError
pub mod Controller
