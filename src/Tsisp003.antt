-- ===== src/Tsisp003.antt =====
-- The application protocol TSI-SP-003: include/tsisp003 and src/tsisp003.
pub mod AppError
pub mod Mi
pub mod Memory
pub mod Message
pub mod Frame
pub mod Plan
pub mod Session
pub mod Upgrade
pub mod Commands
