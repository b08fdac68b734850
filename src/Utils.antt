-- ===== src/Utils.antt =====
-- src/module/Utils.cpp and include/module/Utils.h: conversions (Cnvt), checks of received bytes
-- (Check), checksums (Crc), sets of bits (Bits).
pub mod Check
pub mod Cnvt
pub mod Crc
pub mod Bits
