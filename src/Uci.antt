-- ===== src/Uci.antt =====
-- src/uci and include/uci: what the controller keeps in its configuration files.
mod Checksum
pub mod UciMsg
pub mod UciFrm
pub mod UciPln
pub mod UciFault
