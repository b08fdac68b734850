-- ===== src/Layer.antt =====
-- src/layer and include/layer: the layers between the serial line and the application.
pub mod DtLk
pub mod Nts
pub mod Prst
pub mod Slv
