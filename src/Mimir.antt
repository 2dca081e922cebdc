-- ===== src/Mimir.antt =====
-- Mimir, the package that the services share (mimir/src/csi_models).
pub mod Features
pub mod Migrate
