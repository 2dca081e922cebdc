-- ===== src/Mimir/Migrate.antt =====
-- The numbered SQL migrations: mimir/src/csi_models/migrate.py.
mod Defs
pub mod Runs
mod Examples
pub use Defs.*
