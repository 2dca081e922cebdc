-- ===== src/Volva/Loader.antt =====
-- The loading of the active model: volva/src/volva/model_loader.py.
mod Defs
pub mod Refresh
mod Examples
pub use Defs.*
