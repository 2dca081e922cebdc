-- ===== src/Freki/Models.antt =====
-- The model registry: freki/src/freki/routers/models.py over the table `trained_models`.
mod Defs
pub mod Table
pub mod Upload
pub mod Activate
mod Examples
unfoldable pub use Defs.{upload_model}
pub use Defs.*
